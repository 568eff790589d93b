-- ===== src/Database/Writes.antt =====
-- database/database.go: what a reader sees after a value is written under a key.
use godis.Base.{
  ◌≡◌, refl, inl, inr, Bool, true, false, Option, none, some, Bytes, bytes_eq, bytes_eq_iff,
  Bool-cases, if◌then◌else◌,
}
use godis.Base.Int.{ℤ}
use godis.Dict.{get, put}
use godis.Dict.Laws.{get-delete_same, get-delete_other, get-insert_same, get-insert_other}
use godis.Database.{Data, text, CmdLine, Db, after, add_aof, persist, expire, put_entity, remove}
use godis.Database.Expiry.{visible, shown}
use godis.Database.String.{store}

-- The key shows `new`, and every other key what it showed before.
abbrev pub updated : Bytes → Option Data → Option Data → Bytes → Option Data
updated key new old j = if bytes_eq key j then new else old

pub add_aof-visible :
    (now : ℤ) (line : CmdLine) (db : Db) (j : Bytes)
    → visible now (add_aof line db) j ≡ visible now db j
unfolding visible add_aof
add_aof-visible now line db j = refl

-- A value without an expiry time.
pub persist-store-visible :
    (now : ℤ) (key j : Bytes) (b : Option Bytes) (db : Db)
    → visible now (persist key (store key b db)) j
      ≡ updated key (some (text b)) (visible now db j) j
unfolding visible persist store put_entity put
persist-store-visible now key j b db = elim (Bool-cases (bytes_eq key j)) [
  | inl e ↦
      rw
        (e, get-delete_same db.ttl_map key j e, get-insert_same db.data_map key j (text b) e, after)
        refl
  | inr e ↦
      rw (e, get-delete_other db.ttl_map key j e, get-insert_other db.data_map key j (text b) e)
        refl
]

-- A value with an expiry time.
pub expire-store-visible :
    (now t : ℤ) (key j : Bytes) (b : Option Bytes) (db : Db)
    → visible now (expire key t (store key b db)) j
      ≡ updated key (shown now (some t) (some (text b))) (visible now db j) j
unfolding visible expire store put_entity put
expire-store-visible now t key j b db = elim (Bool-cases (bytes_eq key j)) [
  | inl e ↦
      rw (e, get-insert_same db.ttl_map key j t e, get-insert_same db.data_map key j (text b) e)
        refl
  | inr e ↦
      rw (e, get-insert_other db.ttl_map key j t e, get-insert_other db.data_map key j (text b) e)
        refl
]

-- A value written over one whose expiry time stays.
pub store-visible :
    (now : ℤ) (key j : Bytes) (b : Option Bytes) (db : Db)
    → visible now (store key b db) j
      ≡ updated key (shown now (get db.ttl_map key) (some (text b))) (visible now db j) j
unfolding visible store put_entity put
store-visible now key j b db = elim (Bool-cases (bytes_eq key j)) [
  | inl e ↦ rw (e, get-insert_same db.data_map key j (text b) e, (bytes_eq_iff key j).0 e) refl
  | inr e ↦ rw (e, get-insert_other db.data_map key j (text b) e) refl
]

pub visible-remove :
    (now : ℤ) (key j : Bytes) (db : Db)
    → visible now (remove key db) j ≡ updated key none (visible now db j) j
unfolding visible remove
visible-remove now key j db = elim (Bool-cases (bytes_eq key j)) [
  | inl e ↦
      rw (e, get-delete_same db.ttl_map key j e, get-delete_same db.data_map key j e, after) refl
  | inr e ↦ rw (e, get-delete_other db.ttl_map key j e, get-delete_other db.data_map key j e) refl
]

-- A new value under the expiry time of the value that it replaces.
abbrev pub over : Data → Option Data → Option Data
over new none = none
over new (some d) = some new

pub visible-some :
    (now : ℤ) (key : Bytes) (db : Db) (d : Data)
    → visible now db key ≡ some d
    → (after now (get db.ttl_map key) ≡ false) × (get db.data_map key ≡ some d)
unfolding visible
visible-some now key db d h = go (after now (get db.ttl_map key)) refl h
  where
    go :
        (b : Bool)
        → after now (get db.ttl_map key) ≡ b
        → (if b then none else get db.data_map key) ≡ some d
        → (after now (get db.ttl_map key) ≡ false) × (get db.data_map key ≡ some d)
    go true e h' = absurd (cc)
    go false e h' = (e, h')

shown-over :
    (t : ℤ) (key : Bytes) (db : Db) (d new : Data)
    → get db.data_map key ≡ some d
    → shown t (get db.ttl_map key) (some new) ≡ over new (visible t db key)
unfolding visible
shown-over t key db d new e = elim (Bool-cases (after t (get db.ttl_map key))) [
  | inl gone ↦ rw gone refl
  | inr live ↦ rw (live, e) refl
]

-- A value written over another one shows for as long as the old one would have.
pub store-over :
    (now t : ℤ) (key j : Bytes) (b : Option Bytes) (db : Db) (d : Data)
    → visible now db key ≡ some d
    → visible t (store key b db) j
      ≡ updated key (over (text b) (visible t db key)) (visible t db j) j
store-over now t key j b db d h =
    rw (store-visible t key j b db, shown-over t key db d (text b) (visible-some now key db d h).1)
      refl
