-- ===== src/Database/Expiry.antt =====
-- database/database.go: what a reader sees at a time, and that expiry, lazy or by a task, only removes
-- what nobody sees any more.
use godis.Base.{
  ◌≡◌, ◌⊎◌, ◌∙◌, refl, inl, inr, true, false, Option, none, some, Bytes, bytes_eq, bytes_eq_iff,
  Bool-cases, Option-cases, arith, if◌then◌else◌,
}
use godis.Base.Int.{ℤ, ◌≤ℤ◌}
use godis.Dict.{get}
use godis.Dict.Laws.{get-delete_self, get-delete_other}
use godis.Database.{Data, Db, remove, after, is_expired, get_entity, run_task}

abbrev pub shown : ℤ → Option ℤ → Option Data → Option Data
shown now expire_time entity = if after now expire_time then none else entity

-- The value of a key at a time, for a reader that changes nothing.
unfoldable pub visible : ℤ → Db → Bytes → Option Data
unfolding after
visible now db key = shown now (get db.ttl_map key) (get db.data_map key)

-- What has expired stays so.
after_later :
    (now later : ℤ) (t : Option ℤ) → now ≤ℤ later → after now t ≡ true → after later t ≡ true
unfolding after
after_later now later none le h = h
after_later now later (some t) le h = ground arith

pub visible_gone :
    (now : ℤ) (key : Bytes) (db : Db)
    → after now (get db.ttl_map key) ≡ true
    → visible now db key ≡ none
unfolding visible
visible_gone now key db gone = rw gone refl

pub visible_live :
    (now : ℤ) (key : Bytes) (db : Db)
    → after now (get db.ttl_map key) ≡ false
    → visible now db key ≡ get db.data_map key
unfolding visible
visible_live now key db live = rw live refl

-- A key that has expired can be removed, and no later reader sees a difference.
pub remove-visible :
    (now later : ℤ) (key j : Bytes) (db : Db)
    → now ≤ℤ later
    → after now (get db.ttl_map key) ≡ true
    → visible later (remove key db) j ≡ visible later db j
unfolding remove
remove-visible now later key j db le gone = elim (Bool-cases (bytes_eq key j)) [
  | inl e ↦
      rw (← (bytes_eq_iff key j).0 e, visible_gone later key db (after_later now later _ le gone))
        (unfold visible in
          rw (get-delete_self db.ttl_map key, get-delete_self db.data_map key, after) refl)
  | inr e ↦
      unfold visible in
      rw (get-delete_other db.ttl_map key j e, get-delete_other db.data_map key j e) refl
]

-- `get_entity` by the state of the key.
get_entity_gone :
    (now : ℤ) (key : Bytes) (db : Db) (d : Data)
    → get db.data_map key ≡ some d
    → after now (get db.ttl_map key) ≡ true
    → get_entity now key db ≡ (none, remove key db)
unfolding get_entity is_expired
get_entity_gone now key db d e gone = rw (e, gone) refl

pub get_entity_live :
    (now : ℤ) (key : Bytes) (db : Db)
    → after now (get db.ttl_map key) ≡ false
    → get_entity now key db ≡ (get db.data_map key, db)
unfolding get_entity is_expired
get_entity_live now key db live = elim (Option-cases (get db.data_map key)) [
  | inl e ↦ rw e refl
  | inr (d, e) ↦ rw (e, live) refl
]

get_entity_absent :
    (now : ℤ) (key : Bytes) (db : Db)
    → get db.data_map key ≡ none
    → get_entity now key db ≡ (none, db)
unfolding get_entity
get_entity_absent now key db e = rw e refl

shown-none : (now : ℤ) (t : Option ℤ) → shown now t none ≡ none
shown-none now t = elim (Bool-cases (after now t)) [ inl e ↦ rw e refl | inr e ↦ rw e refl ]

-- `GetEntity` returns what is visible at its time, and whatever it removes because it has expired, no
-- reader sees a difference at that time or later.
pub get_entity-visible :
    (now later : ℤ) (key j : Bytes) (db : Db)
    → now ≤ℤ later
    → ((get_entity now key db).0 ≡ visible now db key)
      × (visible later (get_entity now key db).1 j ≡ visible later db j)
get_entity-visible now later key j db le = elim (Bool-cases (after now (get db.ttl_map key))) [
  | inr live ↦ rw (get_entity_live now key db live, visible_live now key db live) (refl, refl)
  | inl gone ↦ elim (Option-cases (get db.data_map key)) [
    | inl e ↦ rw (get_entity_absent now key db e, visible_gone now key db gone) (refl, refl)
    | inr (d, e) ↦
        rw (get_entity_gone now key db d e gone, visible_gone now key db gone)
          (refl, remove-visible now later key j db le gone)
  ]
]

-- How `GetEntity` ends: nothing is visible, and what it may remove no reader misses; or it returns what is
-- visible, and removes nothing.
pub get_entity-cases :
    (now : ℤ) (key : Bytes) (db : Db)
    → ((db1 : Db) × (get_entity now key db ≡ (none, db1))
        × (visible now db key ≡ none)
        × ((later : ℤ) (j : Bytes) → now ≤ℤ later → visible later db1 j ≡ visible later db j))
      ⊎ ((d : Data) × (get_entity now key db ≡ (some d, db))
          × (visible now db key ≡ some d)
          × (get db.data_map key ≡ some d)
          × (after now (get db.ttl_map key) ≡ false))
get_entity-cases now key db = elim (Option-cases (get db.data_map key)) [
  | inl e ↦ inl (
    db,
    get_entity_absent now key db e,
    unfold visible in rw (e, shown-none now (get db.ttl_map key)) refl,
    λ later j le. refl,
  )
  | inr (d, e) ↦ elim (Bool-cases (after now (get db.ttl_map key))) [
    | inl gone ↦ inl (
      remove key db,
      get_entity_gone now key db d e gone,
      visible_gone now key db gone,
      λ later j le. remove-visible now later key j db le gone,
    )
    | inr live ↦
        inr (
          d,
          get_entity_live now key db live ∙ rw e refl,
          visible_live now key db live ∙ e,
          e,
          live,
        )
  ]
]

-- The callback of an expiry task changes nothing that a reader sees at its time or later, whatever
-- has become of the key's expiry time since the task was set.
pub run_task-visible :
    (now later : ℤ) (key j : Bytes) (db : Db)
    → now ≤ℤ later
    → visible later (run_task now key db) j ≡ visible later db j
unfolding run_task
run_task-visible now later key j db le = elim (Bool-cases (after now (get db.ttl_map key))) [
  | inl gone ↦ rw gone (remove-visible now later key j db le gone)
  | inr live ↦ rw live refl
]

-- A key that is written: its value and its expiry time, and the other keys are as before.
pub store-visible :
    (now : ℤ) (db db' : Db) (key j : Bytes)
    → get db'.data_map j ≡ get db.data_map j
    → get db'.ttl_map j ≡ get db.ttl_map j
    → visible now db' j ≡ visible now db j
unfolding visible
store-visible now db db' key j d t = rw (d, t) refl
