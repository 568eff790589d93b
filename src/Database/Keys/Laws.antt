-- ===== src/Database/Keys/Laws.antt =====
-- database/keys.go: what the commands on keys reply, and what every reader sees afterwards.
use godis.Base.{
  ◌≡◌, refl, inl, inr, false, Option, none, some, List, [], ◌∷◌, Bytes, bytes_eq, bytes_eq_iff,
  Bool-cases, Option-cases,
}
use godis.Base.Int.{ℤ, pos, ◌+ℤ◌, ◌-ℤ◌, ◌*ℤ◌}
use godis.Strconv.{parse_int, wrap64}
use godis.Protocol.{int, ok}
use godis.Dict.{get}
use godis.Dict.Laws.{get-insert_same, get-insert_other, get-delete_same, get-delete_other}
use godis.Database.{Data, Db, Result, expire, persist, put_entity, remove, add_aof, after}
use godis.Dict.{put, insert, delete}
use godis.Database.Expiry.{visible, shown, get_entity-cases}
use godis.Database.Writes.{updated}
use godis.Database.String.Number.{not_an_integer}
use godis.Database.String.Laws.{Answers}
use godis.Database.Keys.{exec_rename, no_such_key, move_ttl}
use godis.Database.Keys.Expire.{
  expire_by, exec_expire, exec_expire_at, exec_p_expire, exec_p_expire_at, unix_time,
  unix_to_internal,
}

expire-visible :
    (t expire_at : ℤ) (key j : Bytes) (db : Db) (d : Data)
    → get db.data_map key ≡ some d
    → visible t (expire key expire_at db) j
      ≡ updated key (shown t (some expire_at) (some d)) (visible t db j) j
unfolding visible expire
expire-visible t expire_at key j db d e = elim (Bool-cases (bytes_eq key j)) [
  | inl same ↦
      rw (same, get-insert_same db.ttl_map key j expire_at same, ← (bytes_eq_iff key j).0 same, e)
        refl
  | inr no_key ↦ rw (no_key, get-insert_other db.ttl_map key j expire_at no_key) refl
]

-- A number that cannot be read is an error; without the key the reply is 0 and nothing changes; else it
-- is 1, and the key shows its value until the time.
abbrev pub ExpireAnswers : (ℤ → ℤ) → ℤ → Bytes → Option ℤ → Option Data → Db → Result → Type 0
ExpireAnswers expire_at now key none entity db = Answers not_an_integer now (λ t. visible t db)
ExpireAnswers expire_at now key (some n) none db = Answers (int (pos 0)) now (λ t. visible t db)
ExpireAnswers expire_at now key (some n) (some d) db =
    Answers (int (pos 1)) now
      (λ t j. updated key (shown t (some (expire_at n)) (some d)) (visible t db j) j)

expire_by-ExpireAnswers :
    (expire_at : ℤ → ℤ) (now : ℤ) (key arg : Bytes) (args : List Bytes) (db : Db)
    → ExpireAnswers expire_at now key
        (parse_int arg)
        (visible now db key)
        db
        (expire_by expire_at now (key ∷ arg ∷ args) db)
unfolding expire_by
expire_by-ExpireAnswers expire_at now key arg args db = elim (Option-cases (parse_int arg)) [
  | inl e ↦ rw e (refl, λ later j le. refl)
  | inr (n, e) ↦ elim (get_entity-cases now key db) [
    | inl (db1, g, v, same) ↦ rw (e, g, v) (refl, same)
    | inr (d, g, v, held, live) ↦
        rw (e, g, v)
          (
            refl,
            λ later j le.
                unfold add_aof visible in expire-visible later (expire_at n) key j db d held,
          )
  ]
]

-- Each of EXPIRE, EXPIREAT, PEXPIRE and PEXPIREAT reads its number, replies an error when it is none, 0
-- when nothing is visible under the key, and else 1; then the key shows its value until the time that
-- the number stands for, and no other key changes for any reader. The times are, of the number n: n
-- seconds from now, n seconds, n milliseconds from now, n milliseconds. The products are int64s where the
-- code multiplies int64s, and so are the seconds of EXPIREAT when they are counted from the year 1: a time
-- that is too late for that is one in the past.
pub expire_commands-ExpireAnswers :
    (now : ℤ) (key arg : Bytes) (args : List Bytes) (db : Db)
    → ExpireAnswers
        (λ n. now +ℤ wrap64 (n *ℤ pos 1000000000))
        now
        key
        (parse_int arg)
        (visible now db key)
        db
        (exec_expire now (key ∷ arg ∷ args) db)
      × ExpireAnswers
          (λ n. (wrap64 (n +ℤ pos 62135596800) -ℤ pos 62135596800) *ℤ pos 1000000000)
          now
          key
          (parse_int arg)
          (visible now db key)
          db
          (exec_expire_at now (key ∷ arg ∷ args) db)
      × ExpireAnswers
          (λ n. now +ℤ wrap64 (n *ℤ pos 1000000))
          now
          key
          (parse_int arg)
          (visible now db key)
          db
          (exec_p_expire now (key ∷ arg ∷ args) db)
      × ExpireAnswers
          (λ n. wrap64 (n *ℤ pos 1000000))
          now
          key
          (parse_int arg)
          (visible now db key)
          db
          (exec_p_expire_at now (key ∷ arg ∷ args) db)
unfolding exec_expire exec_expire_at unix_time unix_to_internal exec_p_expire exec_p_expire_at
expire_commands-ExpireAnswers now key arg args db = (
  expire_by-ExpireAnswers (λ n. now +ℤ wrap64 (n *ℤ pos 1000000000)) now key arg args db,
  expire_by-ExpireAnswers
      (λ n. (wrap64 (n +ℤ pos 62135596800) -ℤ pos 62135596800) *ℤ pos 1000000000) now key arg args
      db,
  expire_by-ExpireAnswers (λ n. now +ℤ wrap64 (n *ℤ pos 1000000)) now key arg args db,
  expire_by-ExpireAnswers (λ n. wrap64 (n *ℤ pos 1000000)) now key arg args db,
)

-- The expiry time that the new key has: that of the old one, and without one that of the value which
-- was replaced.
abbrev pub moved_ttl : Option ℤ → Option ℤ → Option ℤ
moved_ttl (some t) old = some t
moved_ttl none old = old

move-visible :
    (t : ℤ) (src dest j : Bytes) (db : Db) (d : Data) (o : Option ℤ)
    → bytes_eq src dest ≡ false
    → visible t (move_ttl src dest o (remove src (put_entity dest d db).1)) j
      ≡ updated dest
          (shown t (moved_ttl o (get db.ttl_map dest)) (some d))
          (updated src none (visible t db j) j)
          j
unfolding visible move_ttl remove put_entity put expire persist
move-visible t src dest j db d none ne = elim (Bool-cases (bytes_eq dest j)) [
  | inl new ↦
      let old : bytes_eq src j ≡ false = rw (← (bytes_eq_iff dest j).0 new) ne in
      rw
        (
          new,
          get-delete_other (insert db.data_map dest d) src j old,
          get-insert_same db.data_map dest j d new,
          get-delete_other db.ttl_map src j old,
          (bytes_eq_iff dest j).0 new,
        )
        refl
  | inr not_new ↦ elim (Bool-cases (bytes_eq src j)) [
    | inl old ↦
        rw
          (
            not_new,
            old,
            get-delete_same (insert db.data_map dest d) src j old,
            get-delete_same db.ttl_map src j old,
            after,
          )
          refl
    | inr not_old ↦
        rw
          (
            not_new,
            not_old,
            get-delete_other (insert db.data_map dest d) src j not_old,
            get-insert_other db.data_map dest j d not_new,
            get-delete_other db.ttl_map src j not_old,
          )
          refl
  ]
]
move-visible t src dest j db d (some e) ne = elim (Bool-cases (bytes_eq dest j)) [
  | inl new ↦
      let old : bytes_eq src j ≡ false = rw (← (bytes_eq_iff dest j).0 new) ne in
      rw
        (
          new,
          get-delete_other (insert db.data_map dest d) src j old,
          get-insert_same db.data_map dest j d new,
          get-insert_same (delete (delete (delete db.ttl_map src) src) dest) dest j e new,
        )
        refl
  | inr not_new ↦
      rw
        (
          not_new,
          get-insert_other (delete (delete (delete db.ttl_map src) src) dest) dest j e not_new,
          get-delete_other (delete (delete db.ttl_map src) src) dest j not_new,
        )
        (elim (Bool-cases (bytes_eq src j)) [
          | inl old ↦
              rw
                (
                  old,
                  get-delete_same (insert db.data_map dest d) src j old,
                  get-delete_same (delete db.ttl_map src) src j old,
                  after,
                )
                refl
          | inr not_old ↦
              rw
                (
                  not_old,
                  get-delete_other (insert db.data_map dest d) src j not_old,
                  get-insert_other db.data_map dest j d not_new,
                  get-delete_other (delete db.ttl_map src) src j not_old,
                  get-delete_other db.ttl_map src j not_old,
                )
                refl
        ])
]

abbrev pub RenameAnswers : ℤ → Bytes → Bytes → Option Data → Db → Result → Type 0
RenameAnswers now src dest none db = Answers no_such_key now (λ t. visible t db)
RenameAnswers now src dest (some d) db = Answers ok now (λ t j.
    updated dest (shown t (moved_ttl (get db.ttl_map src) (get db.ttl_map dest)) (some d))
      (updated src none (visible t db j) j) j)

-- RENAME of a key to another one replies an error and changes nothing for any reader when nothing is
-- visible under the key. Otherwise nothing is visible under it afterwards, the new key shows its value
-- until the old key's expiry time, if that has one, and else until the expiry time that the new key had
-- before; no other key changes.
pub exec_rename-RenameAnswers :
    (now : ℤ) (src dest : Bytes) (db : Db)
    → bytes_eq src dest ≡ false
    → RenameAnswers now src dest (visible now db src) db (exec_rename now (src ∷ dest ∷ []) db)
unfolding exec_rename
exec_rename-RenameAnswers now src dest db ne = elim (get_entity-cases now src db) [
  | inl (db1, g, v, same) ↦ rw (g, v) (refl, same)
  | inr (d, g, v, held, live) ↦
      rw (g, v)
        (
          refl,
          λ later j le.
              unfold add_aof visible in move-visible later src dest j db d (get db.ttl_map src) ne,
        )
]
