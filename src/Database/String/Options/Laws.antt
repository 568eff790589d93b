-- ===== src/Database/String/Options/Laws.antt =====
-- database/string.go: `execSet` by the options that it was given, and `execPSetEX`.
use godis.Base.{
  ◌≡◌, refl, subst, inl, inr, ◌⊎◌, Bool, true, false, Option, none, some, List, [], ◌∷◌, Bytes,
  codes, if◌then◌else◌, Option-cases, Bool-cases,
}
use godis.Base.Int.{ℤ, pos, ◌+ℤ◌, ◌*ℤ◌}
use godis.Strconv.{parse_int, wrap64}
use godis.Protocol.{Reply, null_bulk, ok, syntax_err}
use godis.Utils.{to_cmd_line3}
use godis.Dict.{get, put}
use godis.Dict.Laws.{put_if_absent_new, put_if_absent_old, put_if_exists_new, put_if_exists_old}
use godis.Database.{
  Data, text, CmdLine, Db, Result, add_aof, persist, expire, put_entity, put_entity_if_absent,
  put_entity_if_exists,
}
use godis.Database.Expiry.{visible, shown}
use godis.Database.Writes.{updated, add_aof-visible, persist-store-visible, expire-store-visible}
use godis.Database.String.{
  deadline, expire_cmd, store, exec_p_set_ex, set_with_ttl, is_positive, invalid_setex,
}
use godis.Database.String.Laws.{Answers}
use godis.Database.String.Options.Reading.{reading, set_options}
use godis.Database.String.Options.Loop.{outcome, options-reading}
use godis.Database.String.Options.{
  Policy, upsert, insert, update, options, set_step, exec_set, set_with, set_result, set_ttl,
  put_with, is_limited,
}

-- Whether the policy lets the value be set, by the entity that the map has under the key.
abbrev pub allowed : Policy → Option Data → Bool
allowed upsert d = true
allowed insert none = true
allowed insert (some d) = false
allowed update none = false
allowed update (some d) = true

-- The new value, for as many milliseconds as it is to live.
abbrev pub timed : ℤ → ℤ → Bytes → ℤ → Option Data
timed now ttl value t =
    if is_limited ttl
    then shown t (some (now +ℤ wrap64 (ttl *ℤ pos 1000000))) (some (text (some value)))
    else some (text (some value))

-- What SET does, by the reading of its options.
abbrev pub SetAnswers : ℤ → Bytes → Bytes → Db → Reply ⊎ (Policy × ℤ) → Result → Type 0
SetAnswers now key value db (inl r) result = Answers r now (λ t. visible t db) result
SetAnswers now key value db (inr (policy, ttl)) result =
    if allowed policy (get db.data_map key)
    then Answers ok now (λ t j. updated key (timed now ttl value t) (visible t db j) j) result
    else Answers null_bulk now (λ t. visible t db) result

set_ttl-visible :
    (now : ℤ) (key value : Bytes) (args : List Bytes) (ttl t : ℤ) (db : Db) (j : Bytes)
    → visible t (set_ttl now key value args ttl (store key (some value) db)) j
      ≡ updated key (timed now ttl value t) (visible t db j) j
unfolding set_ttl deadline
set_ttl-visible now key value args ttl t db j = elim (Bool-cases (is_limited ttl)) [
  | inl limited ↦ rw limited (
      rw
        (
          add_aof-visible t (expire_cmd key (deadline now ttl))
              (add_aof (codes "SET" ∷ key ∷ value ∷ [])
                (expire key (deadline now ttl) (store key (some value) db)))
              j,
          add_aof-visible t (codes "SET" ∷ key ∷ value ∷ [])
              (expire key (deadline now ttl) (store key (some value) db)) j,
        )
        (expire-store-visible t (deadline now ttl) key j (some value) db))
  | inr unlimited ↦ rw unlimited (
      rw
        (add_aof-visible t (to_cmd_line3 (codes "set") (key ∷ value ∷ args))
          (persist key (store key (some value) db)) j)
        (persist-store-visible t key j (some value) db))
]

put_with-store :
    (policy : Policy) (key value : Bytes) (db : Db)
    → put_with policy key value db
      ≡ (if allowed policy (get db.data_map key) then (1, store key (some value) db) else (0, db))
unfolding put_with put_entity put_entity_if_absent put_entity_if_exists put store
put_with-store upsert key value db = refl
put_with-store insert key value db = elim (Option-cases (get db.data_map key)) [
  | inl e ↦ rw (put_if_absent_new db.data_map key (text (some value)) e, e) refl
  | inr (d, e) ↦ rw (put_if_absent_old db.data_map key (text (some value)) d e, e) refl
]
put_with-store update key value db = elim (Option-cases (get db.data_map key)) [
  | inl e ↦ rw (put_if_exists_new db.data_map key (text (some value)) e, e) refl
  | inr (d, e) ↦ rw (put_if_exists_old db.data_map key (text (some value)) d e, e) refl
]

-- The arguments of SET behind the key and the value write down options: NX, XX, and EX or PX with the number
-- behind it, in letters of any case. The first one that is wrong decides the reply, and nothing changes:
-- a syntax error for any other word, for NX beside XX, for EX or PX without a number and for one beside a
-- time to live that is not 0, and the error of SET for a number that is not positive. If none is wrong,
-- the value is set always, or with NX only if the map lacks the key, or with XX only if it has it. When it is
-- set the reply is OK, and the key shows the value, for good or up to the deadline, which is that many
-- milliseconds from now for PX and 1000 times as many for EX, both products being int64s; the other keys
-- are as before.
-- When it is not set, the reply is null and nothing changes. This is so for every reader from the time
-- of the command on.
pub exec_set-SetAnswers :
    (now : ℤ) (key value : Bytes) (args : List Bytes) (db : Db)
    → SetAnswers now key value db
        (reading [] (set_options args))
        (exec_set now (key ∷ value ∷ args) db)
unfolding exec_set set_with set_result
exec_set-SetAnswers now key value args db =
    subst (λ o. SetAnswers now key value db o (exec_set now (key ∷ value ∷ args) db))
      (options-reading args) (go (options set_step args (upsert, pos 0)))
  where
    go :
        (o : (Reply × (Policy × ℤ)) ⊎ (Policy × ℤ))
        → SetAnswers now key value db (outcome o) (set_with now key value args db o)
    go (inl (r, s)) = (refl, λ t j le. refl)
    go (inr (policy, ttl)) = elim (Bool-cases (allowed policy (get db.data_map key))) [
      | inl may ↦
          rw (put_with-store policy key value db, may)
            (refl, λ t j le. set_ttl-visible now key value args ttl t db j)
      | inr not_allowed ↦
          rw (put_with-store policy key value db, not_allowed) (refl, λ t j le. refl)
    ]

-- What PSETEX does with the number that its second argument is read as.
abbrev pub TtlAnswers : ℤ → Bytes → Bytes → Db → Option ℤ → Result → Type 0
TtlAnswers now key value db none result = Answers syntax_err now (λ t. visible t db) result
TtlAnswers now key value db (some ttl) result =
    if is_positive ttl
    then Answers ok now
        (λ t j.
          updated key (shown t (some (deadline now ttl)) (some (text (some value))))
            (visible t db j) j)
        result
    else Answers invalid_setex now (λ t. visible t db) result

set_with_ttl-visible :
    (now : ℤ) (key value : Bytes) (ttl t : ℤ) (line : CmdLine) (db : Db) (j : Bytes)
    → visible t (set_with_ttl now key value ttl line db) j
      ≡ updated key
          (shown t (some (deadline now ttl)) (some (text (some value))))
          (visible t db j)
          j
unfolding set_with_ttl
set_with_ttl-visible now key value ttl t line db j =
    let written : Db = expire key (deadline now ttl) (store key (some value) db) in
    rw
      (
        add_aof-visible t (expire_cmd key (deadline now ttl)) (add_aof line written) j,
        add_aof-visible t line written j,
      )
      (expire-store-visible t (deadline now ttl) key j (some value) db)

-- PSETEX rejects a ttl that is no number or not positive and changes nothing. Otherwise it replies OK,
-- the key shows the value up to the deadline and nothing after it, and the other keys are as before.
pub exec_p_set_ex-TtlAnswers :
    (now : ℤ) (key milliseconds value : Bytes) (args : List Bytes) (db : Db)
    → TtlAnswers now key value db
        (parse_int milliseconds)
        (exec_p_set_ex now (key ∷ milliseconds ∷ value ∷ args) db)
unfolding exec_p_set_ex
exec_p_set_ex-TtlAnswers now key milliseconds value args db =
    elim (Option-cases (parse_int milliseconds)) [
      | inl e ↦ rw (e, exec_p_set_ex) (refl, λ t j le. refl)
      | inr (ttl, e) ↦
          rw (e, exec_p_set_ex)
            (elim (Bool-cases (is_positive ttl)) [
              | inl valid ↦
                  rw valid (refl, λ t j le. set_with_ttl-visible now key value ttl t _ db j)
              | inr invalid ↦ rw invalid (refl, λ t j le. refl)
            ])
    ]
