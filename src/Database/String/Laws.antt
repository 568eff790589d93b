-- ===== src/Database/String/Laws.antt =====
-- database/string.go: what the commands reply, and what every reader sees afterwards.
use godis.Base.{◌≡◌, refl, ap, Option, some, List, ◌∷◌, Bytes, codes, arith}
use godis.Base.Int.{ℤ, ◌≤ℤ◌}
use godis.Base.Outcome.{returns, Ends}
use godis.Protocol.{Reply, wrong_type_err}
use godis.Database.{Data, text, Db, Result, add_aof, persist}
use godis.Utils.{to_cmd_line3}
use godis.Database.Expiry.{visible, get_entity-visible, get_entity_live}
use godis.Database.Writes.{updated, visible-some, add_aof-visible, persist-store-visible}
use godis.Database.String.{
  Fetched, wrong_type, bytes, as_string, get_as_string, with_string, bulk_or_null, exec_get,
  exec_get_set, store,
}

-- A database in which every reader, from `now` on, sees what `view` says.
abbrev pub Shows : ℤ → (ℤ → Bytes → Option Data) → Db → Type 0
Shows now view db = (later : ℤ) (j : Bytes) → now ≤ℤ later → visible later db j ≡ view later j

-- The command returns the reply, and leaves such a database.
abbrev pub Answers : Reply → ℤ → (ℤ → Bytes → Option Data) → Result → Type 0
Answers r now view result = Ends (λ p. (p.0 ≡ r) × Shows now view p.1) result

pub get_as_string-visible :
    (now : ℤ) (key : Bytes) (db : Db)
    → ((get_as_string now key db).0 ≡ as_string (visible now db key))
      × Shows now (λ t. visible t db) (get_as_string now key db).1
unfolding get_as_string
get_as_string-visible now key db = (
  ap as_string (get_entity-visible now now key key db (omega arith)).0,
  λ later j le. (get_entity-visible now later key j db le).1,
)

-- A command behind `getAsString` can be read as if the value were looked at and nothing removed.
pub with_string-Ends :
    (P : Reply × Db → Type 0) (now : ℤ) (key : Bytes) (db : Db) (f : Option Bytes → Db → Result)
    → ((db1 : Db)
        → Shows now (λ t. visible t db) db1
        → Ends P (with_string (as_string (visible now db key), db1) f))
    → Ends P (with_string (get_as_string now key db) f)
with_string-Ends P now key db f h =
    let (seen, same) = get_as_string-visible now key db in
    go (get_as_string now key db) seen (h (get_as_string now key db).1 same)
  where
    go :
        (p : Fetched × Db)
        → p.0 ≡ as_string (visible now db key)
        → Ends P (with_string (as_string (visible now db key), p.1) f)
        → Ends P (with_string p f)
    go (x, db1) e h' = rw (e, with_string, Ends) h'

unfoldable pub get_reply : Fetched → Reply
get_reply wrong_type = wrong_type_err
get_reply (bytes b) = bulk_or_null b

-- GET replies what is visible under the key at its time, null for no value and the error for a value
-- of another type, and no reader sees a difference afterwards.
pub exec_get-Answers :
    (now : ℤ) (key : Bytes) (args : List Bytes) (db : Db)
    → Answers
        (get_reply (as_string (visible now db key)))
        now
        (λ t. visible t db)
        (exec_get now (key ∷ args) db)
unfolding exec_get get_reply
exec_get-Answers now key args db =
    with_string-Ends _ now key db _ λ db1 same. go (as_string (visible now db key)) db1 same
  where
    go :
        (x : Fetched) (db1 : Db)
        → Shows now (λ t. visible t db) db1
        → Answers
            (get_reply x)
            now
            (λ t. visible t db)
            (with_string (x, db1) λ b db. returns (bulk_or_null b, db))
    go wrong_type db1 same = (refl, same)
    go (bytes b) db1 same = (refl, same)

-- GETSET replies the old value as GET does. On a value of another type nothing changes; otherwise the
-- key has the new value without an expiry time, and the other keys are as before.
pub exec_get_set-Answers :
    (now : ℤ) (key value : Bytes) (args : List Bytes) (db : Db)
    → Answers
        (get_reply (as_string (visible now db key)))
        now
        (λ t j. elim (as_string (visible now db key)) [
          | wrong_type ↦ visible t db j
          | bytes b ↦ updated key (some (text (some value))) (visible t db j) j
        ])
        (exec_get_set now (key ∷ value ∷ args) db)
unfolding exec_get_set get_reply
exec_get_set-Answers now key value args db =
    with_string-Ends _ now key db _ λ db1 same. go (as_string (visible now db key)) db1 same
  where
    line : List Bytes
    line = to_cmd_line3 (codes "set") (key ∷ value ∷ args)

    go :
        (x : Fetched) (db1 : Db)
        → Shows now (λ t. visible t db) db1
        → Answers
            (get_reply x)
            now
            (λ t j. elim x [
              | wrong_type ↦ visible t db j
              | bytes b ↦ updated key (some (text (some value))) (visible t db j) j
            ])
            (with_string
              (x, db1)
              λ old db.
                returns (bulk_or_null old, add_aof line (persist key (store key (some value) db))))
    go wrong_type db1 same = (refl, same)
    go (bytes b) db1 same = (
      refl,
      λ t j le.
          rw
            (
              add_aof-visible t line (persist key (store key (some value) db1)) j,
              persist-store-visible t key j (some value) db1,
              same t j le,
            )
            refl,
    )

-- On a string that is visible, `getAsString` returns it and removes nothing.
pub get_as_string-text :
    (now : ℤ) (key : Bytes) (db : Db) (b : Option Bytes)
    → visible now db key ≡ some (text b)
    → get_as_string now key db ≡ (bytes b, db)
unfolding get_as_string
get_as_string-text now key db b h =
    let (live, held) = visible-some now key db (text b) h in
    rw (get_entity_live now key db live, held) refl
