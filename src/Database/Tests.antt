-- ===== src/Database/Tests.antt =====
-- Runs of the database and of the string commands on small databases.
use godis.Base.{ℕ, ◌≡◌, refl, Bool, true, inl, inr, some, [], ◌∷◌, Bytes, codes, bytes_eq, arith}
use godis.Base.Int.{pos, negsuc, ◌+ℤ◌, ◌-ℤ◌, ◌*ℤ◌}
use godis.Utils.{convert_range}
use godis.Database.Writes.{updated}
use godis.Strconv.{parse_int, wrap64}
use godis.Protocol.{bulk, syntax_err}
use godis.Dict.{get}
use godis.Database.{Db, text, get_entity, run_task, get_version, add_version, after}
use godis.Database.Expiry.{visible, get_entity-visible, run_task-visible}
use godis.Database.Versions.{get_version-add_version}
use godis.Database.String.{exec_get, exec_get_set, exec_p_set_ex, as_string}
use godis.Database.String.Laws.{Answers, get_reply, exec_get-Answers, exec_get_set-Answers}
use godis.Database.String.Options.{insert, exec_set, set_invalid}
use godis.Database.String.Options.Reading.{reading, set_options}
use godis.Database.String.Options.Laws.{
  SetAnswers, TtlAnswers, exec_set-SetAnswers, exec_p_set_ex-TtlAnswers,
}
use godis.Database.String.Number.{exec_incr, exec_decr, exec_incr_by, exec_decr_by}
use godis.Database.String.Number.Laws.{
  SetsNumber, exec_incr-SetsNumber, exec_incr_by-SetsNumber, exec_decr_by-SetsNumber,
}
use godis.Database.String.Part.{exec_append, exec_get_range, exec_set_range}
use godis.Database.String.Part.Laws.{
  SetsText, overwrite, exec_append-SetsText, exec_get_range-Answers, exec_set_range-SetsText,
}

abbrev hits : Bytes
hits = codes "hits"

abbrev gone : Bytes
gone = codes "gone"

-- One key with a number, and one that expired at the time 3.
abbrev two_keys : Db
two_keys = record {
  data_map = (hits, text (some (codes "41"))) ∷ (gone, text (some (codes "x"))) ∷ [];
  ttl_map = (gone, pos 3) ∷ [];
  version_map = (hits, 7) ∷ [];
  aof = [];
}

get_entity-visible_example :
    ((get_entity (pos 5) gone two_keys).0 ≡ visible (pos 5) two_keys gone)
    × (visible (pos 9) (get_entity (pos 5) gone two_keys).1 hits ≡ visible (pos 9) two_keys hits)
get_entity-visible_example = get_entity-visible (pos 5) (pos 9) gone hits two_keys (omega arith)

run_task-visible_example :
    visible (pos 9) (run_task (pos 5) gone two_keys) gone ≡ visible (pos 9) two_keys gone
run_task-visible_example = run_task-visible (pos 5) (pos 9) gone gone two_keys (omega arith)

hits_version : get_version hits two_keys ≡ 7
unfolding get_version get bytes_eq
hits_version = refl

get_version-add_version_example :
    get_version hits (add_version (hits ∷ gone ∷ hits ∷ []) two_keys) ≡ 9
unfolding get_version get bytes_eq
get_version-add_version_example =
    get_version-add_version hits (hits ∷ gone ∷ hits ∷ []) two_keys (omega (arith, hits_version))

exec_get-Answers_example :
    Answers
      (bulk (some (codes "41")))
      (pos 5)
      (λ t. visible t two_keys)
      (exec_get (pos 5) (hits ∷ []) two_keys)
unfolding visible get bytes_eq after get_reply as_string
exec_get-Answers_example = exec_get-Answers (pos 5) hits [] two_keys

exec_get_set-Answers_example :
    Answers
      (bulk (some (codes "41")))
      (pos 5)
      (λ t j. updated hits (some (text (some (codes "v")))) (visible t two_keys j) j)
      (exec_get_set (pos 5) (hits ∷ codes "v" ∷ []) two_keys)
unfolding visible get bytes_eq after get_reply as_string
exec_get_set-Answers_example = exec_get_set-Answers (pos 5) hits (codes "v") [] two_keys

-- SET hits v PX 5 at the time 5.
exec_set-SetAnswers_example :
    SetAnswers
      (pos 5)
      hits
      (codes "v")
      two_keys
      (reading [] (set_options (codes "px" ∷ codes "5" ∷ [])))
      (exec_set (pos 5) (hits ∷ codes "v" ∷ codes "px" ∷ codes "5" ∷ []) two_keys)
exec_set-SetAnswers_example =
    exec_set-SetAnswers (pos 5) hits (codes "v") (codes "px" ∷ codes "5" ∷ []) two_keys

-- What the options of SET stand for
ex_nx_read :
    reading [] (set_options (codes "eX" ∷ codes "3" ∷ codes "nx" ∷ [])) ≡ inr (insert, pos 3000)
unfolding parse_int wrap64 ◌*ℤ◌
ex_nx_read = refl

nx_xx_read : reading [] (set_options (codes "NX" ∷ codes "XX" ∷ [])) ≡ inl syntax_err
nx_xx_read = refl

px_read : reading [] (set_options (codes "PX" ∷ codes "0" ∷ [])) ≡ inl set_invalid
unfolding parse_int set_invalid
px_read = refl

exec_p_set_ex-TtlAnswers_example :
    TtlAnswers
      (pos 5)
      hits
      (codes "v")
      two_keys
      (some (pos 10))
      (exec_p_set_ex (pos 5) (hits ∷ codes "10" ∷ codes "v" ∷ []) two_keys)
unfolding parse_int
exec_p_set_ex-TtlAnswers_example =
    exec_p_set_ex-TtlAnswers (pos 5) hits (codes "10") (codes "v") [] two_keys

hits-visible : visible (pos 5) two_keys hits ≡ some (text (some (codes "41")))
unfolding visible get bytes_eq after
hits-visible = refl

number_41 : parse_int (codes "41") ≡ some (pos 41)
unfolding parse_int
number_41 = refl

number_2 : parse_int (codes "2") ≡ some (pos 2)
unfolding parse_int
number_2 = refl

negative_1 : parse_int (codes "-1") ≡ some (negsuc 0)
unfolding parse_int
negative_1 = refl

exec_incr-SetsNumber_example :
    SetsNumber (pos 5) hits two_keys (pos 42) (exec_incr (pos 5) (hits ∷ []) two_keys)
    × SetsNumber (pos 5) hits two_keys (pos 40) (exec_decr (pos 5) (hits ∷ []) two_keys)
unfolding wrap64 ◌+ℤ◌ ◌-ℤ◌
exec_incr-SetsNumber_example =
    exec_incr-SetsNumber (pos 5) hits (codes "41") [] (pos 41) two_keys hits-visible number_41

exec_incr_by-SetsNumber_example :
    SetsNumber
      (pos 5)
      hits
      two_keys
      (pos 40)
      (exec_incr_by (pos 5) (hits ∷ codes "-1" ∷ []) two_keys)
unfolding wrap64 ◌+ℤ◌
exec_incr_by-SetsNumber_example =
    exec_incr_by-SetsNumber (pos 5) hits (codes "41") (codes "-1") [] (pos 41) (negsuc 0) two_keys
      hits-visible number_41 negative_1

exec_decr_by-SetsNumber_example :
    SetsNumber
      (pos 5)
      hits
      two_keys
      (pos 39)
      (exec_decr_by (pos 5) (hits ∷ codes "2" ∷ []) two_keys)
unfolding wrap64 ◌-ℤ◌
exec_decr_by-SetsNumber_example =
    exec_decr_by-SetsNumber (pos 5) hits (codes "41") (codes "2") [] (pos 41) (pos 2) two_keys
      hits-visible number_41 number_2

exec_append-SetsText_example :
    SetsText
      (pos 5)
      hits
      two_keys
      (codes "41!")
      (exec_append (pos 5) (hits ∷ codes "!" ∷ []) two_keys)
exec_append-SetsText_example =
    exec_append-SetsText (pos 5) hits (codes "41") (codes "!") [] two_keys hits-visible

exec_get_range-Answers_example :
    Answers
      (bulk (some (codes "1")))
      (pos 5)
      (λ t. visible t two_keys)
      (exec_get_range (pos 5) (hits ∷ codes "-1" ∷ codes "2" ∷ []) two_keys)
unfolding convert_range
exec_get_range-Answers_example =
    exec_get_range-Answers (pos 5) hits (codes "41") (codes "-1") (codes "2") [] (negsuc 0) (pos 2)
      two_keys hits-visible negative_1 number_2

-- A runtime that grants every size.
abbrev grants_all : ℕ → Bool
grants_all n = true

abbrev no_text : Bytes → Bytes
no_text s = []

exec_set_range-SetsText_example :
    SetsText
      (pos 5)
      hits
      two_keys
      (overwrite 2 (codes "xyz") (codes "41"))
      (exec_set_range grants_all no_text (pos 5) (hits ∷ codes "2" ∷ codes "xyz" ∷ []) two_keys)
exec_set_range-SetsText_example =
    exec_set_range-SetsText grants_all no_text (pos 5) hits (codes "41") (codes "2") (codes "xyz")
      [] 2 two_keys hits-visible number_2 (λ n le. refl)
