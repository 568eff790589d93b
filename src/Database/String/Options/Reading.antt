-- ===== src/Database/String/Options/Reading.antt =====
-- database/string.go: what the options of SET mean.
use godis.Base.{
  zero, suc, ◌+◌, inl, inr, ◌⊎◌, Bool, true, false, ◌&&◌, ◌||◌, Option, none, some, List, [], ◌∷◌,
  Bytes, codes, ◌==◌, if◌then◌else◌,
}
use godis.Base.Int.{ℤ, pos, negsuc, ◌*ℤ◌}
use godis.Strconv.{parse_int, wrap64}
use godis.Protocol.{Reply, syntax_err, standard_err}
use godis.Database.String.Options.{Policy, upsert, insert, update}

-- Whether a word is a name of capital letters, whatever the case of its letters.
abbrev pub spells : Bytes → Bytes → Bool
spells [] [] = true
spells [] (w ∷ name) = false
spells (c ∷ s) [] = false
spells (c ∷ s) (w ∷ name) = (c == w || c == w + 32) && spells s name

-- An option of SET; `garbled` stands for a word that is none, or a time without a number.
pub data SetOption : Type 0 where
  if_absent if_present garbled : SetOption
  in_seconds in_millis : ℤ → SetOption

abbrev pub or_garbled : (ℤ → SetOption) → Option ℤ → SetOption
or_garbled opt none = garbled
or_garbled opt (some n) = opt n

-- The options that the arguments write down: EX and PX take the argument behind them.
abbrev pub set_options : List Bytes → List SetOption
set_options [] = []
set_options (arg ∷ []) =
    if spells arg (codes "NX")
    then if_absent ∷ []
    else if spells arg (codes "XX")
    then if_present ∷ []
    else garbled ∷ []
set_options (arg ∷ value ∷ args) =
    let behind = set_options args in
    let beside = set_options (value ∷ args) in
    if spells arg (codes "NX")
    then if_absent ∷ beside
    else if spells arg (codes "XX")
    then if_present ∷ beside
    else if spells arg (codes "EX")
    then or_garbled in_seconds (parse_int value) ∷ behind
    else if spells arg (codes "PX")
    then or_garbled in_millis (parse_int value) ∷ behind
    else garbled ∷ beside

abbrev pub has_absent : List SetOption → Bool
has_absent [] = false
has_absent (if_absent ∷ opts) = true
has_absent (_ ∷ opts) = has_absent opts

abbrev pub has_present : List SetOption → Bool
has_present [] = false
has_present (if_present ∷ opts) = true
has_present (_ ∷ opts) = has_present opts

-- The time to live in milliseconds, 0 for none: seconds are multiplied in an int64.
abbrev pub lifetime : List SetOption → ℤ
lifetime [] = pos 0
lifetime (in_seconds n ∷ opts) = wrap64 (n *ℤ pos 1000)
lifetime (in_millis n ∷ opts) = n
lifetime (_ ∷ opts) = lifetime opts

-- A time beside another one, and a time that is not positive
abbrev pub time_objection : ℤ → ℤ → Option Reply
time_objection (negsuc m) n = some syntax_err
time_objection (pos (suc m)) n = some syntax_err
time_objection (pos zero) (negsuc n) = some (standard_err (codes "ERR invalid expire time in set"))
time_objection (pos zero) (pos zero) = some (standard_err (codes "ERR invalid expire time in set"))
time_objection (pos zero) (pos (suc n)) = none

-- What is wrong with an option behind others
abbrev pub objection : List SetOption → SetOption → Option Reply
objection before if_absent = if has_present before then some syntax_err else none
objection before if_present = if has_absent before then some syntax_err else none
objection before garbled = some syntax_err
objection before (in_seconds n) = time_objection (lifetime before) n
objection before (in_millis n) = time_objection (lifetime before) n

abbrev pub policy_by : (absent present : Bool) → Policy
policy_by true present = insert
policy_by false true = update
policy_by false false = upsert

abbrev pub policy_of : List SetOption → Policy
policy_of before = policy_by (has_absent before) (has_present before)

abbrev pub read_state : List SetOption → Policy × ℤ
read_state before = (policy_of before, lifetime before)

abbrev pub unless : Option Reply → Reply ⊎ (Policy × ℤ) → Reply ⊎ (Policy × ℤ)
unless none rest = rest
unless (some r) rest = inl r

-- The reply to the first option that is wrong, or else the policy and the time to live of all of them.
abbrev pub reading : (before opts : List SetOption) → Reply ⊎ (Policy × ℤ)
reading before [] = inr (read_state before)
reading before (opt ∷ opts) = unless (objection before opt) (reading (opt ∷ before) opts)
