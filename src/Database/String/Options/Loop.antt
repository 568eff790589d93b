-- ===== src/Database/String/Options/Loop.antt =====
-- database/string.go: the loop of `execSet` over the options of SET reads what they mean.
use godis.Base.{
  ◌≡◌, refl, ◌∙◌, ap, inl, inr, ◌⊎◌, Bool, true, false, Option, none, some, List, [], ◌∷◌, Bytes,
  codes, if◌then◌else◌, Bool-cases, arith,
}
use godis.Base.Int.{ℤ, pos}
use godis.Strconv.{parse_int}
use godis.Protocol.{Reply, syntax_err}
use godis.Database.String.Options.{
  ex, px, persist_word, unknown, word, Round, next, skip, reject, options, set_step, next_ttl, took,
  Policy, upsert,
}
use godis.Database.String.Options.Reading.{
  SetOption, if_absent, if_present, garbled, in_seconds, in_millis, spells, or_garbled, set_options,
  objection, read_state, unless, reading,
}
use godis.Database.String.Options.Rounds.{word-spells, flag_step, time_step, Apart, timed, round_of}

Apart-cons :
    (before : List SetOption) (opt : SetOption)
    → Apart before
    → objection before opt ≡ none
    → Apart (opt ∷ before)
unfolding Apart
Apart-cons before if_absent apart e = ground arith
Apart-cons before if_present apart e = ground arith
Apart-cons before garbled apart e = apart
Apart-cons before (in_seconds n) apart e = apart
Apart-cons before (in_millis n) apart e = apart

-- The reply of a loop that was left, or the state at its end
abbrev pub outcome : (Reply × (Policy × ℤ)) ⊎ (Policy × ℤ) → Reply ⊎ (Policy × ℤ)
outcome (inl (r, s)) = inl r
outcome (inr s) = inr s

-- The loop reads the arguments as the options that they write down.
ReadsSo : List Bytes → Type 0
ReadsSo args =
    (before : List SetOption)
    → Apart before
    → outcome (options set_step args (read_state before)) ≡ reading before (set_options args)

-- The loop behind a round with the argument `value` and those behind it
abbrev continue : Bytes → List Bytes → Round (Policy × ℤ) → (Reply × (Policy × ℤ)) ⊎ (Policy × ℤ)
continue value args (next s) = options set_step (value ∷ args) s
continue value args (skip s) = options set_step args s
continue value args (reject r s) = inl (r, s)

abbrev stop : Round (Policy × ℤ) → (Reply × (Policy × ℤ)) ⊎ (Policy × ℤ)
stop (next s) = inr s
stop (skip s) = inr s
stop (reject r s) = inl (r, s)

options-last :
    (arg : Bytes) (s : Policy × ℤ)
    → options set_step (arg ∷ []) s ≡ stop (set_step (word arg) none s)
unfolding options
options-last arg s = elim (set_step (word arg) none s) [
  | next s ↦ refl
  | skip s ↦ refl
  | reject r s ↦ refl
]

options-cons :
    (arg value : Bytes) (args : List Bytes) (s : Policy × ℤ)
    → options set_step (arg ∷ value ∷ args) s
      ≡ continue value args (set_step (word arg) (some value) s)
unfolding options
options-cons arg value args s = elim (set_step (word arg) (some value) s) [
  | next s ↦ refl
  | skip s ↦ refl
  | reject r s ↦ refl
]

next-reading :
    (value : Bytes) (args : List Bytes) (before : List SetOption) (opt : SetOption)
    → ReadsSo (value ∷ args)
    → Apart before
    → outcome (continue value args (round_of next before opt (objection before opt)))
      ≡ reading before (opt ∷ set_options (value ∷ args))
unfolding ReadsSo
next-reading value args before opt ih apart = by_objection (objection before opt) refl
  where
    by_objection :
        (o : Option Reply)
        → objection before opt ≡ o
        → outcome (continue value args (round_of next before opt o))
          ≡ unless o (reading (opt ∷ before) (set_options (value ∷ args)))
    by_objection none e = ih (opt ∷ before) (Apart-cons before opt apart e)
    by_objection (some r) e = refl

skip-reading :
    (value : Bytes) (args : List Bytes) (before : List SetOption) (opt : SetOption)
    → ReadsSo args
    → Apart before
    → outcome (continue value args (round_of skip before opt (objection before opt)))
      ≡ reading before (opt ∷ set_options args)
unfolding ReadsSo
skip-reading value args before opt ih apart = by_objection (objection before opt) refl
  where
    by_objection :
        (o : Option Reply)
        → objection before opt ≡ o
        → outcome (continue value args (round_of skip before opt o))
          ≡ unless o (reading (opt ∷ before) (set_options args))
    by_objection none e = ih (opt ∷ before) (Apart-cons before opt apart e)
    by_objection (some r) e = refl

stop-reading :
    (before : List SetOption) (opt : SetOption)
    → outcome (stop (round_of next before opt (objection before opt))) ≡ reading before (opt ∷ [])
stop-reading before opt = by_objection (objection before opt)
  where
    by_objection :
        (o : Option Reply)
        → outcome (stop (round_of next before opt o)) ≡ unless o (inr (read_state (opt ∷ before)))
    by_objection none = refl
    by_objection (some r) = refl

-- The reading of one word, by the names that it spells
ReadsSo-last : (arg : Bytes) → ReadsSo (arg ∷ [])
unfolding ReadsSo
ReadsSo-last arg before apart =
    let state = read_state before in
    ap outcome (options-last arg state)
    ∙ rw (word-spells arg) (elim (Bool-cases (spells arg (codes "NX"))) [
      | inl is_nx ↦ simp (is_nx, (flag_step before none apart).0) (stop-reading before if_absent)
      | inr no_nx ↦ elim (Bool-cases (spells arg (codes "XX"))) [
        | inl is_xx ↦
            simp (no_nx, is_xx, (flag_step before none apart).1) (stop-reading before if_present)
        | inr no_xx ↦
            simp (no_nx, no_xx)
              (no_flag (spells arg (codes "EX")) (spells arg (codes "PX"))
                (spells arg (codes "PERSIST")))
      ]
    ])
  where
    no_flag :
        (is_ex is_px is_persist : Bool)
        → outcome (
            stop (
              set_step
                (if is_ex
                  then ex
                  else if is_px
                  then px
                  else if is_persist
                  then persist_word
                  else unknown)
                none
                (read_state before)))
          ≡ inl syntax_err
    no_flag true is_px is_persist = unfold set_step next_ttl took in refl
    no_flag false true is_persist = unfold set_step next_ttl took in refl
    no_flag false false true = unfold set_step in refl
    no_flag false false false = unfold set_step in refl

ReadsSo-cons :
    (arg value : Bytes) (args : List Bytes)
    → ReadsSo args
    → ReadsSo (value ∷ args)
    → ReadsSo (arg ∷ value ∷ args)
unfolding ReadsSo timed
ReadsSo-cons arg value args ih ih' before apart =
    let v = some value in
    ap outcome (options-cons arg value args (read_state before))
    ∙ rw (word-spells arg) (elim (Bool-cases (spells arg (codes "NX"))) [
      | inl is_nx ↦
          simp (is_nx, (flag_step before v apart).0)
            (next-reading value args before if_absent ih' apart)
      | inr no_nx ↦ elim (Bool-cases (spells arg (codes "XX"))) [
        | inl is_xx ↦
            simp (no_nx, is_xx, (flag_step before v apart).1)
              (next-reading value args before if_present ih' apart)
        | inr no_xx ↦ elim (Bool-cases (spells arg (codes "EX"))) [
          | inl is_ex ↦
              simp (no_nx, no_xx, is_ex, (time_step before v).0)
                (skip-reading value args before (or_garbled in_seconds (parse_int value)) ih apart)
          | inr no_ex ↦ elim (Bool-cases (spells arg (codes "PX"))) [
            | inl is_px ↦
                simp (no_nx, no_xx, no_ex, is_px, (time_step before v).1)
                  (skip-reading value args before (or_garbled in_millis (parse_int value)) ih apart)
            | inr no_px ↦
                simp (no_nx, no_xx, no_ex, no_px) (no_option (spells arg (codes "PERSIST")))
          ]
        ]
      ]
    ])
  where
    no_option :
        (is_persist : Bool)
        → outcome (
            continue value args (
              set_step
                (if is_persist then persist_word else unknown)
                (some value)
                (read_state before)))
          ≡ inl syntax_err
    no_option true = unfold set_step in refl
    no_option false = unfold set_step in refl

options_lem : (args : List Bytes) → ReadsSo args
options_lem [] = unfold ReadsSo options in λ before apart. refl
options_lem (arg ∷ []) = ReadsSo-last arg
options_lem (arg ∷ value ∷ args) =
    ReadsSo-cons arg value args (options_lem args) (options_lem (value ∷ args))

-- The loop over the options of SET replies to the first one that is wrong, and else it ends with the policy
-- and the time to live of all of them.
pub options-reading :
    (args : List Bytes)
    → outcome (options set_step args (upsert, pos 0)) ≡ reading [] (set_options args)
unfolding ReadsSo Apart
options-reading args = options_lem args [] refl
