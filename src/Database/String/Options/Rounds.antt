-- ===== src/Database/String/Options/Rounds.antt =====
-- database/string.go: one round of the loop over the options of SET, by the meaning of its option.
use godis.Base.{
  zero, suc, ◌≤◌, ◌≡◌, refl, ◌∙◌, inl, Bool, true, false, ◌&&◌, Option, none, some, List, [], ◌∷◌,
  Bytes, codes, bytes_eq, if◌then◌else◌, arith,
}
use godis.Base.Int.{ℤ, pos, negsuc, ◌*ℤ◌}
use godis.Strconv.{parse_int, wrap64}
use godis.Protocol.{Reply, syntax_err}
use godis.Database.String.{is_positive}
use godis.Database.String.Options.{
  nx, xx, ex, px, persist_word, unknown, word, word_of, to_upper, Round, next, skip, reject,
  set_step, set_invalid, next_ttl, read_ttl, took, seconds, milliseconds, is_limited, Policy,
  insert,
}
use godis.Database.String.Options.Reading.{
  SetOption, if_absent, if_present, garbled, in_seconds, in_millis, spells, or_garbled, has_absent,
  has_present, lifetime, time_objection, objection, policy_by, policy_of, read_state,
}

-- A name of capital letters
abbrev Capitals : Bytes → Type 0
Capitals [] = Unit
Capitals (w ∷ name) = (65 ≤ w) × (w ≤ 90) × Capitals name

bytes_eq-to_upper : (s name : Bytes) → Capitals name → bytes_eq (to_upper s) name ≡ spells s name
unfolding bytes_eq to_upper
bytes_eq-to_upper [] [] h = refl
bytes_eq-to_upper [] (w ∷ name) h = refl
bytes_eq-to_upper (c ∷ s) [] h = refl
bytes_eq-to_upper (c ∷ s) (w ∷ name) (low, high, h) = ground (arith, bytes_eq-to_upper s name h)

-- The word of an argument, by the names that it spells.
pub word-spells :
    (arg : Bytes)
    → word arg ≡ (
        if spells arg (codes "NX")
        then nx
        else if spells arg (codes "XX")
        then xx
        else if spells arg (codes "EX")
        then ex
        else if spells arg (codes "PX")
        then px
        else if spells arg (codes "PERSIST")
        then persist_word
        else unknown)
unfolding word word_of
word-spells arg =
    rw
      (
        bytes_eq-to_upper arg (codes "NX")
            (omega arith, omega arith, (omega arith, omega arith, tt)),
        bytes_eq-to_upper arg (codes "XX")
            (omega arith, omega arith, (omega arith, omega arith, tt)),
        bytes_eq-to_upper arg (codes "EX")
            (omega arith, omega arith, (omega arith, omega arith, tt)),
        bytes_eq-to_upper arg (codes "PX")
            (omega arith, omega arith, (omega arith, omega arith, tt)),
        bytes_eq-to_upper arg (codes "PERSIST") (
          omega arith,
          omega arith,
          (
            omega arith,
            omega arith,
            (
              omega arith,
              omega arith,
              (
                omega arith,
                omega arith,
                (
                  omega arith,
                  omega arith,
                  (omega arith, omega arith, (omega arith, omega arith, tt)),
                ),
              ),
            ),
          ),
        ),
      )
      refl

-- What a round of the loop makes of an option, by whether something is wrong with it
abbrev pub round_of :
    (Policy × ℤ → Round (Policy × ℤ))
    → List SetOption
    → SetOption
    → Option Reply
    → Round (Policy × ℤ)
round_of go before opt none = go (read_state (opt ∷ before))
round_of go before opt (some r) = reject r (read_state before)

-- NX and XX do not stand beside each other.
unfoldable pub Apart : List SetOption → Type 0
Apart before = (has_absent before && has_present before) ≡ false

pub flag_step :
    (before : List SetOption) (v : Option Bytes)
    → Apart before
    → (set_step nx v (read_state before)
        ≡ round_of next before if_absent (objection before if_absent))
      × (set_step xx v (read_state before)
          ≡ round_of next before if_present (objection before if_present))
unfolding set_step Apart
flag_step before v apart = by_flags (has_absent before) (has_present before) (lifetime before) apart
  where
    by_flags :
        (absent present : Bool) (ttl : ℤ)
        → (absent && present) ≡ false
        → (set_step nx v (policy_by absent present, ttl)
            ≡ elim (if present then some syntax_err else none) [
              | none ↦ next (insert, ttl)
              | some r ↦ reject r (policy_by absent present, ttl)
            ])
          × (set_step xx v (policy_by absent present, ttl)
              ≡ elim (if absent then some syntax_err else none) [
                | none ↦ next (policy_by absent true, ttl)
                | some r ↦ reject r (policy_by absent present, ttl)
              ])
    by_flags true true ttl h = ground arith
    by_flags true false ttl h = (refl, refl)
    by_flags false true ttl h = (refl, refl)
    by_flags false false ttl h = (refl, refl)

-- A word that is not NX or XX is rejected where no time is behind it.
unfoldable pub timed : (ℤ → SetOption) → Option Bytes → SetOption
timed opt none = garbled
timed opt (some value) = or_garbled opt (parse_int value)

objection_to : ℤ → Option ℤ → Option Reply
objection_to ttl none = some syntax_err
objection_to ttl (some n) = time_objection ttl n

or_zero : Option ℤ → ℤ
or_zero none = pos 0
or_zero (some n) = n

-- The time is read, and then the state has it.
took-read_ttl :
    (policy : Policy) (scale : ℤ → ℤ) (ttl : ℤ) (number : Option ℤ)
    → took {S = Policy × ℤ}
        (policy, ttl)
        (λ t. (policy, t))
        (if is_limited ttl then inl syntax_err else read_ttl set_invalid scale number)
      ≡ elim (objection_to ttl number) [
        | none ↦ skip (policy, scale (or_zero number))
        | some r ↦ reject r (policy, ttl)
      ]
unfolding took read_ttl objection_to or_zero set_invalid is_positive
took-read_ttl policy scale (negsuc m) none = refl
took-read_ttl policy scale (pos (suc m)) none = refl
took-read_ttl policy scale (pos zero) none = refl
took-read_ttl policy scale (negsuc m) (some n) = refl
took-read_ttl policy scale (pos (suc m)) (some n) = refl
took-read_ttl policy scale (pos zero) (some (negsuc n)) = refl
took-read_ttl policy scale (pos zero) (some (pos zero)) = refl
took-read_ttl policy scale (pos zero) (some (pos (suc n))) = refl

pub time_step :
    (before : List SetOption) (v : Option Bytes)
    → (set_step ex v (read_state before)
        ≡ round_of skip before (timed in_seconds v) (objection before (timed in_seconds v)))
      × (set_step px v (read_state before)
          ≡ round_of skip before (timed in_millis v) (objection before (timed in_millis v)))
unfolding set_step timed next_ttl seconds milliseconds
time_step before none = unfold took in (refl, refl)
time_step before (some value) = (
  took-read_ttl (policy_of before) (λ n. wrap64 (n *ℤ pos 1000)) (lifetime before) (parse_int value)
      ∙ in_seconds_lem (parse_int value),
  took-read_ttl (policy_of before) (λ n. n) (lifetime before) (parse_int value)
      ∙ in_millis_lem (parse_int value),
)
  where
    in_seconds_lem :
        (number : Option ℤ)
        → elim (objection_to (lifetime before) number) [
          | none ↦ skip (policy_of before, wrap64 (or_zero number *ℤ pos 1000))
          | some r ↦ reject r (policy_of before, lifetime before)
        ]
          ≡ round_of skip before
              (or_garbled in_seconds number)
              (objection before (or_garbled in_seconds number))
    in_seconds_lem none = unfold objection_to in refl
    in_seconds_lem (some n) =
        unfold objection_to or_zero in
        elim (time_objection (lifetime before) n) [ none ↦ refl | some r ↦ refl ]

    in_millis_lem :
        (number : Option ℤ)
        → elim (objection_to (lifetime before) number) [
          | none ↦ skip (policy_of before, or_zero number)
          | some r ↦ reject r (policy_of before, lifetime before)
        ]
          ≡ round_of skip before
              (or_garbled in_millis number)
              (objection before (or_garbled in_millis number))
    in_millis_lem none = unfold objection_to in refl
    in_millis_lem (some n) =
        unfold objection_to or_zero in
        elim (time_objection (lifetime before) n) [ none ↦ refl | some r ↦ refl ]
