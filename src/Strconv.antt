-- ===== src/Strconv.antt =====
-- Go's package strconv in base 10, as the program uses it: `FormatInt`, `Itoa`, and `ParseInt` of 64
-- bits, whose error is `none`. An int64 is the integer that it stands for; `wrap64` is its overflow.
pub mod RoundTrip
use godis.Base.{
  ℕ, zero, suc, ◌+◌, ◌-◌, ◌*◌, ◌/◌, ◌%◌, ◌^◌, Bool, true, false, ◌||◌, Option, none, some, List, [],
  ◌∷◌, Bytes, ltb, leb, ◌==◌, if◌then◌else◌,
}
use godis.Base.Int.{ℤ, pos, negsuc, sub_ℕ}

-- 2^63
abbrev pub int64_limit : ℕ
int64_limit = 2 ^ 63

-- The digits of `n` in front of `out`. A number has no more digits than itself, or one.
digits : ℕ → ℕ → Bytes → Bytes
digits zero n out = out
digits (suc fuel) n out =
    let more = digits fuel (n / 10) ((b'0' + n % 10) ∷ out) in
    if ltb n 10 then (b'0' + n) ∷ out else more

-- `strconv.Itoa` of a length
unfoldable pub itoa : ℕ → Bytes
unfolding digits
itoa n = digits (suc n) n []

-- `strconv.FormatInt(n, 10)`
unfoldable pub format_int : ℤ → Bytes
unfolding itoa
format_int (pos n) = itoa n
format_int (negsuc n) = b'-' ∷ itoa (suc n)

scan : Bytes → ℕ → Option ℕ
scan [] n = some n
scan (c ∷ s) n =
    let rest = scan s (n * 10 + (c - b'0')) in if ltb c b'0' || ltb b'9' c then none else rest

parse_uint : Bytes → Option ℕ
unfolding scan
parse_uint [] = none
parse_uint (c ∷ s) = scan (c ∷ s) 0

-- A value below the limit, and one above it in size with the sign taken off.
in_range : Option ℕ → Option ℤ
in_range none = none
in_range (some n) = if ltb n int64_limit then some (pos n) else none

negated : Option ℕ → Option ℤ
negated none = none
negated (some zero) = some (pos 0)
negated (some (suc n)) = if ltb n int64_limit then some (negsuc n) else none

-- `strconv.ParseInt(s, 10, 64)`
unfoldable pub parse_int : Bytes → Option ℤ
unfolding parse_uint in_range negated
parse_int [] = none
parse_int (c ∷ s) =
    if c == b'+'
    then in_range (parse_uint s)
    else if c == b'-'
    then negated (parse_uint s)
    else in_range (parse_uint (c ∷ s))

-- The two's complement of 64 bits: what int64 arithmetic makes of an integer.
of_word : ℕ → ℤ
of_word w = if ltb w int64_limit then pos w else negsuc (2 ^ 64 - 1 - w)

unfoldable pub wrap64 : ℤ → ℤ
unfolding of_word
wrap64 (pos n) = of_word (n % 2 ^ 64)
wrap64 (negsuc n) = of_word (2 ^ 64 - 1 - n % 2 ^ 64)
