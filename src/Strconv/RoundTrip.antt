-- ===== src/Strconv/RoundTrip.antt =====
-- What `FormatInt` and `Itoa` print, `ParseInt` reads back.
use godis.Base.{
  ℕ, zero, suc, ◌+◌, ◌-◌, ◌/◌, ◌%◌, ◌^◌, ◌≤◌, ◌<◌, ◌≡◌, sym, ap, ◌∙◌, true, false, ◌||◌, some, [],
  ◌∷◌, Bytes, ltb, arith, Bool-cases, inl, inr,
}
use godis.Base.Int.{ℤ, pos, negsuc}
use godis.Strconv.{
  int64_limit, digits, itoa, format_int, scan, parse_uint, in_range, parse_int, wrap64, of_word,
}

-- The value of an int64.
abbrev pub IsInt64 : ℤ → Type 0
IsInt64 (pos n) = n < int64_limit
IsInt64 (negsuc n) = n < int64_limit

scan_digit : (n : ℕ) (out : Bytes) → scan ((b'0' + n % 10) ∷ out) (n / 10) ≡ scan out n
unfolding scan
scan_digit n out =
    let in_bounds : (ltb (b'0' + n % 10) b'0' || ltb b'9' (b'0' + n % 10)) ≡ false = ground arith in
    rw in_bounds (ap (scan out) (omega arith))

scan-digits : (fuel n : ℕ) (out : Bytes) → n < fuel → scan (digits fuel n out) 0 ≡ scan out n
unfolding digits
scan-digits zero n out h = absurd (omega arith)
scan-digits (suc fuel) n out h = elim (Bool-cases (ltb n 10)) [
  | inl last ↦ rw last (unfold scan in ground arith)
  | inr more ↦
      rw more (scan-digits fuel (n / 10) ((b'0' + n % 10) ∷ out) (ground arith) ∙ scan_digit n out)
]

-- A printed number begins with a digit.
digits_head :
    (fuel n : ℕ) (out : Bytes)
    → n < fuel
    → record { c : ℕ; s : Bytes; eq : digits fuel n out ≡ c ∷ s; low : b'0' ≤ c; high : c ≤ b'9' }
unfolding digits
digits_head zero n out h = absurd (omega arith)
digits_head (suc fuel) n out h = elim (Bool-cases (ltb n 10)) [
  | inl last ↦ record {
    c = b'0' + n;
    s = out;
    eq = rw last;
    low = omega arith;
    high = ground arith;
  }
  | inr more ↦
      let r = digits_head fuel (n / 10) ((b'0' + n % 10) ∷ out) (ground arith) in
      record { c = r.c; s = r.s; eq = rw more r.eq; low = r.low; high = r.high }
]

pub itoa_head :
    (n : ℕ) → record { c : ℕ; s : Bytes; eq : itoa n ≡ c ∷ s; low : b'0' ≤ c; high : c ≤ b'9' }
unfolding itoa
itoa_head n = digits_head (suc n) n [] (omega arith)

parse_uint-itoa : (n : ℕ) → parse_uint (itoa n) ≡ some n
unfolding parse_uint
parse_uint-itoa n =
    let r = itoa_head n in
    rw r.eq
      (ap (λ t. scan t 0) (sym r.eq) ∙ unfold itoa scan in scan-digits (suc n) n [] (omega arith))

parse_int_unsigned :
    (c : ℕ) (s : Bytes) → b'0' ≤ c → parse_int (c ∷ s) ≡ in_range (parse_uint (c ∷ s))
unfolding parse_int
parse_int_unsigned c s h = ground arith

-- A length is printed and read back.
pub parse_int-itoa : (n : ℕ) → n < int64_limit → parse_int (itoa n) ≡ some (pos n)
parse_int-itoa n h =
    let r = itoa_head n in
    rw r.eq (
      parse_int_unsigned r.c r.s r.low
      ∙ rw (← r.eq) (rw (parse_uint-itoa n) (unfold in_range in ground arith)))

-- Every int64 is printed and read back.
pub parse_int-format_int : (z : ℤ) → IsInt64 z → parse_int (format_int z) ≡ some z
unfolding format_int
parse_int-format_int (pos n) h = parse_int-itoa n h
parse_int-format_int (negsuc n) h = unfold parse_int in rw (parse_uint-itoa (suc n)) (ground arith)

of_word-IsInt64 : (w : ℕ) → w < 2 ^ 64 → IsInt64 (of_word w)
unfolding of_word
of_word-IsInt64 w h = elim (Bool-cases (ltb w int64_limit)) [
  | inl low ↦ rw low (ground arith)
  | inr high ↦ rw high (ground arith)
]

-- The result of int64 arithmetic is an int64.
pub wrap64-IsInt64 : (z : ℤ) → IsInt64 (wrap64 z)
unfolding wrap64
wrap64-IsInt64 (pos n) = of_word-IsInt64 _ (omega arith)
wrap64-IsInt64 (negsuc n) = of_word-IsInt64 _ (omega arith)

-- Where nothing overflows it is the exact result.
pub wrap64_exact : (z : ℤ) → IsInt64 z → wrap64 z ≡ z
unfolding wrap64 of_word
wrap64_exact (pos n) h =
    let low : ltb (n % 2 ^ 64) int64_limit ≡ true = ground arith in rw low (ap pos (omega arith))
wrap64_exact (negsuc n) h =
    let high : ltb (2 ^ 64 - 1 - n % 2 ^ 64) int64_limit ≡ false = ground arith in
    rw high (ap negsuc (omega arith))

-- A printed number has digits and a sign only.
abbrev pub IsPrinted : Bytes → Type 0
IsPrinted [] = Unit
IsPrinted (c ∷ s) = (b'-' ≤ c) × IsPrinted s

digits-IsPrinted : (fuel n : ℕ) (out : Bytes) → IsPrinted out → IsPrinted (digits fuel n out)
unfolding digits
digits-IsPrinted zero n out h = h
digits-IsPrinted (suc fuel) n out h = elim (Bool-cases (ltb n 10)) [
  | inl last ↦ rw last (omega arith, h)
  | inr more ↦ rw more (digits-IsPrinted fuel (n / 10) ((b'0' + n % 10) ∷ out) (omega arith, h))
]

pub itoa-IsPrinted : (n : ℕ) → IsPrinted (itoa n)
unfolding itoa
itoa-IsPrinted n = digits-IsPrinted (suc n) n [] tt

pub format_int-IsPrinted : (z : ℤ) → IsPrinted (format_int z)
unfolding format_int
format_int-IsPrinted (pos n) = itoa-IsPrinted n
format_int-IsPrinted (negsuc n) = (omega arith, itoa-IsPrinted (suc n))
