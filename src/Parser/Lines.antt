-- ===== src/Parser/Lines.antt =====
-- redis/parser/parser.go: a line that ends in CRLF is read whole and trimmed.
use godis.Base.{
  ℕ, ◌-◌, ◌≡◌, ◌≢◌, refl, ap, ◌∙◌, Bool, true, false, some, [], ◌∷◌, ◌++◌, Bytes, arith, leb, ◌==◌,
  length, length-append, take, drop, get_elem?, bytes_eq_refl, append_assoc,
}
use godis.Protocol.{crlf}
use godis.Parser.{got, read_line, ends_in_cr, trim_crlf, read_full}
use godis.Parser.Loop.{round, round_of, dispatch}

abbrev pub NoNewline : Bytes → Type 0
NoNewline [] = Unit
NoNewline (c ∷ s) = (c ≢ 10) × NoNewline s

-- What stands before CRLF is the line, and what stands behind it is left.
pub read_line-crlf :
    (x rest : Bytes) → NoNewline x → read_line (x ++ (crlf ++ rest)) ≡ got (x ++ crlf) rest
unfolding read_line
read_line-crlf [] rest h = refl
read_line-crlf (c ∷ x) rest (ne, h) =
    let other : (c == 10) ≡ false = ground arith in
    rw (other, read_line) (rw (read_line-crlf x rest h) refl)

pub take-append : (x y : Bytes) → take (length x) (x ++ y) ≡ x
take-append [] y = refl
take-append (c ∷ x) y = ap (λ s. c ∷ s) (take-append x y)

drop-append : (x y : Bytes) → drop (length x) (x ++ y) ≡ y
drop-append [] y = refl
drop-append (c ∷ x) y = drop-append x y

get_elem?-append : (x s : Bytes) (c : ℕ) → get_elem? (x ++ c ∷ s) (length x) ≡ some c
get_elem?-append [] s c = refl
get_elem?-append (d ∷ x) s c = get_elem?-append x s c

pub length-crlf : (x : Bytes) → length (x ++ crlf) - 2 ≡ length x
length-crlf x = omega (arith, length-append x crlf)

pub ends_in_cr-crlf : (x : Bytes) → ends_in_cr (x ++ crlf) ≡ true
unfolding ends_in_cr
ends_in_cr-crlf x = rw (length-crlf x, get_elem?-append x (10 ∷ []) 13) refl

pub trim_crlf-crlf : (x : Bytes) → trim_crlf (x ++ crlf) ≡ x
unfolding trim_crlf
trim_crlf-crlf x = rw (length-crlf x, drop-append x crlf, bytes_eq_refl crlf) (take-append x crlf)

-- A body is read whole, with the two bytes behind it.
pub read_full-append :
    (n : ℕ) (x y rest : Bytes)
    → n ≡ length (x ++ y)
    → read_full n (x ++ (y ++ rest)) ≡ got (x ++ y) rest
unfolding read_full
read_full-append n x y rest e =
    rw (← append_assoc x y rest, e)
      (let enough : leb (length (x ++ y)) (length ((x ++ y) ++ rest)) ≡ true =
          ground (arith, length-append (x ++ y) rest) in
        rw (enough, take-append (x ++ y) rest, drop-append (x ++ y) rest) refl)

pub take-body : (b y : Bytes) → take (length b) (b ++ y) ≡ b
take-body b y = take-append b y

module _ (allocates : ℕ → Bool) where
  round_of-dispatch :
      (c : ℕ) (content rest : Bytes)
      → round_of allocates (got ((c ∷ content) ++ crlf) rest)
        ≡ dispatch allocates (c ∷ content) rest
  unfolding round_of
  round_of-dispatch c content rest =
      let long : leb (length ((c ∷ content) ++ crlf)) 2 ≡ false =
        ground (arith, length-append content crlf) in
      rw (long, ends_in_cr-crlf (c ∷ content), trim_crlf-crlf (c ∷ content)) refl

  -- A line that is not empty goes to the `switch` of `parse0`.
  pub round-dispatch :
      (c : ℕ) (content rest : Bytes)
      → NoNewline (c ∷ content)
      → round allocates ((c ∷ content) ++ (crlf ++ rest)) ≡ dispatch allocates (c ∷ content) rest
  unfolding round
  round-dispatch c content rest h =
      ap (round_of allocates) (read_line-crlf (c ∷ content) rest h)
      ∙ round_of-dispatch c content rest
