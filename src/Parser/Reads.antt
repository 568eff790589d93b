-- ===== src/Parser/Reads.antt =====
-- redis/parser/parser.go: no helper puts bytes back, and a line that was read is gone.
use godis.Base.{
  ℕ, zero, suc, ◌+◌, ◌*◌, ◌≤◌, inl, inr, Bool, true, false, Option, none, some, List, [], ◌∷◌, ◌++◌,
  Bytes, arith, leb, ◌==◌, length, length-drop, take, Bool-cases, if◌then◌else◌,
}
use godis.Base.Int.{ℤ, pos, negsuc}
use godis.Strconv.{parse_int, int64_limit}
use godis.Protocol.{bulk}
use godis.Parser.{
  reply, Read, got, failed, panicked, ◌>>=◌, read_line, read_full, make_bytes, read_body, bulk_of,
  array_of, array_line, array_item, parse_rdb_bulk_string, bad_header, inner, array_loop, tail,
  rdb_length, rdb_header, trimmed, Lines, array_payloads,
}

-- A read that succeeds leaves at most `n` bytes.
abbrev pub Leaves : {A : Type 0} → ℕ → Read A → Type 0
Leaves n (got a rest) = length rest ≤ n
Leaves n (failed e) = Unit
Leaves n panicked = Unit

-- A reader never puts bytes back.
abbrev Reads : {A : Type 0} → (Bytes → Read A) → Type 0
Reads m = (n : ℕ) (s : Bytes) → length s ≤ n → Leaves n (m s)

bind-Reads :
    {A B : Type 0} (m : Bytes → Read A) (f : A → Bytes → Read B)
    → Reads m
    → ((a : A) → Reads (f a))
    → Reads (m >>= f)
bind-Reads m f hm hf n s le = go (m s) (hm n s le)
  where
    go :
        (r : Read _)
        → Leaves n r
        → Leaves n (elim r [ got a rest ↦ f a rest | failed e ↦ failed e | panicked ↦ panicked ])
    go (got a rest) h = hf a n rest h
    go (failed e) h = tt
    go panicked h = tt

-- A line that was read is gone from the input.
pub read_line-Leaves : (n : ℕ) (s : Bytes) → length s ≤ suc n → Leaves n (read_line s)
unfolding read_line
read_line-Leaves n [] h = tt
read_line-Leaves zero (c ∷ d ∷ s) h = absurd (omega arith)
read_line-Leaves zero (c ∷ []) h = elim (Bool-cases (c == 10)) [
  | inl nl ↦ rw (nl, Leaves) (omega arith)
  | inr not_nl ↦ rw (not_nl, Leaves) tt
]
read_line-Leaves (suc n) (c ∷ s) h = elim (Bool-cases (c == 10)) [
  | inl nl ↦ rw (nl, Leaves) (omega arith)
  | inr not_nl ↦ rw (not_nl, Leaves) (go (read_line s) (read_line-Leaves n s (omega arith)))
]
  where
    go :
        (r : Read Bytes)
        → Leaves n r
        → Leaves (suc n) (elim r [
          | got line rest ↦ got (c ∷ line) rest
          | failed e ↦ failed e
          | panicked ↦ panicked
        ])
    go (got line rest) h' = omega arith
    go (failed e) h' = tt
    go panicked h' = tt

read_line-Reads : Reads read_line
read_line-Reads n s h = weaken (read_line s) (read_line-Leaves n s (omega arith))
  where
    weaken : (r : Read Bytes) → Leaves n r → Leaves n r
    weaken r h' = h'

read_full-Reads : (k : ℕ) → Reads (read_full k)
unfolding read_full
read_full-Reads k n s h = elim (Bool-cases (leb k (length s))) [
  | inl enough ↦ rw enough (omega (arith, length-drop k s))
  | inr short ↦ rw short (elim (Bool-cases (length s == 0)) [ inl e ↦ rw e tt | inr e ↦ rw e tt ])
]

got-Reads : {A : Type 0} (a : A) → Reads (λ s. got a s)
got-Reads a n s h = h

if-Leaves :
    {A : Type 0} (n : ℕ) (b : Bool) (r q : Read A)
    → Leaves n r
    → Leaves n q
    → Leaves n (if b then r else q)
if-Leaves n true r q hr hq = hr
if-Leaves n false r q hr hq = hq

module _ (allocates : ℕ → Bool) where
  make_bytes-Reads : (k : ℕ) → Reads (make_bytes allocates k)
  unfolding make_bytes
  make_bytes-Reads k n s h =
      if-Leaves n (leb int64_limit k) _ _ tt (if-Leaves n (allocates k) _ _ h tt)

  read_body-Reads : (k : ℕ) → Reads (read_body allocates k)
  unfolding read_body
  read_body-Reads k = bind-Reads (make_bytes allocates (k + 2)) _ (make_bytes-Reads (k + 2)) λ _.
      bind-Reads (read_full (k + 2)) _ (read_full-Reads (k + 2)) λ body. got-Reads (take k body)

  pub bulk_of-Reads : (header : Bytes) (o : Option ℤ) → Reads (bulk_of allocates header o)
  unfolding bulk_of
  bulk_of-Reads header none n s h = h
  bulk_of-Reads header (some (pos k)) n s h =
      bind-Reads (read_body allocates k) _ (read_body-Reads k)
        (λ body. got-Reads (reply (bulk (some body)))) n s h
  bulk_of-Reads header (some (negsuc zero)) n s h = h
  bulk_of-Reads header (some (negsuc (suc m))) n s h = h

  trimmed-Leaves : (n : ℕ) (r : Read Bytes) → Leaves n r → Leaves n (trimmed r)
  unfolding trimmed
  trimmed-Leaves n (got line rest) h = h
  trimmed-Leaves n (failed e) h = h
  trimmed-Leaves n panicked h = h

  rdb_header-Reads : (o : Option ℤ) → Reads (rdb_header o)
  unfolding rdb_header
  rdb_header-Reads (some (pos (suc k))) n s h = h
  rdb_header-Reads (some (pos zero)) n s h = tt
  rdb_header-Reads _ n s h = tt

  rdb_length-Leaves :
      (n : ℕ) (header : Bytes) (r : Read ℕ) → Leaves n r → Leaves n (rdb_length header r)
  unfolding rdb_length
  rdb_length-Leaves n [] r h = tt
  rdb_length-Leaves n (c ∷ header) r h = h

  pub parse_rdb_bulk_string-Reads : Reads (parse_rdb_bulk_string allocates)
  unfolding parse_rdb_bulk_string
  parse_rdb_bulk_string-Reads =
      bind-Reads (λ s. trimmed (read_line s)) _
        (λ n s h. trimmed-Leaves n (read_line s) (read_line-Reads n s h))
        λ header.
          bind-Reads (λ s. rdb_length header (rdb_header (parse_int (tail header)) s)) _
            (λ n s h.
              rdb_length-Leaves n header _ (rdb_header-Reads (parse_int (tail header)) n s h))
            λ k. bind-Reads (make_bytes allocates k) _ (make_bytes-Reads k) λ _.
              bind-Reads (read_full k) _ (read_full-Reads k)
                λ body. got-Reads (reply (bulk (some body)))

  array_item-Reads :
      (line : Bytes) (lines : List (Option Bytes)) (o : Option ℤ)
      (next : List (Option Bytes) → Bytes → Read Lines)
      → ((ls : List (Option Bytes)) → Reads (next ls))
      → Reads (array_item allocates line lines o next)
  unfolding array_item
  array_item-Reads line lines none next hn n s h = h
  array_item-Reads line lines (some (pos k)) next hn n s h =
      bind-Reads (read_body allocates k) _ (read_body-Reads k)
        (λ body. hn (lines ++ some body ∷ [])) n s h
  array_item-Reads line lines (some (negsuc zero)) next hn n s h = hn (lines ++ some [] ∷ []) n s h
  array_item-Reads line lines (some (negsuc (suc m))) next hn n s h = h

  array_line-Reads :
      (lines : List (Option Bytes)) (next : List (Option Bytes) → Bytes → Read Lines) (line : Bytes)
      → ((ls : List (Option Bytes)) → Reads (next ls))
      → Reads (array_line allocates lines next line)
  unfolding array_line
  array_line-Reads lines next line hn n s h = elim (Bool-cases (bad_header line)) [
    | inl bad ↦ rw (bad, Leaves) h
    | inr good ↦
        rw (good, Leaves) (array_item-Reads line lines (parse_int (inner line)) next hn n s h)
  ]

  array_loop-Reads : (k : ℕ) (lines : List (Option Bytes)) → Reads (array_loop allocates k lines)
  unfolding array_loop
  array_loop-Reads zero lines n s h = h
  array_loop-Reads (suc k) lines n s h =
      bind-Reads read_line _ read_line-Reads
        (λ line. array_line-Reads lines (array_loop allocates k) line (array_loop-Reads k)) n s h

  pub array_of-Reads : (header : Bytes) (o : Option ℤ) → Reads (array_of allocates header o)
  unfolding array_of
  array_of-Reads header none n s h = h
  array_of-Reads header (some (negsuc m)) n s h = h
  array_of-Reads header (some (pos zero)) n s h = h
  array_of-Reads header (some (pos (suc k))) n s h =
      if-Leaves n (allocates (24 * suc k)) _ _
        (bind-Reads (array_loop allocates (suc k) []) _ (array_loop-Reads (suc k) [])
          (λ lines. got-Reads (array_payloads lines)) n s h)
        tt
