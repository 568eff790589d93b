-- ===== src/Parser/RoundTrip.antt =====
-- redis/protocol/reply.go and redis/parser/parser.go: the parser reads back what `ToBytes` writes.
use godis.Base.{
  ℕ, suc, ◌+◌, ◌*◌, ◌-◌, ◌≤◌, ◌<◌, ◌≡◌, ◌≢◌, refl, ap, ◌∙◌, Bool, true, false, Option, none, some,
  List, [], ◌∷◌, ◌++◌, Bytes, arith, leb, ltb, length, length-append, append_assoc, append-nil,
}
use godis.Base.Int.{ℤ}
use godis.Strconv.{itoa, format_int, int64_limit}
use godis.Strconv.RoundTrip.{
  IsInt64, IsPrinted, itoa-IsPrinted, format_int-IsPrinted, itoa_head, parse_int-itoa,
  parse_int-format_int,
}
use godis.Protocol.{bulk, multi_bulk, int, crlf, to_bytes, bulk_bytes, args_bytes}
use godis.Parser.{
  reply, Read, got, ◌>>=◌, read_line, make_bytes, read_body, parse_bulk_string, bulk_of, Lines,
  array_item, array_line, array_loop, array_of, parse_array, bad_header, inner, array_payloads,
}
use godis.Parser.Loop.{more, dispatch, round, send_one, send_all, int_payload}
use godis.Parser.Lines.{
  NoNewline, read_line-crlf, ends_in_cr-crlf, read_full-append, take-body, take-append,
  round-dispatch,
}

IsPrinted-NoNewline : (s : Bytes) → IsPrinted s → NoNewline s
IsPrinted-NoNewline [] h = tt
IsPrinted-NoNewline (c ∷ s) (le, h) = (λ e. omega arith, IsPrinted-NoNewline s h)

bind-got :
    {A B : Type 0} (m : Bytes → Read A) (f : A → Bytes → Read B) {s rest : Bytes} {a : A}
    → m s ≡ got a rest
    → (m >>= f) s ≡ f a rest
bind-got m f e = rw (e, ◌>>=◌) refl

module _ (allocates : ℕ → Bool) where
  -- The runtime can allocate so many bytes.
  abbrev pub Granted : ℕ → Type 0
  Granted n = (n < int64_limit) × (allocates n ≡ true)

  make_bytes-Granted : (n : ℕ) (s : Bytes) → Granted n → make_bytes allocates n s ≡ got tt s
  unfolding make_bytes
  make_bytes-Granted n s (lt, grants) =
      let small : leb int64_limit n ≡ false = ground arith in rw (small, grants) refl

  read_body-append :
      (b rest : Bytes)
      → Granted (length b + 2)
      → read_body allocates (length b) (b ++ (crlf ++ rest)) ≡ got b rest
  unfolding read_body
  read_body-append b rest h =
      rw (make_bytes-Granted (length b + 2) (b ++ (crlf ++ rest)) h, ◌>>=◌)
        (rw
          (read_full-append (length b + 2) b crlf rest (omega (arith, length-append b crlf)), ◌>>=◌)
          (rw (take-body b crlf) refl))

  parse_bulk_string-append :
      (b rest : Bytes)
      → Granted (length b + 2)
      → parse_bulk_string allocates (b'$' ∷ itoa (length b)) (b ++ (crlf ++ rest))
        ≡ got (reply (bulk (some b))) rest
  unfolding parse_bulk_string bulk_of
  parse_bulk_string-append b rest h =
      rw (parse_int-itoa (length b) (omega (arith, h.0)), bulk_of)
        (rw (read_body-append b rest h, ◌>>=◌) refl)

  -- The bytes of a bulk string, with its header in front.
  bulk-frame :
      (b rest : Bytes)
      → bulk_bytes (some b) ++ rest ≡ (b'$' ∷ itoa (length b)) ++ (crlf ++ (b ++ (crlf ++ rest)))
  unfolding bulk_bytes
  bulk-frame b rest =
      ap (λ s. b'$' ∷ s)
        (append_assoc (itoa (length b)) (crlf ++ (b ++ crlf)) rest
          ∙ ap (λ s. itoa (length b) ++ (crlf ++ s)) (append_assoc b crlf rest))

  header-NoNewline : (c n : ℕ) → c ≢ 10 → NoNewline (c ∷ itoa n)
  header-NoNewline c n ne = (ne, IsPrinted-NoNewline (itoa n) (itoa-IsPrinted n))

  pub round-bulk :
      (b rest : Bytes)
      → Granted (length b + 2)
      → round allocates (bulk_bytes (some b) ++ rest) ≡ more (reply (bulk (some b)) ∷ []) rest
  round-bulk b rest h =
      ap (round allocates) (bulk-frame b rest)
      ∙ round-dispatch allocates b'$' (itoa (length b)) (b ++ (crlf ++ rest))
          (header-NoNewline b'$' (length b) (λ e. omega (arith, e)))
      ∙ unfold dispatch in ap (send_one []) (parse_bulk_string-append b rest h)

  int_payload-format_int : (z : ℤ) → IsInt64 z → int_payload (format_int z) ≡ reply (int z)
  unfolding int_payload
  int_payload-format_int z h = rw (parse_int-format_int z h, int_payload) refl

  pub round-int :
      (z : ℤ) (rest : Bytes)
      → IsInt64 z
      → round allocates ((b':' ∷ format_int z) ++ (crlf ++ rest)) ≡ more (reply (int z) ∷ []) rest
  round-int z rest h =
      round-dispatch allocates b':' (format_int z) rest
        (λ e. omega (arith, e), IsPrinted-NoNewline (format_int z) (format_int-IsPrinted z))
      ∙ unfold dispatch in ap (λ p. more (p ∷ []) rest) (int_payload-format_int z h)

  -- The header of a string in an array.
  good_header : (n : ℕ) → bad_header ((b'$' ∷ itoa n) ++ crlf) ≡ false
  unfolding bad_header
  good_header n =
      let r = itoa_head n in
      let at_least : 1 ≤ length (itoa n) = rw r.eq (omega arith) in
      let long : ltb (length ((b'$' ∷ itoa n) ++ crlf)) 4 ≡ false =
        ground (arith, length-append (itoa n) crlf) in
      rw (long, ends_in_cr-crlf (b'$' ∷ itoa n)) refl

  inner-header : (n : ℕ) → inner ((b'$' ∷ itoa n) ++ crlf) ≡ itoa n
  unfolding inner
  inner-header n =
      let digits_only : length ((b'$' ∷ itoa n) ++ crlf) - 3 ≡ length (itoa n) =
        omega (arith, length-append (itoa n) crlf) in
      rw digits_only (take-append (itoa n) crlf)

  array_line-append :
      (lines : List (Option Bytes)) (b rest : Bytes)
      (next : List (Option Bytes) → Bytes → Read Lines)
      → Granted (length b + 2)
      → array_line allocates lines next ((b'$' ∷ itoa (length b)) ++ crlf) (b ++ (crlf ++ rest))
        ≡ next (lines ++ some b ∷ []) rest
  unfolding array_line array_item
  array_line-append lines b rest next h =
      rw (good_header (length b), array_line)
        (rw (inner-header (length b), parse_int-itoa (length b) (omega (arith, h.0)), array_item)
          (rw (read_body-append b rest h, ◌>>=◌) refl))

  -- The strings that a command line can hold: not nil, and small enough for the runtime.
  abbrev pub AllGranted : List Bytes → Type 0
  AllGranted [] = Unit
  AllGranted (b ∷ bs) = Granted (length b + 2) × AllGranted bs

  abbrev pub strings : List Bytes → List (Option Bytes)
  strings [] = []
  strings (b ∷ bs) = some b ∷ strings bs

  array_loop-append :
      (bs : List Bytes) (lines : List (Option Bytes)) (rest : Bytes)
      → AllGranted bs
      → array_loop allocates (length bs) lines (args_bytes (strings bs) ++ rest)
        ≡ got (lines ++ strings bs, none) rest
  unfolding array_loop args_bytes
  array_loop-append [] lines rest h = rw (append-nil lines) refl
  array_loop-append (b ∷ bs) lines rest (h, hs) =
      ap (read_line >>= array_line allocates lines (array_loop allocates (length bs))) (
        append_assoc (bulk_bytes (some b)) (args_bytes (strings bs)) rest
        ∙ bulk-frame b (args_bytes (strings bs) ++ rest))
      ∙ bind-got read_line (array_line allocates lines (array_loop allocates (length bs))) (
          read_line-crlf (b'$' ∷ itoa (length b)) (b ++ (crlf ++ (args_bytes (strings bs) ++ rest)))
            (header-NoNewline b'$' (length b) (λ e. omega (arith, e))))
      ∙ array_line-append lines b (args_bytes (strings bs) ++ rest)
          (array_loop allocates (length bs)) h
      ∙ array_loop-append bs (lines ++ some b ∷ []) rest hs
      ∙ ap (λ ls. got (ls, none) rest) (append_assoc lines (some b ∷ []) (strings bs))

  length-strings : (bs : List Bytes) → length (strings bs) ≡ length bs
  length-strings [] = refl
  length-strings (b ∷ bs) = ap suc (length-strings bs)

  -- A command line, with its strings and the slice of them small enough for the runtime.
  abbrev pub IsSmall : List Bytes → Type 0
  IsSmall bs = (length bs < int64_limit) × (allocates (24 * length bs) ≡ true) × AllGranted bs

  parse_array-append :
      (b : Bytes) (bs : List Bytes) (rest : Bytes)
      → IsSmall (b ∷ bs)
      → parse_array allocates
          (b'*' ∷ itoa (length (b ∷ bs)))
          (args_bytes (strings (b ∷ bs)) ++ rest)
        ≡ got (reply (multi_bulk (strings (b ∷ bs))) ∷ []) rest
  unfolding parse_array array_of array_payloads
  parse_array-append b bs rest (lt, grants, hs) =
      rw (parse_int-itoa (length (b ∷ bs)) lt, array_of)
        (rw grants (
          bind-got (array_loop allocates (length (b ∷ bs)) [])
            (λ lines rest. got (array_payloads lines) rest)
            (array_loop-append (b ∷ bs) [] rest hs)))

  pub round-multi_bulk :
      (b : Bytes) (bs : List Bytes) (rest : Bytes)
      → IsSmall (b ∷ bs)
      → round allocates (to_bytes (multi_bulk (strings (b ∷ bs))) ++ rest)
        ≡ more (reply (multi_bulk (strings (b ∷ bs))) ∷ []) rest
  unfolding to_bytes
  round-multi_bulk b bs rest h =
      let body : Bytes = args_bytes (strings (b ∷ bs)) in
      rw (length-strings bs) (
        ap (round allocates)
          (ap (λ s. b'*' ∷ s) (append_assoc (itoa (length (b ∷ bs))) (crlf ++ body) rest))
        ∙ round-dispatch allocates b'*' (itoa (length (b ∷ bs))) (body ++ rest)
            (header-NoNewline b'*' (length (b ∷ bs)) (λ e. omega (arith, e)))
        ∙ unfold dispatch in ap send_all (parse_array-append b bs rest h))
