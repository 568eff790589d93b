-- ===== src/Parser.antt =====
-- redis/parser/parser.go: `parse0` and its helpers, over the bytes that the reader still has.
-- The channel is the list of payloads that were sent; it ends closed, or the goroutine has
-- panicked, is recovered and leaves the channel open. `make` of a byte slice panics where Go's
-- runtime refuses the size, which the parameter `allocates` tells.
pub mod Loop
pub mod Reads
pub mod Progress
pub mod Lines
pub mod RoundTrip
pub mod Stream
mod Tests
use godis.Base.{
  ℕ, zero, suc, ◌+◌, ◌*◌, Bool, true, false, ◌||◌, not, Option, none, some, List, [], ◌∷◌, ◌++◌,
  ◌&&◌, ◌-◌, Bytes, codes, bytes_eq, ltb, leb, ◌==◌, if◌then◌else◌, length, take, drop, get_elem?,
}
use godis.Base.Int.{ℤ, pos, negsuc}
use godis.Strconv.{parse_int, int64_limit}
use godis.Protocol.{crlf, Reply, null_bulk, empty_multi_bulk, bulk, multi_bulk}

pub data Error : Type 0 where
  eof unexpected_eof read_failed empty_header illegal_header : Error
  protocol_error : Bytes → Error

pub data Payload : Type 0 where
  reply : Reply → Payload
  failure : Error → Payload

-- How one round of a loop or one helper ends: the reader goes on, an error is returned to `parse0`,
-- or the code panics.
pub data Read (A : Type 0) : Type 0 where
  got : A → Bytes → Read A
  failed : Error → Read A
  panicked : Read A

-- `reader.ReadBytes('\n')`: the line with its newline, or io.EOF.
unfoldable pub read_line : Bytes → Read Bytes
read_line [] = failed eof
read_line (c ∷ s) = elim (c == 10) [
  | true ↦ got (c ∷ []) s
  | false ↦ elim (read_line s) [
    | got line rest ↦ got (c ∷ line) rest
    | failed e ↦ failed e
    | panicked ↦ panicked
  ]
]

module _ {A B : Type 0} where
  infixl 10 ◌>>=◌
  abbrev pub ◌>>=◌ : (Bytes → Read A) → (A → Bytes → Read B) → Bytes → Read B
  ◌>>=◌ m f s = elim (m s) [ got a rest ↦ f a rest | failed e ↦ failed e | panicked ↦ panicked ]

-- `io.ReadFull` into a slice of `n` bytes.
unfoldable pub read_full : ℕ → Bytes → Read Bytes
read_full n s =
    if leb n (length s)
    then got (take n s) (drop n s)
    else if length s == 0
    then failed eof
    else failed unexpected_eof

-- `line[length-2] == '\r'`, with `none` for an index out of range, which the tests before it exclude.
is_cr : Option ℕ → Bool
is_cr none = false
is_cr (some c) = c == 13

unfoldable pub ends_in_cr : Bytes → Bool
unfolding is_cr
ends_in_cr line = is_cr (get_elem? line (length line - 2))

-- `bytes.TrimSuffix(line, "\r\n")`
unfoldable pub trim_crlf : Bytes → Bytes
trim_crlf line =
    let n = length line - 2 in if bytes_eq (drop n line) crlf then take n line else line

abbrev pub tail : Bytes → Bytes
tail [] = []
tail (c ∷ s) = s

abbrev pub first_is : ℕ → Bytes → Bool
first_is b [] = false
first_is b (c ∷ s) = c == b

-- `strings.HasPrefix(s, p)`
unfoldable pub has_prefix : Bytes → Bytes → Bool
has_prefix [] s = true
has_prefix (c ∷ p) [] = false
has_prefix (c ∷ p) (d ∷ s) = c == d && has_prefix p s

push : ℕ → List (Option Bytes) → List (Option Bytes)
push c (some p ∷ ps) = some (c ∷ p) ∷ ps
push c ps = ps

-- `bytes.Split(line, " ")`
unfoldable pub split_spaces : Bytes → List (Option Bytes)
unfolding push
split_spaces [] = some [] ∷ []
split_spaces (c ∷ s) =
    let parts = split_spaces s in if c == 32 then some [] ∷ parts else push c parts

-- `protocolError`
abbrev pub complaint : Bytes → Payload
complaint msg = failure (protocol_error msg)

-- The header of an RDB file: its line, without the line's end, and the length that it gives.
unfoldable pub rdb_length : Bytes → Read ℕ → Read ℕ
rdb_length [] r = failed empty_header
rdb_length (c ∷ header) r = r

unfoldable pub rdb_header : Option ℤ → Bytes → Read ℕ
rdb_header (some (pos (suc n))) s = got (suc n) s
rdb_header _ s = failed illegal_header

unfoldable pub trimmed : Read Bytes → Read Bytes
trimmed (got line rest) = got (trim_crlf line) rest
trimmed (failed e) = failed read_failed
trimmed panicked = panicked

-- `line[1:length-2]`
unfoldable pub inner : Bytes → Bytes
inner line = take (length line - 3) (drop 1 line)

unfoldable pub bad_header : Bytes → Bool
unfolding ends_in_cr
bad_header line = ltb (length line) 4 || (not (ends_in_cr line) || not (first_is b'$' line))

abbrev pub Lines : Type 0
Lines = List (Option Bytes) × Option Payload

unfoldable pub too_long : Bytes → Payload
too_long line = complaint (codes "illegal bulk string length " ++ line)

abbrev pub header_error : Bytes → Payload
header_error line = complaint (codes "illegal bulk string header " ++ line)

unfoldable pub array_payloads : Lines → List Payload
array_payloads (lines, none) = reply (multi_bulk lines) ∷ []
array_payloads (lines, some e) = e ∷ reply (multi_bulk lines) ∷ []

illegal_array : Bytes → List Payload
illegal_array header = complaint (codes "illegal array header " ++ tail header) ∷ []

module _ (allocates : ℕ → Bool) where
  -- `make([]byte, n)`: a length that has wrapped around is negative and panics.
  unfoldable pub make_bytes : ℕ → Bytes → Read (Unit {0})
  make_bytes n s =
      if leb int64_limit n then panicked else if allocates n then got tt s else panicked

  -- `body := make([]byte, strLen+2)`, `io.ReadFull` and `body[:len(body)-2]`
  unfoldable pub read_body : ℕ → Bytes → Read Bytes
  unfolding make_bytes read_full
  read_body n =
      make_bytes (n + 2) >>= λ _. read_full (n + 2) >>= λ body rest. got (take n body) rest

  unfoldable pub bulk_of : Bytes → Option ℤ → Bytes → Read Payload
  bulk_of header none s = got (complaint (codes "illegal bulk string header: " ++ header)) s
  bulk_of header (some (pos n)) s =
      (read_body n >>= λ body rest. got (reply (bulk (some body))) rest) s
  bulk_of header (some (negsuc zero)) s = got (reply null_bulk) s
  bulk_of header (some (negsuc (suc m))) s =
      got (complaint (codes "illegal bulk string header: " ++ header)) s

  unfoldable pub parse_bulk_string : Bytes → Bytes → Read Payload
  unfolding bulk_of read_body
  parse_bulk_string header s = bulk_of header (parse_int (tail header)) s

  unfoldable pub parse_rdb_bulk_string : Bytes → Read Payload
  unfolding rdb_length rdb_header trimmed make_bytes read_full
  parse_rdb_bulk_string = (λ s. trimmed (read_line s)) >>= λ header.
      (λ s. rdb_length header (rdb_header (parse_int (tail header)) s)) >>= λ n.
      make_bytes n >>= λ _. read_full n >>= λ body rest. got (reply (bulk (some body))) rest

  -- One string of the array, by the length that its header gives; `next` is the rest of the loop.
  unfoldable pub array_item :
      Bytes
      → List (Option Bytes)
      → Option ℤ
      → (List (Option Bytes) → Bytes → Read Lines)
      → Bytes
      → Read Lines
  unfolding too_long
  array_item line lines none next s = got (lines, some (too_long line)) s
  array_item line lines (some (pos len)) next s =
      (read_body len >>= λ body. next (lines ++ some body ∷ [])) s
  array_item line lines (some (negsuc zero)) next s = next (lines ++ some [] ∷ []) s
  array_item line lines (some (negsuc (suc m))) next s = got (lines, some (too_long line)) s

  unfoldable pub array_line :
      List (Option Bytes) → (List (Option Bytes) → Bytes → Read Lines) → Bytes → Bytes → Read Lines
  array_line lines next line s = elim (bad_header line) [
    | true ↦ got (lines, some (header_error line)) s
    | false ↦ array_item line lines (parse_int (inner line)) next s
  ]

  -- The loop of `parseArray`, `n` strings before its end: the lines that it read, and the complaint
  -- at which it broke off.
  unfoldable pub array_loop : ℕ → List (Option Bytes) → Bytes → Read Lines
  array_loop zero lines s = got (lines, none) s
  array_loop (suc n) lines s = (read_line >>= array_line lines (array_loop n)) s

  -- A slice header has 24 bytes.
  unfoldable pub array_of : Bytes → Option ℤ → Bytes → Read (List Payload)
  unfolding array_payloads illegal_array
  array_of header none s = got (illegal_array header) s
  array_of header (some (negsuc m)) s = got (illegal_array header) s
  array_of header (some (pos zero)) s = got (reply empty_multi_bulk ∷ []) s
  array_of header (some (pos (suc n))) s =
      if allocates (24 * suc n)
      then (array_loop (suc n) [] >>= λ lines rest. got (array_payloads lines) rest) s
      else panicked

  unfoldable pub parse_array : Bytes → Bytes → Read (List Payload)
  unfolding array_of array_loop array_line array_item bad_header inner read_body
  parse_array header s = array_of header (parse_int (tail header)) s
