-- ===== src/Database/String/Part.antt =====
-- database/string.go: the commands on a part of a string: its length, its end, a range, a bit.
pub mod Laws
use godis.Base.{
  ℕ, zero, suc, ◌+◌, ◌-◌, Bool, true, false, ◌&&◌, Option, none, some, List, [], ◌∷◌, ◌++◌, Bytes,
  codes, bytes_eq, ltb, leb, ◌==◌, if◌then◌else◌, length, set, take, drop, replicate,
}
use godis.Base.Int.{ℤ, pos, negsuc}
use godis.Base.Outcome.{Outcome, returns, panics, ◌>>=◌}
use godis.Strconv.{parse_int}
use godis.Protocol.{Reply, null_bulk, bulk, int, standard_err}
use godis.Utils.{to_cmd_line3, convert_range}
use godis.Bitmap.{get_bit, set_bit}
use godis.Database.{CmdLine, Db, Result, add_aof}
use godis.Database.String.{get_as_string, with_string, store}
use godis.Database.String.Number.{not_an_integer}

-- The length and the content of a slice that may be nil.
abbrev pub content : Option Bytes → Bytes
content none = []
content (some b) = b

unfoldable pub exec_str_len : ℤ → List Bytes → Db → Result
unfolding get_as_string
exec_str_len now [] db = panics
exec_str_len now (key ∷ args) db =
    with_string (get_as_string now key db) λ b db. returns (int (pos (length (content b))), db)

-- `append` of nothing to nil is nil.
unfoldable pub append_bytes : Option Bytes → Bytes → Option Bytes
append_bytes none [] = none
append_bytes none (c ∷ s) = some (c ∷ s)
append_bytes (some b) s = some (b ++ s)

-- `PutEntity`, `addAof` and the length as the reply.
unfoldable pub put_length : Bytes → CmdLine → Option Bytes → Db → Result
unfolding store
put_length key line b db = returns (int (pos (length (content b))), add_aof line (store key b db))

unfoldable pub exec_append : ℤ → List Bytes → Db → Result
unfolding get_as_string append_bytes put_length
exec_append now (key ∷ value ∷ args) db = with_string (get_as_string now key db) λ b db.
    put_length key (to_cmd_line3 (codes "append") (key ∷ value ∷ args)) (append_bytes b value) db
exec_append now _ db = panics

-- The loop of `execSetRange`; `bytes_len` is the length before it.
unfoldable pub write_bytes : ℕ → ℕ → Bytes → Bytes → Bytes
write_bytes bytes_len idx [] b = b
write_bytes bytes_len idx (v ∷ value) b =
    write_bytes bytes_len (suc idx) value (if leb bytes_len idx then b ++ v ∷ [] else set b idx v)

unfoldable pub written : ℕ → Bytes → Option Bytes → Option Bytes
unfolding write_bytes
written offset [] b = b
written offset (v ∷ value) b =
    some (write_bytes (length (content b)) offset (v ∷ value) (content b))

unfoldable pub slice_of : Bytes → ℕ → ℕ → Outcome Bytes
slice_of b beg end =
    if leb beg end && leb end (length b) then returns (take (end - beg) (drop beg b)) else panics

unfoldable pub bulk_of : Outcome Bytes → Db → Result
bulk_of (returns b) db = returns (bulk (some b), db)
bulk_of panics db = panics

unfoldable pub slice_reply : Bytes → Option (ℕ × ℕ) → Db → Result
unfolding slice_of bulk_of
slice_reply b none db = returns (null_bulk, db)
slice_reply b (some (beg, end)) db = bulk_of (slice_of b beg end) db

unfoldable pub get_range_of : ℤ → ℤ → Option Bytes → Db → Result
unfolding slice_reply
get_range_of start end none db = returns (null_bulk, db)
get_range_of start end (some b) db = slice_reply b (convert_range start end (length b)) db

unfoldable pub exec_get_range : ℤ → List Bytes → Db → Result
unfolding get_as_string get_range_of not_an_integer
exec_get_range now (key ∷ start ∷ end ∷ args) db = elim (parse_int start) [
  | none ↦ returns (not_an_integer, db)
  | some start_idx ↦ elim (parse_int end) [
    | none ↦ returns (not_an_integer, db)
    | some end_idx ↦ with_string (get_as_string now key db) (get_range_of start_idx end_idx)
  ]
]
exec_get_range now _ db = panics

bad_offset : Reply
bad_offset = standard_err (codes "ERR bit offset is not an integer or out of range")

bad_bit : Reply
bad_bit = standard_err (codes "ERR bit is not an integer or out of range")

bit_value : Bytes → Option ℕ
bit_value val =
    if bytes_eq val (codes "1") then some 1 else if bytes_eq val (codes "0") then some 0 else none

get_bit_of : ℤ → Option Bytes → Db → Result
get_bit_of offset none db = returns (int (pos 0), db)
get_bit_of offset (some b) db = get_bit b offset >>= λ v. returns (int (pos v), db)

unfoldable pub exec_get_bit : ℤ → List Bytes → Db → Result
unfolding get_as_string get_bit_of bad_offset
exec_get_bit now (key ∷ raw_offset ∷ args) db = elim (parse_int raw_offset) [
  | none ↦ returns (bad_offset, db)
  | some offset ↦ with_string (get_as_string now key db) (get_bit_of offset)
]
exec_get_bit now _ db = panics

-- `allocates` tells the sizes that `make` can allocate, `parse_error` is the text of `ParseInt`'s error.
module _ (allocates : ℕ → Bool) (parse_error : Bytes → Bytes) where
  unfoldable pub padded : ℕ → Option Bytes → Outcome (Option Bytes)
  padded offset b =
      let diff = offset - length (content b) in
      if diff == 0
      then returns b
      else if allocates diff
      then returns (some (content b ++ replicate diff 0))
      else panics

  -- A negative offset indexes before the slice, unless there is nothing to write.
  unfoldable pub set_range : ℤ → Bytes → Option Bytes → Outcome (Option Bytes)
  unfolding padded written
  set_range (pos offset) value b = padded offset b >>= λ b. returns (written offset value b)
  set_range (negsuc m) [] b = returns b
  set_range (negsuc m) (v ∷ value) b = panics

  unfoldable pub exec_set_range : ℤ → List Bytes → Db → Result
  unfolding get_as_string set_range put_length
  exec_set_range now (key ∷ raw_offset ∷ value ∷ args) db = elim (parse_int raw_offset) [
    | none ↦ returns (standard_err (parse_error raw_offset), db)
    | some offset ↦ with_string (get_as_string now key db) λ b db. set_range offset value b >>= λ b.
        put_length key (to_cmd_line3 (codes "setRange") (key ∷ raw_offset ∷ value ∷ args)) b db
  ]
  exec_set_range now _ db = panics

  -- The slice of the bitmap stays nil when nothing was grown, and then `SetBit` panics.
  put_bit : Bytes → CmdLine → ℤ → ℕ → Option Bytes → Db → Result
  unfolding store
  put_bit key line offset v b db = get_bit (content b) offset >>= λ former.
      set_bit allocates (content b) offset v >>= λ b.
      returns (int (pos former), add_aof line (store key (some b) db))

  unfoldable pub exec_set_bit : ℤ → List Bytes → Db → Result
  unfolding get_as_string put_bit bad_offset bad_bit bit_value
  exec_set_bit now (key ∷ raw_offset ∷ val ∷ args) db = elim (parse_int raw_offset) [
    | none ↦ returns (bad_offset, db)
    | some offset ↦ elim (bit_value val) [
      | none ↦ returns (bad_bit, db)
      | some v ↦
          with_string (get_as_string now key db)
            (put_bit key (to_cmd_line3 (codes "setBit") (key ∷ raw_offset ∷ val ∷ args)) offset v)
    ]
  ]
  exec_set_bit now _ db = panics
