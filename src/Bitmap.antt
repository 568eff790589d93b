-- ===== src/Bitmap.antt =====
-- datastruct/bitmap/bitmap.go: bits in a byte slice, the lowest of a byte first. The receiver is nil
-- or a slice: `none` for nil, which `FromBytes` keeps and whose length is 0.
use godis.Base.{
  ℕ, zero, suc, ◌+◌, ◌-◌, ◌*◌, ◌/◌, ◌%◌, ◌^◌, Bool, Option, none, some, ◌++◌, Bytes, ltb, leb, ◌==◌,
  if◌then◌else◌, length, get_elem?, set, replicate,
}
use godis.Base.Int.{ℤ, pos, negsuc}
use godis.Base.Outcome.{Outcome, returns, panics}
use godis.Strconv.{int64_limit}

unfoldable pub to_byte_size : ℕ → ℕ
to_byte_size bit_size = if bit_size % 8 == 0 then bit_size / 8 else bit_size / 8 + 1

unfoldable pub bit_size : Bytes → ℕ
bit_size b = length b * 8

-- Bit `i` of a byte, as `(b >> i) & 0x01`.
unfoldable pub bit : ℕ → ℕ → ℕ
bit b i = b / 2 ^ i % 2

-- `b | mask` for a positive `val` and `b &^ mask` for 0, where `mask` is the byte of the bit `i`.
unfoldable pub with_bit : ℕ → ℕ → ℕ → ℕ
unfolding bit
with_bit b i zero = if bit b i == 1 then b - 2 ^ i else b
with_bit b i (suc val) = if bit b i == 1 then b else b + 2 ^ i

bit_of : Option ℕ → ℕ → ℕ
unfolding bit
bit_of none i = 0
bit_of (some b) i = bit b i

-- A shift by a negative amount and a negative index panic; -1 to -7 have the byte index 0, which
-- is past the end of an empty bitmap.
unfoldable pub get_bit : Bytes → ℤ → Outcome ℕ
unfolding bit_of
get_bit b (pos offset) = returns (bit_of (get_elem? b (offset / 8)) (offset % 8))
get_bit b (negsuc m) =
    if ltb (m + 1) 8 then (if length b == 0 then returns 0 else panics) else panics

set_at : Bytes → ℕ → ℕ → ℕ → Option ℕ → Outcome Bytes
unfolding with_bit
set_at b i j val none = panics
set_at b i j val (some byte) = returns (set b i (with_bit byte j val))

module _ (allocates : ℕ → Bool) where
  -- `grow`; the runtime may refuse the new slice.
  unfoldable pub grow : Bytes → ℕ → Outcome Bytes
  unfolding to_byte_size
  grow b size =
      let gap = to_byte_size size - length b in
      if gap == 0
      then returns b
      else if allocates gap
      then returns (b ++ replicate gap 0)
      else panics

  set_grown : ℕ → ℕ → Outcome Bytes → Outcome Bytes
  unfolding set_at
  set_grown offset val panics = panics
  set_grown offset val (returns b) =
      set_at b (offset / 8) (offset % 8) val (get_elem? b (offset / 8))

  -- `SetBit`. At the largest offset `offset + 1` wraps around, nothing grows and the index panics.
  unfoldable pub set_bit : Bytes → ℤ → ℕ → Outcome Bytes
  unfolding grow set_grown
  set_bit b (negsuc m) val = panics
  set_bit b (pos offset) val =
      if leb int64_limit (offset + 1) then panics else set_grown offset val (grow b (offset + 1))
