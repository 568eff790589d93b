-- ===== src/Utils/Range.antt =====
-- lib/utils/utils.go: `ConvertRange` against the meaning of a redis range.
use godis.Base.{ℕ, suc, ◌≤◌, ◌<◌, ◌↔◌, Option, none, some, arith}
use godis.Base.Int.{ℤ, pos, negsuc, neg_part, ◌-ℤ◌, ◌≤ℤ◌}
use godis.Utils.{convert_range}

-- The slice from `beg` to `end` lies within `size`.
abbrev pub WithinSize : ℕ → Option (ℕ × ℕ) → Type 0
WithinSize size none = Unit
WithinSize size (some (beg, end)) = (beg ≤ end) × (end ≤ size)

-- The bounds that `ConvertRange` returns, when it returns any, are those of a slice: the first is
-- at most the second, and the second at most the size.
pub convert_range-WithinSize :
    (start end : ℤ) (size : ℕ) → WithinSize size (convert_range start end size)
unfolding convert_range
convert_range-WithinSize start end size = ground arith

-- A redis index counts from the end when it is negative.
abbrev pub from_end : ℤ → ℕ → ℤ
from_end (pos n) size = pos n
from_end (negsuc n) size = pos size -ℤ pos (suc n)

-- The index lies in the slice that the bounds give.
abbrev pub Selects : Option (ℕ × ℕ) → ℕ → Type 0
Selects none i = ⊥
Selects (some (beg, end)) i = (beg ≤ i) × (i < end)

-- Of a byte string, the bounds select nothing when the start is before the first byte, that is negative by
-- more than the size. Otherwise they select exactly the indices that are at least the start and at most
-- the end, both counted from the end of the string when they are negative.
pub convert_range-Selects :
    (start end : ℤ) (size i : ℕ)
    → i < size
    → Selects (convert_range start end size) i
      ↔ ((neg_part start ≤ size) × (from_end start size ≤ℤ pos i) × (pos i ≤ℤ from_end end size))
unfolding convert_range ◌-ℤ◌
convert_range-Selects start end size i lt = ground arith
