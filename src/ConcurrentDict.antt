-- ===== src/ConcurrentDict.antt =====
-- datastruct/dict/concurrent.go: `ConcurrentDict`, a table of shards, each a Go map with a mutex.
-- A method that locks its shard and its `WithLock` twin do the same to the map; here an operation is one
-- step, and `Locking` has the interleavings. A shard is a `Dict`; the receiver is not nil.
pub mod Shards
pub mod Refinement
pub mod Locks
pub mod Locking
mod Tests
use Prim.Native.Nat.{bit_and, bit_or, bit_xor}
use godis.Base.{
  ℕ, zero, suc, ◌+◌, ◌-◌, ◌*◌, ◌/◌, ◌%◌, ◌^◌, Bool, true, false, Option, none, some, List, [], ◌∷◌,
  Bytes, ltb, leb, ◌==◌, if◌then◌else◌, length, get_elem?, set, replicate,
}
use godis.Base.Int.{ℤ, pos, negsuc}
use godis.Base.Outcome.{Outcome, returns, panics, ◌>>=◌}
use godis.Dict.{Dict, get, delete, insert}

-- `count` is an int32: the word of 32 bits that holds it.
pub record ConcurrentDict {ℓ} (V : Type ℓ) : Type ℓ where
  pub table : List (Dict V)
  pub count : ℕ
  pub shard_count : ℤ

-- The loop of `fnv32`, on a uint32.
fnv32_loop : ℕ → Bytes → ℕ
fnv32_loop hash [] = hash
fnv32_loop hash (c ∷ s) = fnv32_loop (bit_xor (hash * 16777619 % 2 ^ 32) c) s

unfoldable pub fnv32 : Bytes → ℕ
unfolding fnv32_loop
fnv32 key = fnv32_loop 2166136261 key

-- `n |= n >> k`
smear : ℕ → ℕ → ℕ
smear n k = bit_or n (n / 2 ^ k)

-- The test `n < 0` of an int that is not negative is left out.
unfoldable pub compute_capacity : ℤ → ℕ
unfolding smear
compute_capacity (negsuc m) = 16
compute_capacity (pos param) =
    if leb param 16 then 16 else smear (smear (smear (smear (smear (param - 1) 1) 2) 4) 8) 16 + 1

is_one : ℤ → Bool
is_one (pos (suc zero)) = true
is_one _ = false

-- `spread`, by the length of the table
unfoldable pub spread : ℕ → Bytes → ℕ
unfolding fnv32
spread size key =
    if size == 1 then 0 else bit_and ((size % 2 ^ 32 + 2 ^ 32 - 1) % 2 ^ 32) (fnv32 key)

module _ {ℓ} {V : Type ℓ} where
  of_shards : ℕ → ConcurrentDict V
  of_shards n = record { table = replicate n []; count = 0; shard_count = pos n }

  -- `MakeConcurrent`
  unfoldable pub make_concurrent : ℤ → ConcurrentDict V
  unfolding compute_capacity is_one of_shards
  make_concurrent shard_count =
      if is_one shard_count then of_shards 1 else of_shards (compute_capacity shard_count)

  abbrev at_index : Option (Dict V) → Outcome (Dict V)
  at_index none = panics
  at_index (some s) = returns s

  -- `dict.getShard(dict.spread(key))`
  unfoldable pub get_shard : ConcurrentDict V → Bytes → Outcome (Dict V)
  get_shard d key = at_index (get_elem? d.table (spread (length d.table) key))

  unfoldable pub put_shard : ConcurrentDict V → Bytes → Dict V → ConcurrentDict V
  put_shard d key s = record d { table = set d.table (spread (length d.table) key) s }

  unfoldable pub add_count : ConcurrentDict V → ConcurrentDict V
  add_count d = record d { count = (d.count + 1) % 2 ^ 32 }

  unfoldable pub decrease_count : ConcurrentDict V → ConcurrentDict V
  decrease_count d = record d { count = (d.count + 2 ^ 32 - 1) % 2 ^ 32 }

  -- `Get` and `GetWithLock`
  unfoldable pub lookup : ConcurrentDict V → Bytes → Outcome (Option V)
  unfolding get_shard
  lookup d key = do s ← get_shard d key; returns (get s key)

  -- `Len`
  unfoldable pub len_of : ConcurrentDict V → ℤ
  len_of d = if ltb d.count (2 ^ 31) then pos d.count else negsuc (2 ^ 32 - 1 - d.count)

  put_in : ConcurrentDict V → Bytes → V → Dict V → Option V → ConcurrentDict V × ℕ
  unfolding put_shard add_count
  put_in d key val s (some old) = (put_shard d key (insert s key val), 0)
  put_in d key val s none = (put_shard (add_count d) key (insert s key val), 1)

  -- `Put` and `PutWithLock`
  unfoldable pub put : ConcurrentDict V → Bytes → V → Outcome (ConcurrentDict V × ℕ)
  unfolding get_shard put_in
  put d key val = do s ← get_shard d key; returns (put_in d key val s (get s key))

  absent_in : ConcurrentDict V → Bytes → V → Dict V → Option V → ConcurrentDict V × ℕ
  unfolding put_shard add_count
  absent_in d key val s (some old) = (d, 0)
  absent_in d key val s none = (add_count (put_shard d key (insert s key val)), 1)

  -- `PutIfAbsent` and `PutIfAbsentWithLock`
  unfoldable pub put_if_absent : ConcurrentDict V → Bytes → V → Outcome (ConcurrentDict V × ℕ)
  unfolding get_shard absent_in
  put_if_absent d key val = do s ← get_shard d key; returns (absent_in d key val s (get s key))

  exists_in : ConcurrentDict V → Bytes → V → Dict V → Option V → ConcurrentDict V × ℕ
  unfolding put_shard
  exists_in d key val s (some old) = (put_shard d key (insert s key val), 1)
  exists_in d key val s none = (d, 0)

  -- `PutIfExists` and `PutIfExistsWithLock`
  unfoldable pub put_if_exists : ConcurrentDict V → Bytes → V → Outcome (ConcurrentDict V × ℕ)
  unfolding get_shard exists_in
  put_if_exists d key val = do s ← get_shard d key; returns (exists_in d key val s (get s key))

  remove_in : ConcurrentDict V → Bytes → Dict V → Option V → ConcurrentDict V × (Option V × ℕ)
  unfolding put_shard decrease_count
  remove_in d key s (some val) = (decrease_count (put_shard d key (delete s key)), (some val, 1))
  remove_in d key s none = (d, (none, 0))

  -- `Remove` and `RemoveWithLock`
  unfoldable pub remove : ConcurrentDict V → Bytes → Outcome (ConcurrentDict V × (Option V × ℕ))
  unfolding get_shard remove_in
  remove d key = do s ← get_shard d key; returns (remove_in d key s (get s key))

  -- `Clear`
  unfoldable pub clear : ConcurrentDict V → ConcurrentDict V
  unfolding make_concurrent
  clear d = make_concurrent d.shard_count
