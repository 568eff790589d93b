-- ===== src/ConcurrentDict/Shards.antt =====
-- datastruct/dict/concurrent.go: a key's shard lies in the table; how many keys a map holds.
use Prim.Native.Nat.{bit_and, bit_and-bitwise, digits, min}
use godis.Base.{
  ℕ, zero, suc, ◌+◌, ◌-◌, ◌/◌, ◌%◌, ◌^◌, ◌≤◌, ◌<◌, ◌≡◌, refl, inl, inr, Option, none, some, [], ◌∷◌,
  Bytes, bytes_eq, bytes_eq_iff, arith, ◌==◌, length, Bool-cases,
}
use godis.Dict.{Dict, get, delete, insert}
use godis.Dict.Laws.{get-delete_self, get-delete}
use godis.ConcurrentDict.{spread, fnv32}

-- An and of digits is at most its first number.
digits-le : (fuel a b : ℕ) → digits (λ b. zero) min fuel a b ≤ a
digits-le zero a b = omega arith
digits-le (suc fuel) zero b = omega arith
digits-le (suc fuel) (suc a) b = omega (arith, digits-le fuel (suc a / 2) (b / 2))

bit_and-le : (a b : ℕ) → bit_and a b ≤ a
bit_and-le a b = omega (arith, bit_and-bitwise a b, digits-le a a b)

-- The index of a key is below the size of a table that is not empty.
pub spread-lt : (size : ℕ) (key : Bytes) → 0 < size → size < 2 ^ 32 → spread size key < size
unfolding spread
spread-lt size key h lt = elim (Bool-cases (size == 1)) [
  | inl one ↦ rw one h
  | inr more ↦
      rw more (omega (arith, bit_and-le ((size % 2 ^ 32 + 2 ^ 32 - 1) % 2 ^ 32) (fnv32 key)))
]

module _ {ℓ} {V : Type ℓ} where
  -- Each key stands once.
  abbrev pub Unique : Dict V → Type ℓ
  Unique [] = Unit
  Unique ((k, v) ∷ d) = (get d k ≡ none) × Unique d

  get-delete-none : (d : Dict V) (k j : Bytes) → get d j ≡ none → get (delete d k) j ≡ none
  get-delete-none d k j e = elim (Bool-cases (bytes_eq k j)) [
    | inl same ↦ rw (get-delete d k j, same) refl
    | inr other ↦ rw (get-delete d k j, other) e
  ]

  pub delete-Unique : (d : Dict V) (k : Bytes) → Unique d → Unique (delete d k)
  unfolding delete
  delete-Unique [] k h = tt
  delete-Unique ((j, v) ∷ d) k (e, h) = elim (Bool-cases (bytes_eq j k)) [
    | inl same ↦ rw same (delete-Unique d k h)
    | inr other ↦ rw other (get-delete-none d k j e, delete-Unique d k h)
  ]

  pub insert-Unique : (d : Dict V) (k : Bytes) (v : V) → Unique d → Unique (insert d k v)
  unfolding insert
  insert-Unique d k v h = (get-delete_self d k, delete-Unique d k h)

  pub delete-absent : (d : Dict V) (k : Bytes) → get d k ≡ none → delete d k ≡ d
  unfolding delete get
  delete-absent [] k e = refl
  delete-absent ((j, v) ∷ d) k e = ground (arith, delete-absent d k)

  -- How many keys an operation on a key finds.
  abbrev pub held : Option V → ℕ
  held none = 0
  held (some v) = 1

  pub length-delete :
      (d : Dict V) (k : Bytes) → Unique d → length (delete d k) + held (get d k) ≡ length d
  unfolding delete get
  length-delete [] k h = omega arith
  length-delete ((j, v) ∷ d) k (e, h) = elim (Bool-cases (bytes_eq j k)) [
    | inl same ↦
        let e' : get d k ≡ none = rw (← (bytes_eq_iff j k).0 same) e in
        rw (same, delete-absent d k e') (omega arith)
    | inr other ↦ rw other (omega (arith, length-delete d k h))
  ]

  pub length-insert :
      (d : Dict V) (k : Bytes) (v : V)
      → Unique d
      → length (insert d k v) + held (get d k) ≡ length d + 1
  unfolding insert
  length-insert d k v h = omega (arith, length-delete d k h)
