-- ===== src/Dict.antt =====
-- datastruct/dict/simple.go: a Go map with string keys, as `database/database.go` uses the interface `Dict`.
-- Nothing modelled iterates over a map, so the order of its entries stands for nothing.
pub mod Laws
use godis.Base.{ℕ, List, [], ◌∷◌, Option, none, some, Bytes, bytes_eq, if◌then◌else◌}

abbrev pub Dict {ℓ} : Type ℓ → Type ℓ
Dict V = List (Bytes × V)

module _ {ℓ} {V : Type ℓ} where
  unfoldable pub get : Dict V → Bytes → Option V
  get [] k = none
  get ((j, v) ∷ d) k = let rest = get d k in if bytes_eq j k then some v else rest

  -- `delete(dict.m, key)`
  unfoldable pub delete : Dict V → Bytes → Dict V
  delete [] k = []
  delete ((j, v) ∷ d) k = let rest = delete d k in if bytes_eq j k then rest else (j, v) ∷ rest

  -- `dict.m[key] = val`
  unfoldable pub insert : Dict V → Bytes → V → Dict V
  unfolding delete
  insert d k v = (k, v) ∷ delete d k

  abbrev pub added : Option V → ℕ
  added none = 1
  added (some v) = 0

  -- `Put`: the new map, and how many keys are new.
  unfoldable pub put : Dict V → Bytes → V → Dict V × ℕ
  unfolding insert
  put d k v = (insert d k v, added (get d k))

  unfoldable pub put_if_absent : Dict V → Bytes → V → Dict V × ℕ
  put_if_absent d k v = elim (get d k) [ none ↦ (insert d k v, 1) | some old ↦ (d, 0) ]

  unfoldable pub put_if_exists : Dict V → Bytes → V → Dict V × ℕ
  put_if_exists d k v = elim (get d k) [ none ↦ (d, 0) | some old ↦ (insert d k v, 1) ]
