-- ===== src/QuickList/Scan.antt =====
-- datastruct/list/quicklist.go: the loops of `QuickList` over its elements.
-- A loop takes fuel, one unit for each round, and `Sweep` and `Backward` prove that one more than
-- the list's size is enough. A round that is not reached in the source panics here.
use godis.Base.{
  ℕ, zero, suc, ◌+◌, ◌-◌, Bool, true, false, List, [], ◌∷◌, ◌++◌, ltb, leb, ◌==◌, ◌||◌,
  if◌then◌else◌,
}
use godis.Base.Int.{ℤ, pos, negsuc, sub_ℕ}
use godis.Base.Outcome.{Outcome, returns, panics, ◌>>=◌}
use godis.QuickList.{QuickList, Iterator, list_of, find, item, next, prev, at_end, at_begin}
use godis.QuickList.Ops.{remove_item}

module _ {A : Type 0} (expected : A → Bool) where
  -- The loop of `RemoveAllByVal` and of `RemoveByVal`: it stops early when `removed` has become
  -- `count`, which is at least 1 by then, so that `count` 0 stands for no limit.
  unfoldable pub remove_loop : ℕ → ℕ → Iterator A → ℕ → Outcome (ℕ × Iterator A)
  remove_loop zero count it removed = panics
  remove_loop (suc fuel) count it removed = elim (at_end it) [
    | true ↦ returns (removed, it)
    | false ↦ (do
      x ← item it
      elim (expected x) [
        | true ↦ (do
          (val, it') ← remove_item it
          elim (removed + 1 == count) [
            | true ↦ returns (removed + 1, it')
            | false ↦ remove_loop fuel count it' (removed + 1)
          ])
        | false ↦ (do (more, it') ← next it; remove_loop fuel count it' removed)
      ])
  ]

  unfoldable pub remove_all_by_val : QuickList A → Outcome (ℕ × QuickList A)
  unfolding remove_loop
  remove_all_by_val ql = do
    iter ← find ql (pos 0)
    (removed, iter') ← remove_loop (ql.size + 1) 0 iter 0
    returns (removed, list_of iter')

  unfoldable pub remove_by_val : QuickList A → ℕ → Outcome (ℕ × QuickList A)
  unfolding remove_loop
  remove_by_val ql count = if ql.size == 0 then returns (0, ql) else (do
    iter ← find ql (pos 0)
    (removed, iter') ← remove_loop (ql.size + 1) count iter 0
    returns (removed, list_of iter'))

  -- The loop of `ReverseRemoveByVal`, which steps back after a removal too.
  unfoldable pub reverse_remove_loop : ℕ → ℕ → Iterator A → ℕ → Outcome (ℕ × Iterator A)
  reverse_remove_loop zero count it removed = panics
  reverse_remove_loop (suc fuel) count it removed = elim (at_begin it) [
    | true ↦ returns (removed, it)
    | false ↦ (do
      x ← item it
      elim (expected x) [
        | true ↦ (do
          (val, it') ← remove_item it
          elim (removed + 1 == count) [
            | true ↦ returns (removed + 1, it')
            | false ↦ reverse_remove_loop fuel count (prev it').1 (removed + 1)
          ])
        | false ↦ reverse_remove_loop fuel count (prev it).1 removed
      ])
  ]

  unfoldable pub reverse_remove_by_val : QuickList A → ℕ → Outcome (ℕ × QuickList A)
  unfolding reverse_remove_loop
  reverse_remove_by_val ql count = if ql.size == 0 then returns (0, ql) else (do
    iter ← find ql (sub_ℕ ql.size 1)
    (removed, iter') ← reverse_remove_loop (ql.size + 1) count iter 0
    returns (removed, list_of iter'))

-- The consumer is a closure: its variables are a state that each call takes and returns.
module _ {A S : Type 0} (consumer : ℕ → A → S → Bool × S) where
  unfoldable pub visit_loop : ℕ → ℕ → Iterator A → S → Outcome S
  visit_loop zero i it s = panics
  visit_loop (suc fuel) i it s = do
    x ← item it
    let (go_next, s') = consumer i x s
    elim go_next [
      | false ↦ returns s'
      | true ↦ (do
        (more, it') ← next it
        elim more [ true ↦ visit_loop fuel (i + 1) it' s' | false ↦ returns s' ])
    ]

  unfoldable pub for_each : QuickList A → S → Outcome S
  unfolding visit_loop
  for_each ql s =
      if ql.size == 0
      then returns s
      else (do iter ← find ql (pos 0); visit_loop (ql.size + 1) 0 iter s)

module _ {A : Type 0} where
  abbrev pub contains_consumer : (A → Bool) → ℕ → A → Bool → Bool × Bool
  contains_consumer expected i actual found =
      if expected actual then (false, true) else (true, found)

  unfoldable pub contains : (A → Bool) → QuickList A → Outcome Bool
  unfolding for_each
  contains expected ql = for_each (contains_consumer expected) ql false

  unfoldable pub range_loop : ℕ → Iterator A → List A → Outcome (List A)
  range_loop zero it slice = returns slice
  range_loop (suc n) it slice = do
    x ← item it
    (more, it') ← next it
    range_loop n it' (slice ++ x ∷ [])

  unfoldable pub range : QuickList A → ℤ → ℤ → Outcome (List A)
  unfolding range_loop
  range ql (negsuc start) stop = panics
  range ql (pos start) (negsuc stop) = panics
  range ql (pos start) (pos stop) =
      if leb ql.size start || (ltb stop start || ltb ql.size stop)
      then panics
      else (do iter ← find ql (pos start); range_loop (stop - start) iter [])
