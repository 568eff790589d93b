-- ===== src/QuickList/Spec.antt =====
-- What the operations of datastruct/list/quicklist.go promise, on plain lists.
use godis.Base.{
  ℕ, ◌+◌, ◌-◌, Bool, false, List, [], ◌∷◌, ◌++◌, Option, none, some, reverse, ltb, leb, ◌==◌, ◌||◌,
  ◌&&◌, if◌then◌else◌, length, get_elem?, set, take, drop,
}
use godis.Base.Int.{ℤ, pos, negsuc}
use godis.Base.Outcome.{Outcome, returns, panics}

module _ {A : Type 0} where
  abbrev pub get_at : List A → ℤ → Outcome A
  get_at xs (negsuc i) = panics
  get_at xs (pos i) = elim (get_elem? xs i) [ none ↦ panics | some x ↦ returns x ]

  abbrev pub set_at : List A → ℤ → A → Outcome (List A)
  set_at xs (negsuc i) v = panics
  set_at xs (pos i) v = if ltb i (length xs) then returns (set xs i v) else panics

  abbrev pub insert_at : List A → ℤ → A → Outcome (List A)
  insert_at xs (negsuc i) v = panics
  insert_at xs (pos i) v =
      if leb i (length xs) then returns (take i xs ++ v ∷ drop i xs) else panics

  abbrev pub remove_at : List A → ℤ → Outcome (A × List A)
  remove_at xs (negsuc i) = panics
  remove_at xs (pos i) = elim (get_elem? xs i) [
    | none ↦ panics
    | some x ↦ returns (x, take i xs ++ drop (i + 1) xs)
  ]

  -- The elements without those that `expected` accepts, at most `count` of them from the left, and
  -- how many there were; `count` 0 stands for no limit.
  abbrev pub discard : (A → Bool) → ℕ → ℕ → List A → ℕ × List A
  discard expected count removed [] = (removed, [])
  discard expected count removed (x ∷ xs) =
      if expected x
      then (if removed + 1 == count
          then (removed + 1, xs)
          else discard expected count (removed + 1) xs)
      else (let (n, ys) = discard expected count removed xs in (n, x ∷ ys))

  -- The same from the right.
  abbrev pub discard_last : (A → Bool) → ℕ → List A → ℕ × List A
  discard_last expected count xs =
      let (n, ys) = discard expected count 0 (reverse xs) in (n, reverse ys)

  -- The last element of a list that is not empty, and what stands before it.
  abbrev pub pop : List A → Option A × List A
  pop [] = (none, [])
  pop (x ∷ []) = (some x, [])
  pop (x ∷ y ∷ ys) = let (last, init) = pop (y ∷ ys) in (last, x ∷ init)

  abbrev pub range : List A → ℤ → ℤ → Outcome (List A)
  range xs (pos start) (pos stop) =
      if ltb start (length xs) && (leb start stop && leb stop (length xs))
      then returns (take (stop - start) (drop start xs))
      else panics
  range xs _ _ = panics

  abbrev pub any : (A → Bool) → List A → Bool
  any f [] = false
  any f (x ∷ xs) = f x || any f xs

module _ {A S : Type 0} (consumer : ℕ → A → S → Bool × S) where
  -- The consumer's calls, until it returns false.
  abbrev pub visit : ℕ → List A → S → S
  visit i [] s = s
  visit i (x ∷ xs) s =
      let (go_next, s') = consumer i x s in if go_next then visit (i + 1) xs s' else s'
