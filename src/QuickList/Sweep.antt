-- ===== src/QuickList/Sweep.antt =====
-- datastruct/list/quicklist.go: the loops that go forward over the list.
use godis.Base.{
  ℕ, zero, suc, ◌+◌, ◌-◌, ◌<◌, ◌≤◌, ◌≡◌, refl, subst, ap, ◌∙◌, inl, inr, Bool, true, false, ◌||◌,
  ◌&&◌, List, [], ◌∷◌, ◌++◌, append_assoc, append-nil, arith, length, take, drop, Bool-cases, not,
  is_nil, ltb, leb, ◌==◌, if◌then◌else◌, length-drop,
}
use godis.Base.Int.{ℤ, pos, negsuc}
use godis.Base.Outcome.{Outcome, Ends, Ends-bind, Ends→eq, eq→Ends, returns, panics, ◌>>=◌}
use godis.QuickList.{QuickList, Iterator, list_of, find, next}
use godis.QuickList.Ops.{remove_item}
use godis.QuickList.Scan.{
  remove_loop, remove_all_by_val, remove_by_val, visit_loop, for_each, contains, contains_consumer,
  range_loop, range,
}
use godis.QuickList.Spec
use godis.QuickList.Spec.{discard, visit, any}
use godis.QuickList.View.{Represents, At, At-Represents}
use godis.QuickList.Find.{find-At, find_outside}
use godis.QuickList.Steps.{item-At, at_end-At, next-At, remove_item-At}

-- A removal returned how many elements it took, and left the others.
abbrev pub Removed : {A : Type 0} → ℕ × List A → ℕ × QuickList A → Type 0
Removed (n, ys) (m, ql) = (m ≡ n) × Represents ql ys

-- `ql.size == 0`
pub size_test :
    {A : Type 0} (ql : QuickList A) (xs : List A) → Represents ql xs → (ql.size == 0) ≡ is_nil xs
size_test ql [] h = ground (arith, h.counted)
size_test ql (x ∷ xs) h = ground (arith, h.counted)

module _ {A : Type 0} (expected : A → Bool) (count : ℕ) where
  -- What the loop leaves behind the elements `xs` that it has passed.
  AfterLoop : List A → ℕ × List A → ℕ × Iterator A → Type 0
  AfterLoop xs (n, ys) (m, it) = (m ≡ n) × Represents (list_of it) (xs ++ ys)

  AfterLoop-keep :
      (xs : List A) (y : A) (d d' : ℕ × List A) (r : Outcome (ℕ × Iterator A))
      → d' ≡ (d.0, y ∷ d.1)
      → Ends (AfterLoop (xs ++ y ∷ []) d) r
      → Ends (AfterLoop xs d') r
  unfolding AfterLoop
  AfterLoop-keep xs y d d' (returns t) e h =
      rw e (h.0, subst (Represents (list_of t.1)) (append_assoc xs (y ∷ []) d.1) h.1)
  AfterLoop-keep xs y d d' panics e h = h

  remove_loop-AfterLoop :
      (fuel : ℕ) (it : Iterator A) (k : ℕ) (xs ys : List A)
      → At it xs ys
      → length ys < fuel
      → Ends (AfterLoop xs (discard expected count k ys)) (remove_loop expected fuel count it k)
  unfolding remove_loop
  remove_loop-AfterLoop zero it k xs ys h lt = absurd (omega arith)
  remove_loop-AfterLoop (suc fuel) it k xs [] h lt =
      rw (at_end-At xs [] h, Ends, remove_loop) (unfold AfterLoop in (refl, At-Represents h))
  remove_loop-AfterLoop (suc fuel) it k xs (y ∷ ys) h lt =
      rw (at_end-At xs (y ∷ ys) h, Ends, remove_loop)
        (rw (item-At xs y ys h, Ends, ◌>>=◌)
          (elim (Bool-cases (expected y)) [
            | inl hit ↦ rw hit (
                Ends-bind (λ t. (t.0 ≡ y) × At t.1 xs ys) _ (remove_item it) _
                  (remove_item-At xs y ys h)
                  λ t (e, h'). elim (Bool-cases (k + 1 == count)) [
                    | inl full ↦ rw (full, hit) (unfold AfterLoop in (refl, At-Represents h'))
                    | inr room ↦
                        rw (room, hit)
                          (remove_loop-AfterLoop fuel t.1 (k + 1) xs ys h' (omega arith))
                  ])
            | inr miss ↦ rw miss (
                Ends-bind (λ t. (t.0 ≡ not (is_nil ys)) × At t.1 (xs ++ y ∷ []) ys) _ (next it) _
                  (next-At xs y ys h)
                  λ t (e, h').
                    AfterLoop-keep xs y _ _ _ (rw miss)
                      (remove_loop-AfterLoop fuel t.1 k (xs ++ y ∷ []) ys h' (omega arith)))
          ]))

  -- From its first element on, the loop discards the elements from the whole list.
  remove_from_first :
      (ql : QuickList A) (xs : List A)
      → Represents ql xs
      → 0 < length xs
      → Ends (Removed (discard expected count 0 xs)) (do
        iter ← find ql (pos 0)
        (removed, iter') ← remove_loop expected (ql.size + 1) count iter 0
        returns (removed, list_of iter'))
  unfolding AfterLoop
  remove_from_first ql xs h lt =
      Ends-bind (λ it. At it [] xs) _ (find ql (pos 0)) _ (find-At ql xs 0 h lt)
        λ it at.
          Ends-bind (AfterLoop [] (discard expected count 0 xs)) _ _ _
            (remove_loop-AfterLoop (ql.size + 1) it 0 [] xs at (omega (arith, h.counted))) λ t r. r

  -- On a quick list that represents `xs`, `RemoveByVal` takes out the first `count` elements that `expected` accepts, all of them if
  -- `count` is 0, and returns their number; the other elements keep their order.
  pub remove_by_val-Removed :
      (ql : QuickList A) (xs : List A)
      → Represents ql xs
      → Ends (Removed (discard expected count 0 xs)) (remove_by_val expected ql count)
  unfolding remove_by_val
  remove_by_val-Removed ql [] h = rw (size_test ql [] h) (refl, h)
  remove_by_val-Removed ql (x ∷ xs) h =
      rw (size_test ql (x ∷ xs) h) (remove_from_first ql (x ∷ xs) h (omega arith))

module _ {A : Type 0} (expected : A → Bool) where
  -- What `RemoveAllByVal` promises: it needs an element to start at.
  abbrev pub RemovedAll : (ql : QuickList A) → List A → Type 0
  RemovedAll ql [] = remove_all_by_val expected ql ≡ panics
  RemovedAll ql (x ∷ xs) =
      Ends (Removed (discard expected 0 0 (x ∷ xs))) (remove_all_by_val expected ql)

  -- On a quick list that represents `xs`, `RemoveAllByVal` takes every element that `expected` accepts out of a list that is not empty,
  -- and panics on an empty list.
  pub remove_all_by_val-RemovedAll :
      (ql : QuickList A) (xs : List A) → Represents ql xs → RemovedAll ql xs
  unfolding remove_all_by_val
  remove_all_by_val-RemovedAll ql [] h = rw (find_outside ql [] 0 h (omega arith))
  remove_all_by_val-RemovedAll ql (x ∷ xs) h =
      remove_from_first expected 0 ql (x ∷ xs) h (omega arith)

module _ {A S : Type 0} (consumer : ℕ → A → S → Bool × S) where
  visit_loop-eq-visit :
      (fuel i : ℕ) (it : Iterator A) (s : S) (xs : List A) (y : A) (ys : List A)
      → At it xs (y ∷ ys)
      → length ys < fuel
      → visit_loop consumer fuel i it s ≡ returns (visit consumer i (y ∷ ys) s)
  unfolding visit_loop
  visit_loop-eq-visit zero i it s xs y ys h lt = absurd (omega arith)
  visit_loop-eq-visit (suc fuel) i it s xs y ys h lt =
      rw (item-At xs y ys h, ◌>>=◌)
        (go (visit_loop-eq-visit fuel) (consumer i y s) (next it) ys lt (next-At xs y ys h))
    where
      go :
          ((j : ℕ) (it' : Iterator A) (s' : S) (xs' : List A) (z : A) (zs : List A)
            → At it' xs' (z ∷ zs)
            → length zs < fuel
            → visit_loop consumer fuel j it' s' ≡ returns (visit consumer j (z ∷ zs) s'))
          → (t : Bool × S) (n : Outcome (Bool × Iterator A)) (zs : List A) → length zs < suc fuel
          → Ends (λ u. (u.0 ≡ not (is_nil zs)) × At u.1 (xs ++ y ∷ []) zs) n
          → elim t.0 [
            | false ↦ returns t.1
            | true ↦
                (n >>= λ u. elim u.0 [
                  | true ↦ visit_loop consumer fuel (i + 1) u.1 t.1
                  | false ↦ returns t.1
                ])
          ]
            ≡ returns (if t.0 then visit consumer (i + 1) zs t.1 else t.1)
      go ih (false, s') n zs lt' g = refl
      go ih (true, s') (returns u) [] lt' g = rw (g.0)
      go ih (true, s') (returns u) (z ∷ zs) lt' g =
          rw (g.0) (ih (i + 1) u.1 s' (xs ++ y ∷ []) z zs g.1 (omega arith))
      go ih (true, s') panics zs lt' g = absurd g

  -- On a quick list that represents `xs`, `ForEach` calls the consumer on the elements in order with their indices, until it returns
  -- false.
  pub for_each-eq-visit :
      (ql : QuickList A) (xs : List A) (s : S)
      → Represents ql xs
      → for_each consumer ql s ≡ returns (visit consumer 0 xs s)
  unfolding for_each
  for_each-eq-visit ql [] s h = rw (size_test ql [] h)
  for_each-eq-visit ql (x ∷ xs) s h = rw (size_test ql (x ∷ xs) h) (
      Ends→eq _ _ (
        Ends-bind (λ it. At it [] (x ∷ xs)) _ (find ql (pos 0)) _
          (find-At ql (x ∷ xs) 0 h (omega arith))
          λ it at.
            eq→Ends _ _
              (visit_loop-eq-visit (ql.size + 1) 0 it s [] x xs at (omega (arith, h.counted)))))

range_test :
    (i j s n : ℕ)
    → s ≡ n
    → (ltb i n && (leb i j && leb j n)) ≡ true
    → (leb s i || (ltb j i || ltb s j)) ≡ false
range_test i j s n e h = ground arith

module _ {A : Type 0} where
  visit-contains :
      (expected : A → Bool) (i : ℕ) (xs : List A)
      → visit (contains_consumer expected) i xs false ≡ any expected xs
  visit-contains expected i [] = refl
  visit-contains expected i (x ∷ xs) = ground (arith, visit-contains expected (i + 1) xs)

  -- On a quick list that represents `xs`, `Contains` tells whether `expected` accepts an element.
  pub contains-eq-any :
      (expected : A → Bool) (ql : QuickList A) (xs : List A)
      → Represents ql xs
      → contains expected ql ≡ returns (any expected xs)
  unfolding contains
  contains-eq-any expected ql xs h =
      for_each-eq-visit (contains_consumer expected) ql xs false h
      ∙ ap returns (visit-contains expected 0 xs)

  range_loop-eq-take :
      (n : ℕ) (it : Iterator A) (slice xs ys : List A)
      → At it xs ys
      → n ≤ length ys
      → range_loop n it slice ≡ returns (slice ++ take n ys)
  unfolding range_loop
  range_loop-eq-take zero it slice xs ys h le = rw append-nil
  range_loop-eq-take (suc n) it slice xs [] h le = absurd (omega arith)
  range_loop-eq-take (suc n) it slice xs (y ∷ ys) h le =
      rw (item-At xs y ys h, ◌>>=◌)
        (Ends→eq _ _ (
          Ends-bind (λ t. (t.0 ≡ not (is_nil ys)) × At t.1 (xs ++ y ∷ []) ys) _ (next it) _
            (next-At xs y ys h)
            λ t g. eq→Ends _ _ (
              range_loop-eq-take n t.1 (slice ++ y ∷ []) (xs ++ y ∷ []) ys g.1 (omega arith)
              ∙ ap returns (append_assoc slice (y ∷ []) (take n ys)))))

  -- On a quick list that represents `xs`, `Range` returns the elements from `start` up to `stop`, and
  -- panics unless `start` is an index of `xs` and `stop` lies from `start` to its length.
  pub range-eq-range :
      (ql : QuickList A) (xs : List A) (start stop : ℤ)
      → Represents ql xs
      → range ql start stop ≡ Spec.range xs start stop
  unfolding range
  range-eq-range ql xs (negsuc i) stop h = refl
  range-eq-range ql xs (pos i) (negsuc j) h = refl
  range-eq-range ql xs (pos i) (pos j) h =
      elim (Bool-cases (ltb i (length xs) && (leb i j && leb j (length xs)))) [
        | inl fits ↦
            rw (fits, range_test i j ql.size (length xs) h.counted fits)
              (Ends→eq _ _ (
                Ends-bind (λ it. At it (take i xs) (drop i xs)) _ (find ql (pos i)) _
                  (find-At ql xs i h (ground (arith, fits)))
                  λ it at. eq→Ends _ _ (
                    range_loop-eq-take (j - i) it [] (take i xs) (drop i xs) at
                      (ground (arith, fits, length-drop i xs)))))
        | inr out ↦ ground (arith, h.counted)
      ]
