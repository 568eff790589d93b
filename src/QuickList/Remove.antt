-- ===== src/QuickList/Remove.antt =====
-- datastruct/list/quicklist.go: `Remove` and `RemoveLast` agree with a plain list.
use godis.Base.{
  ℕ, suc, ◌+◌, ◌-◌, ◌<◌, ◌≤◌, ◌≡◌, refl, sym, subst, ap, ◌∙◌, Option, List, [], ◌∷◌, ◌++◌, some,
  append_assoc, arith, length, take, drop, length-append, reverse, drop-suc,
}
use mathlib.Core.List.{reverse-reverse}
use native.Mathlib.Numerals.{add-one}
use godis.Base.Int.{ℤ, pos, negsuc}
use godis.Base.Outcome
use godis.Base.Outcome.{Outcome, Ends, Ends-bind, Agrees, returns, panics}
use godis.QuickList.{Page, QuickList, find}
use godis.QuickList.Ops.{
  remove_item, remove_at, split_last, remove_last_from, remove_last_page, remove_last,
}
use godis.QuickList.Spec
use godis.QuickList.View.{flat, flat_back, AllOk, Represents, At, At-Represents}
use godis.QuickList.Find.{flat_back-reverse, AllOk-reverse}
use godis.QuickList.Steps.{remove_item-At}
use godis.QuickList.Edit.{Found, present, absent, find-Found}
use godis.QuickList.Sweep.{size_test}

-- Both results of a removal: the value and the list.
abbrev pub SameRemoval : {A : Type 0} → A × QuickList A → A × List A → Type 0
SameRemoval (x, ql) (y, xs) = (x ≡ y) × Represents ql xs

-- The same where the list may have had no element.
abbrev pub Popped : {A : Type 0} → Option A × List A → Option A × QuickList A → Type 0
Popped (y, xs) (x, ql) = (x ≡ y) × Represents ql xs

module _ {A : Type 0} where
  remove_at-Found :
      (ql : QuickList A) (xs : List A) (i : ℕ)
      → Found ql xs i
      → Agrees SameRemoval (remove_at ql (pos i)) (Spec.remove_at xs (pos i))
  unfolding remove_at
  remove_at-Found ql xs i (present y ys lt e g r) =
      rw (g, Agrees, Spec.remove_at)
        (Outcome.Ends→Agrees SameRemoval (y, take i xs ++ drop (i + 1) xs) _
          (rw (add-one, drop-suc xs i y ys e)
            (Ends-bind (λ it. At it (take i xs) (y ∷ ys)) _ (find ql (pos i)) _ r
              λ it at.
                Ends-bind (λ t. (t.0 ≡ y) × At t.1 (take i xs) ys) _ (remove_item it) _
                  (remove_item-At (take i xs) y ys at) λ t h. (h.0, At-Represents h.1))))
  remove_at-Found ql xs i (absent le g r) = rw (g, Agrees, Spec.remove_at) (rw r tt)

  -- On a quick list that represents `xs`, `Remove` returns the element of `xs` at the index and the quick
  -- list represents `xs` without it; it panics where there is none.
  pub remove_at-Agrees :
      (ql : QuickList A) (xs : List A) (index : ℤ)
      → Represents ql xs
      → Agrees SameRemoval (remove_at ql index) (Spec.remove_at xs index)
  remove_at-Agrees ql xs (negsuc i) h = unfold remove_at find in tt
  remove_at-Agrees ql xs (pos i) h = remove_at-Found ql xs i (find-Found ql xs i h)

  split_last_lem : (x : A) (xs : List A) → (split_last x xs).0 ++ (split_last x xs).1 ∷ [] ≡ x ∷ xs
  unfolding split_last
  split_last_lem x [] = refl
  split_last_lem x (y ∷ ys) = ap (λ t. x ∷ t) (split_last_lem y ys)

  pop_snoc : (xs : List A) (v : A) → Spec.pop (xs ++ v ∷ []) ≡ (some v, xs)
  pop_snoc [] v = refl
  pop_snoc (x ∷ []) v = refl
  pop_snoc (x ∷ y ∷ ys) v = cc (pop_snoc (y ∷ ys) v)

  flat-reverse : (ps : List (Page A)) → flat (reverse ps) ≡ flat_back ps
  flat-reverse ps = sym (flat_back-reverse (reverse ps)) ∙ ap flat_back (reverse-reverse ps)

  Represents-reverse :
      (ps : List (Page A)) (s : ℕ)
      → AllOk ps
      → s ≡ length (flat_back ps)
      → Represents (record { pages = reverse ps; size = s }) (flat_back ps)
  Represents-reverse ps s h e = record {
    elements = flat-reverse ps;
    pages_ok = AllOk-reverse ps h;
    counted = e;
  }

  remove_last_page-pop :
      (ps : List (Page A)) (p : Page A) (items : List A) (s : ℕ)
      → AllOk ps
      → 0 < length items
      → length items ≤ p.cap
      → s + 1 ≡ length (flat_back ps ++ items)
      → Ends (Popped (Spec.pop (flat_back ps ++ items))) (remove_last_page ps p items s)
  unfolding remove_last_page
  remove_last_page-pop ps p [] s h lt fits es = absurd (omega arith)
  remove_last_page-pop ps p (x ∷ []) s h lt fits es =
      rw (pop_snoc (flat_back ps) x)
        (refl, Represents-reverse ps s h (omega (arith, length-append (flat_back ps) (x ∷ []))))
  remove_last_page-pop ps p (x ∷ y ∷ ys) s h lt fits es =
      let init : List A = (split_last x (y ∷ ys)).0 in
      let last : A = (split_last x (y ∷ ys)).1 in
      let cut : init ++ last ∷ [] ≡ x ∷ y ∷ ys = split_last_lem x (y ∷ ys) in
      let len : suc (length init) ≡ length (x ∷ y ∷ ys) =
        omega (arith, ap length cut, length-append init (last ∷ [])) in
      rw
        (
          ← cut,
          ← append_assoc (flat_back ps) init (last ∷ []),
          pop_snoc (flat_back ps ++ init) last,
        )
        (
          refl,
          Represents-reverse (record p { items = init } ∷ ps) s ((omega arith, omega arith), h)
              (omega (
                arith,
                length-append (flat_back ps) init,
                length-append (flat_back ps) (x ∷ y ∷ ys),
              )),
        )

  remove_last_from-pop :
      (ps : List (Page A)) (s : ℕ)
      → AllOk ps
      → s + 1 ≡ length (flat_back ps)
      → Ends (Popped (Spec.pop (flat_back ps))) (remove_last_from ps s)
  unfolding remove_last_from
  remove_last_from-pop [] s h es = absurd (omega arith)
  remove_last_from-pop (p ∷ ps) s (hp, hps) es =
      remove_last_page-pop ps p p.items s hps hp.0 hp.1 es

  -- On a quick list that represents `xs`, `RemoveLast` takes out the last element and returns it, or
  -- nil if there is none.
  pub remove_last-pop :
      (ql : QuickList A) (xs : List A)
      → Represents ql xs
      → Ends (Popped (Spec.pop xs)) (remove_last ql)
  unfolding remove_last
  remove_last-pop ql [] h = rw (size_test ql [] h) (refl, h)
  remove_last-pop ql (x ∷ xs) h =
      let same : flat_back (reverse ql.pages) ≡ x ∷ xs = flat_back-reverse ql.pages ∙ h.elements in
      rw (size_test ql (x ∷ xs) h) (
        subst (λ t. Ends (Popped (Spec.pop t)) (remove_last_from (reverse ql.pages) (ql.size - 1)))
          same
          (remove_last_from-pop (reverse ql.pages) (ql.size - 1) (AllOk-reverse ql.pages h.pages_ok)
            (omega (arith, h.counted, ap length same))))
