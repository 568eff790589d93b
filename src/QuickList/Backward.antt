-- ===== src/QuickList/Backward.antt =====
-- datastruct/list/quicklist.go: the loop that goes backward over the list.
use godis.Base.{
  Bool, ℕ, zero, suc, ◌+◌, ◌<◌, ◌≡◌, refl, sym, subst, ap, ◌∙◌, inl, inr, true, false, List, [],
  ◌∷◌, ◌++◌, append_assoc, append-nil, arith, length, length-append, Bool-cases, ◌==◌, reverse,
  snoc_view, append_parts,
}
use mathlib.Core.Path.{subst₂}
use mathlib.Core.List.{reverse-append, reverse-cons, reverse-reverse}
use godis.Base.Int.{pos, sub_ℕ}
use godis.Base.Outcome.{Outcome, Ends, Ends-bind, Ends-map, returns, panics, ◌>>=◌}
use godis.QuickList.{Page, QuickList, Iterator, list_of, find, prev, at_begin}
use godis.QuickList.Ops.{remove_item}
use godis.QuickList.Scan.{reverse_remove_loop, reverse_remove_by_val}
use godis.QuickList.Spec
use godis.QuickList.Spec.{discard}
use godis.QuickList.View.{
  flat, flat_back, Represents, Sound, cursor, At, inside, emptied, At-Represents,
}
use godis.QuickList.Find.{find-At}
use godis.QuickList.Steps.{item-At, At-items, remove_item-At}
use godis.QuickList.Sweep.{Removed, size_test}

module _ {A : Type 0} where
  -- The iterator has passed the first element: `atBegin`.
  record Begun (it : Iterator A) (ys : List A) : Type 0 where
    stops : at_begin it ≡ true
    holds : Represents (list_of it) ys

  -- After `prev` from behind the elements `xs`: at the last of them, or before the first.
  abbrev Back : Iterator A → List A → List A → Type 0
  Back it [] ys = Begun it ys
  Back it (x ∷ xs) ys = record {
    init : List A;
    last : A;
    eq : x ∷ xs ≡ init ++ last ∷ [];
    at : At it init (last ∷ ys);
  }

  -- In a reversed list, the elements that have been passed are at the front.
  Back-snoc :
      (it : Iterator A) (xs init ys : List A) (last : A)
      → xs ≡ init ++ last ∷ []
      → At it init (last ∷ ys)
      → Back it xs ys
  Back-snoc it [] [] ys last e h = absurd (cc)
  Back-snoc it [] (z ∷ init) ys last e h = absurd (cc)
  Back-snoc it (x ∷ xs) init ys last e h = record { init = init; last = last; eq = e; at = h }

  snoc_of_pos :
      (xs : List A)
      → 0 < length xs
      → record { init : List A; last : A; eq : xs ≡ init ++ last ∷ [] }
  snoc_of_pos [] h = absurd (omega arith)
  snoc_of_pos (x ∷ xs) h = snoc_view x xs

  -- One step back inside the page.
  prev_inside :
      (b : List (Page A)) (init : List A) (last : A) (l r : List A) (c : ℕ) (a : List (Page A))
      (o s : ℕ)
      → Sound b l r c a o s
      → l ≡ init ++ last ∷ []
      → At (prev (cursor b l r c a o s)).1 (flat_back b ++ init) (last ∷ (r ++ flat a))
  unfolding prev
  prev_inside b init last l r c a o s h e =
      let len : length l ≡ suc (length init) =
        omega (arith, ap length e, length-append init (last ∷ [])) in
      let at : o ≡ suc (length init) = omega (arith, h.at_offset) in
      let items : init ++ (last ∷ r) ≡ l ++ r =
        sym (append_assoc init (last ∷ []) r) ∙ ap (λ t. t ++ r) (sym e) in
      rw at (
        At-items b init (last ∷ r) (l ++ r) c a (length init) s items refl h.before_ok h.after_ok
          h.page_ok (λ w. absurd (cc)) (omega (arith, h.counted)))

  -- One step back to the last item of the page before.
  prev_outside :
      (t : Page A) (b : List (Page A)) (init : List A) (last : A) (r : List A) (c : ℕ)
      (a : List (Page A)) (s : ℕ)
      → Sound (t ∷ b) [] r c a 0 s
      → t.items ≡ init ++ last ∷ []
      → At (prev (cursor (t ∷ b) [] r c a 0 s)).1 (flat_back b ++ init) (last ∷ (r ++ flat a))
  unfolding prev
  prev_outside t b init last r c a s h e =
      let len : length t.items ≡ suc (length init) =
        omega (arith, ap length e, length-append init (last ∷ [])) in
      let at : sub_ℕ (length t.items) 1 ≡ pos (length init) = ground arith in
      rw at (
        At-items b init (last ∷ []) t.items t.cap (record { items = r; cap = c } ∷ a) (length init)
          s (sym e) refl h.before_ok.1 (h.page_ok, h.after_ok) h.before_ok.0 (λ w. absurd (cc))
          (omega (arith, h.counted, length-append (flat_back b) t.items, length-append r (flat a))))

  -- From the first element of the list the step back leads before it.
  prev-Begun :
      (r : List A) (c : ℕ) (a : List (Page A)) (s : ℕ)
      → Sound [] [] r c a 0 s
      → Begun (prev (cursor [] [] r c a 0 s)).1 (r ++ flat a)
  unfolding prev at_begin list_of
  prev-Begun r c a s h = record {
    stops = refl;
    holds = record {
      elements = refl;
      pages_ok = (h.page_ok, h.after_ok);
      counted = omega (arith, h.counted, length-append r (flat a));
    };
  }

  prev-Back : {it : Iterator A} (xs ys : List A) → At it xs ys → Back (prev it).1 xs ys
  prev-Back xs ys (inside b (x ∷ l) r c a o s h e p q) =
      let v = snoc_view x l in
      rw (e, ← q)
        (Back-snoc _ xs (flat_back b ++ v.init) (r ++ flat a) v.last
          (sym p
            ∙ ap (λ t. flat_back b ++ t) v.eq
            ∙ sym (append_assoc (flat_back b) v.init (v.last ∷ [])))
          (prev_inside b v.init v.last (x ∷ l) r c a o s h v.eq))
  prev-Back xs ys (inside [] [] r c a zero s h e p q) = rw (e, ← p, ← q) (prev-Begun r c a s h)
  prev-Back xs ys (inside [] [] r c a (suc o) s h e p q) = absurd (omega (arith, h.at_offset))
  prev-Back xs ys (inside (t ∷ b) [] r c a zero s h e p q) =
      let v = snoc_of_pos t.items h.before_ok.0.0 in
      rw (e, ← q)
        (Back-snoc _ xs (flat_back b ++ v.init) (r ++ flat a) v.last
          (sym p
            ∙ append-nil _
            ∙ ap (λ t. flat_back b ++ t) v.eq
            ∙ sym (append_assoc (flat_back b) v.init (v.last ∷ [])))
          (prev_outside t b v.init v.last r c a s h v.eq))
  prev-Back xs ys (inside (t ∷ b) [] r c a (suc o) s h e p q) = absurd (omega (arith, h.at_offset))
  prev-Back xs ys (emptied e p q) =
      rw (e, p, q)
        (record {
          stops = unfold prev at_begin in refl;
          holds = unfold prev list_of in record { elements = refl; pages_ok = tt; counted = refl };
        })

  at_begin-At :
      {it : Iterator A} (xs : List A) (y : A) (ys : List A)
      → At it xs (y ∷ ys)
      → at_begin it ≡ false
  unfolding at_begin
  at_begin-At xs y ys (inside [] l r c a o s h e p q) = rw e
  at_begin-At xs y ys (inside (t ∷ b) l r c a o s h e p q) = rw e
  at_begin-At xs y ys (emptied e p q) = absurd (cc)

module _ {A : Type 0} (expected : A → Bool) (count : ℕ) where
  -- What the loop leaves before the elements `ys` that it has passed; it met the others in reverse.
  AfterBack : List A → ℕ × List A → ℕ × Iterator A → Type 0
  AfterBack ys (n, zs) (m, it) = (m ≡ n) × Represents (list_of it) (reverse zs ++ ys)

  AfterBack-keep :
      (ys : List A) (y : A) (d d' : ℕ × List A) (r : Outcome (ℕ × Iterator A))
      → d' ≡ (d.0, y ∷ d.1)
      → Ends (AfterBack (y ∷ ys) d) r
      → Ends (AfterBack ys d') r
  unfolding AfterBack
  AfterBack-keep ys y d d' (returns t) e h = rw e (
    h.0,
    subst (Represents (list_of t.1))
        (sym (append_assoc (reverse d.1) (y ∷ []) ys)
          ∙ ap (λ t. t ++ ys) (sym (reverse-cons y d.1)))
        h.1,
  )
  AfterBack-keep ys y d d' panics e h = h

  reversed :
      (x : A) (xs init : List A) (last : A)
      → x ∷ xs ≡ init ++ last ∷ []
      → reverse (x ∷ xs) ≡ last ∷ reverse init
  reversed x xs init last e = ap reverse e ∙ reverse-append init (last ∷ [])

  reverse_remove_loop-AfterBack :
      (fuel : ℕ) (it : Iterator A) (k : ℕ) (xs ys : List A)
      → Back it xs ys
      → length xs < fuel
      → Ends
          (AfterBack ys (discard expected count k (reverse xs)))
          (reverse_remove_loop expected fuel count it k)
  unfolding reverse_remove_loop
  reverse_remove_loop-AfterBack zero it k xs ys h lt = absurd (omega arith)
  reverse_remove_loop-AfterBack (suc fuel) it k [] ys h lt =
      rw (h.stops, Ends, reverse_remove_loop) (unfold AfterBack in (refl, h.holds))
  reverse_remove_loop-AfterBack (suc fuel) it k (x ∷ xs) ys h lt =
      let init = h.init in
      let y = h.last in
      let len : length (x ∷ xs) ≡ suc (length init) =
        omega (arith, ap length h.eq, length-append init (y ∷ [])) in
      rw (reversed x xs init y h.eq) (
        rw (at_begin-At init y ys h.at, Ends, reverse_remove_loop)
          (rw (item-At init y ys h.at, Ends, ◌>>=◌)
            (elim (Bool-cases (expected y)) [
              | inl hit ↦ rw hit (
                  Ends-bind (λ t. (t.0 ≡ y) × At t.1 init ys) _ (remove_item it) _
                    (remove_item-At init y ys h.at)
                    λ t (e, h'). elim (Bool-cases (k + 1 == count)) [
                      | inl full ↦
                          rw (full, hit)
                            (unfold AfterBack in (refl, rw reverse-reverse (At-Represents h')))
                      | inr room ↦
                          rw (room, hit)
                            (reverse_remove_loop-AfterBack fuel (prev t.1).1 (k + 1) init ys
                              (prev-Back init ys h') (omega arith))
                    ])
              | inr miss ↦ rw miss (
                  AfterBack-keep ys y _ _ _ (rw miss) (
                    reverse_remove_loop-AfterBack fuel (prev it).1 k init (y ∷ ys)
                      (prev-Back init (y ∷ ys) h.at) (omega arith)))
            ])))

  find_last :
      (ql : QuickList A) (xs : List A)
      → Represents ql xs
      → 0 < length xs
      → Ends (λ it. Back it xs []) (find ql (sub_ℕ ql.size 1))
  find_last ql xs h lt =
      let v = snoc_of_pos xs lt in
      let len : length xs ≡ suc (length v.init) =
        omega (arith, ap length v.eq, length-append v.init (v.last ∷ [])) in
      let at : sub_ℕ ql.size 1 ≡ pos (length v.init) = ground (arith, h.counted) in
      let parts = append_parts v.init (v.last ∷ []) xs (length v.init) v.eq refl in
      rw at (
        Ends-map _ _ (find ql (pos (length v.init))) (find-At ql xs (length v.init) h (omega arith))
          λ it found.
            Back-snoc it xs v.init [] v.last v.eq
              (subst₂ (At it) (sym parts.0) (sym parts.1) found))

  -- On a quick list that represents `xs`, `ReverseRemoveByVal` takes out the last `count` elements that `expected` accepts, all of them if
  -- `count` is 0, and returns their number; the other elements keep their order.
  pub reverse_remove_by_val-Removed :
      (ql : QuickList A) (xs : List A)
      → Represents ql xs
      → Ends
          (Removed (Spec.discard_last expected count xs))
          (reverse_remove_by_val expected ql count)
  unfolding reverse_remove_by_val AfterBack
  reverse_remove_by_val-Removed ql [] h = rw (size_test ql [] h) (refl, h)
  reverse_remove_by_val-Removed ql (x ∷ xs) h = rw (size_test ql (x ∷ xs) h) (
      Ends-bind (λ it. Back it (x ∷ xs) []) _ (find ql (sub_ℕ ql.size 1)) _
        (find_last ql (x ∷ xs) h (omega arith))
        λ it back.
          Ends-bind (AfterBack [] (discard expected count 0 (reverse (x ∷ xs)))) _ _ _
            (reverse_remove_loop-AfterBack (ql.size + 1) it 0 (x ∷ xs) [] back
              (omega (arith, h.counted)))
            λ t (n, r). (n, rw append-nil at r))
