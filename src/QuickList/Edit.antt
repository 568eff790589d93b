-- ===== src/QuickList/Edit.antt =====
-- datastruct/list/quicklist.go: reading, writing and inserting agree with a plain list.
use godis.Base.{
  ℕ, ◌<◌, ◌≤◌, ◌≡◌, refl, ap, ◌∙◌, subst, inl, inr, true, false, List, [], ◌∷◌, ◌++◌, none, some,
  append_assoc, arith, length, take, drop, set, Bool-cases, ltb, leb, ◌==◌, get_elem?,
  get_elem?-out, length-append, drop_view, take-length, drop-length, set-length, set-drop, take-all,
  drop-all,
}
use godis.Base.Int.{ℤ, pos, negsuc}
use godis.Base.Outcome.{Outcome, Ends, Ends-bind, Agrees, returns, panics, ◌>>=◌}
use godis.QuickList.{Page, QuickList, Iterator, list_of, find, index_page}
use godis.QuickList.Ops.{get, set_item, set_at, add, insert_here, insert_at, insert_page}
use godis.QuickList.Spec
use godis.Base.Outcome
use godis.QuickList.View.{
  flat, flat_back, Represents, Sound, cursor, At, inside, emptied, At-Represents, flat-rebuild,
  AllOk-rebuild,
}
use godis.QuickList.Find.{find-At, find_outside}
use godis.QuickList.Steps.{
  item-At, At-items, first_page, cons_ne_nil, head_eq, tail_eq, get_elem?-at,
}
use godis.QuickList.Insert.{Enough, flat-add_to, add_to-AllOk, flat-insert_page, insert_page-AllOk}

module _ {A : Type 0} where
  -- Where `find` arrives: at an element of the list, or nowhere.
  pub data Found (ql : QuickList A) (xs : List A) (i : ℕ) : Type 0 where
    present :
        (y : A) (ys : List A)
        → i < length xs
        → drop i xs ≡ y ∷ ys
        → get_elem? xs i ≡ some y
        → Ends (λ it. At it (take i xs) (y ∷ ys)) (find ql (pos i))
        → Found ql xs i
    absent : length xs ≤ i → get_elem? xs i ≡ none → find ql (pos i) ≡ panics → Found ql xs i

  pub find-Found : (ql : QuickList A) (xs : List A) (i : ℕ) → Represents ql xs → Found ql xs i
  find-Found ql xs i h = elim (Bool-cases (ltb i (length xs))) [
    | inl lt ↦
        let v = drop_view xs i (ground arith) in
        present v.mid v.rest (ground arith) v.eq v.found (
          subst (λ t. Ends (λ it. At it (take i xs) t) (find ql (pos i))) v.eq
            (find-At ql xs i h (ground arith)))
    | inr ge ↦
        absent (ground arith) (get_elem?-out xs i (ground arith))
          (find_outside ql xs i h (ground arith))
  ]

  get-Found :
      (ql : QuickList A) (xs : List A) (i : ℕ)
      → Found ql xs i
      → get ql (pos i) ≡ Spec.get_at xs (pos i)
  unfolding get
  get-Found ql xs i (present y ys lt e g r) =
      rw (g, Spec.get_at)
        (Outcome.Ends→eq y _ (
          Ends-bind (λ it. At it (take i xs) (y ∷ ys)) _ (find ql (pos i)) _ r
            λ it at. Outcome.eq→Ends y _ (item-At (take i xs) y ys at)))
  get-Found ql xs i (absent le g r) = rw (g, Spec.get_at) (rw r)

  -- On a quick list that represents `xs`, `Get` returns the element of `xs` at the index, and panics
  -- where there is none.
  pub get-eq-get_at :
      (ql : QuickList A) (xs : List A) (index : ℤ)
      → Represents ql xs
      → get ql index ≡ Spec.get_at xs index
  get-eq-get_at ql xs (negsuc i) h = unfold get find in refl
  get-eq-get_at ql xs (pos i) h = get-Found ql xs i (find-Found ql xs i h)

  set_cursor :
      (b : List (Page A)) (l r : List A) (x v : A) (c : ℕ) (a : List (Page A)) (o s : ℕ)
      → o ≡ length l
      → set_item (cursor b l (x ∷ r) c a o s) v ≡ returns (cursor b l (v ∷ r) c a o s)
  unfolding set_item
  set_cursor b l r x v c a o s h =
      let write : set (l ++ x ∷ r) o v ≡ l ++ v ∷ r = rw h (set-length l r x v) in
      rw (get_elem?-at l r x o h, index_page) (rw write)

  -- Writing at an iterator replaces the element that it stands at.
  set_item-At :
      {it : Iterator A} (xs : List A) (y v : A) (ys : List A)
      → At it xs (y ∷ ys)
      → Ends (λ it'. Represents (list_of it') (xs ++ v ∷ ys)) (set_item it v)
  set_item-At xs y v ys (inside b l [] c a o s h e p q) = absurd (first_page a q (h.at_stop refl))
  set_item-At xs y v ys (inside b l (x ∷ r) c a o s h e p q) =
      rw (e, set_cursor b l r x v c a o s h.at_offset, ← p, ← tail_eq q)
        (At-Represents (
          At-items b l (v ∷ r) (l ++ v ∷ r) c a o s refl h.at_offset h.before_ok h.after_ok
            (omega (arith, h.page_ok, length-append l (x ∷ r), length-append l (v ∷ r)))
            (λ w. absurd (cons_ne_nil w)) h.counted))
  set_item-At xs y v ys (emptied e p q) = absurd (cons_ne_nil q)

  set_at-Found :
      (ql : QuickList A) (xs : List A) (i : ℕ) (v : A)
      → Found ql xs i
      → Agrees Represents (set_at ql (pos i) v) (Spec.set_at xs (pos i) v)
  unfolding set_at
  set_at-Found ql xs i v (present y ys lt e g r) =
      let in_range : ltb i (length xs) ≡ true = ground arith in
      rw (in_range) (
        Outcome.Ends→Agrees Represents (set xs i v) _ (
          rw (set-drop xs i v y ys e) (
            Ends-bind (λ it. At it (take i xs) (y ∷ ys)) _ (find ql (pos i)) _ r
              λ it at.
                Ends-bind (λ it'. Represents (list_of it') (take i xs ++ v ∷ ys)) _ (set_item it v)
                  _ (set_item-At (take i xs) y v ys at) λ it' h. h)))
  set_at-Found ql xs i v (absent le g r) =
      let out : ltb i (length xs) ≡ false = ground arith in rw (out, r) tt

  -- On a quick list that represents `xs`, `Set` gives one that represents `xs` with the element at the
  -- index replaced, and panics where there is none.
  pub set_at-Agrees :
      (ql : QuickList A) (xs : List A) (index : ℤ) (v : A)
      → Represents ql xs
      → Agrees Represents (set_at ql index v) (Spec.set_at xs index v)
  set_at-Agrees ql xs (negsuc i) v h = unfold set_at find in tt
  set_at-Agrees ql xs (pos i) v h = set_at-Found ql xs i v (find-Found ql xs i h)

module _ {A : Type 0} (grow : ℕ → ℕ → ℕ) (enough : Enough grow) where
  -- On a quick list that represents `xs`, `Add` gives one that represents `xs` with the value behind it,
  -- whatever capacity the runtime chooses that is enough.
  pub add-Represents :
      (ql : QuickList A) (xs : List A) (v : A)
      → Represents ql xs
      → Represents (add grow ql v) (xs ++ v ∷ [])
  unfolding add
  add-Represents ql xs v h = record {
    elements = flat-add_to grow enough ql.pages v ∙ ap (λ t. t ++ v ∷ []) h.elements;
    pages_ok = add_to-AllOk grow enough ql.pages v h.pages_ok;
    counted = omega (arith, h.counted, length-append xs (v ∷ []));
  }

  insert_cursor :
      (b : List (Page A)) (l r : List A) (x v : A) (c : ℕ) (a : List (Page A)) (o s : ℕ)
      → Sound b l (x ∷ r) c a o s
      → Ends
          (λ ql. Represents ql ((flat_back b ++ l) ++ v ∷ (x ∷ r ++ flat a)))
          (insert_here grow (cursor b l (x ∷ r) c a o s) v)
  unfolding insert_here
  insert_cursor b l r x v c a o s h =
      let p : Page A = record { items = l ++ x ∷ r; cap = c } in
      let lt : o < length (l ++ x ∷ r) = omega (arith, h.at_offset, length-append l (x ∷ r)) in
      let cut : take o (l ++ x ∷ r) ++ v ∷ drop o (l ++ x ∷ r) ≡ l ++ v ∷ x ∷ r =
        rw (h.at_offset, take-length, drop-length) in
      record {
        elements =
            flat-rebuild b (insert_page grow p a o v)
            ∙ ap (λ t. flat_back b ++ t) (flat-insert_page grow enough p a o v lt)
            ∙ ap (λ t. flat_back b ++ (t ++ flat a)) cut
            ∙ simp append_assoc;
        pages_ok =
            AllOk-rebuild b _ h.before_ok
              (insert_page-AllOk grow enough p a o v h.page_ok h.after_ok lt);
        counted = omega (
          arith,
          h.counted,
          length-append (flat_back b ++ l) (v ∷ (x ∷ r ++ flat a)),
          length-append (flat_back b) l,
          length-append r (flat a),
        );
      }

  insert_here-At :
      {it : Iterator A} (xs : List A) (y v : A) (ys : List A)
      → At it xs (y ∷ ys)
      → Ends (λ ql. Represents ql (xs ++ v ∷ y ∷ ys)) (insert_here grow it v)
  insert_here-At xs y v ys (inside b l [] c a o s h e p q) =
      absurd (first_page a q (h.at_stop refl))
  insert_here-At xs y v ys (inside b l (x ∷ r) c a o s h e p q) =
      rw (e, ← p, ← tail_eq q, ← head_eq q) (insert_cursor b l r x v c a o s h)
  insert_here-At xs y v ys (emptied e p q) = absurd (cons_ne_nil q)

  insert_at-Found :
      (ql : QuickList A) (xs : List A) (i : ℕ) (v : A)
      → Represents ql xs
      → Found ql xs i
      → Agrees Represents (insert_at grow ql (pos i) v) (Spec.insert_at xs (pos i) v)
  unfolding insert_at
  insert_at-Found ql xs i v h (present y ys lt e g r) =
      let in_range : leb i (length xs) ≡ true = ground arith in
      let not_size : (i == ql.size) ≡ false = ground (arith, h.counted) in
      rw (in_range, not_size)
        (Outcome.Ends→Agrees Represents (take i xs ++ v ∷ drop i xs) _ (
          rw e (
            Ends-bind (λ it. At it (take i xs) (y ∷ ys)) _ (find ql (pos i)) _ r
              λ it at. insert_here-At (take i xs) y v ys at)))
  insert_at-Found ql xs i v h (absent le g r) = elim (Bool-cases (i == ql.size)) [
    | inl end ↦
        let in_range : leb i (length xs) ≡ true = ground (arith, h.counted) in
        rw (end, in_range, take-all i xs le, drop-all i xs le) (add-Represents ql xs v h)
    | inr beyond ↦
        let out : leb i (length xs) ≡ false = ground (arith, h.counted) in rw (beyond, out, r) tt
  ]

  -- On a quick list that represents `xs`, `Insert` gives one that represents `xs` with the value before
  -- the element at the index, or behind the last one at the index that is the size; it panics at
  -- any other index. The capacity that the runtime chooses is enough.
  pub insert_at-Agrees :
      (ql : QuickList A) (xs : List A) (index : ℤ) (v : A)
      → Represents ql xs
      → Agrees Represents (insert_at grow ql index v) (Spec.insert_at xs index v)
  insert_at-Agrees ql xs (negsuc i) v h = unfold insert_at find in tt
  insert_at-Agrees ql xs (pos i) v h = insert_at-Found ql xs i v h (find-Found ql xs i h)
