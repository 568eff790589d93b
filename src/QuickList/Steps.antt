-- ===== src/QuickList/Steps.antt =====
-- datastruct/list/quicklist.go: the methods of `iterator`, by where the iterator stands.
use godis.Base.{
  ℕ, suc, ◌+◌, ◌-◌, ◌<◌, ◌≤◌, ◌≡◌, refl, sym, ap, ◌∙◌, true, false, not, List, [], ◌∷◌, ◌++◌, some,
  append_assoc, append-nil, arith, length, length-append, ltb, ◌==◌, is_nil, get_elem?-length, take,
  drop, take-length, drop-suc-length, inl, inr, get_elem?, ◌⊎◌,
}
use native.Mathlib.Numerals.{add-one}
use godis.Base.Int.{pos}
use godis.Base.Outcome.{Ends, returns}
use godis.QuickList.{Page, Iterator, item, next, at_end, index_page}
use godis.QuickList.Ops.{remove_item, remove_from}
use godis.QuickList.View.{flat, flat_back, PageOk, AllOk, Sound, cursor, At, inside, emptied}

cons_or_nil :
    {A : Type 0} (xs : List A)
    → (xs ≡ []) ⊎ record { head : A; tail : List A; eq : xs ≡ head ∷ tail }
cons_or_nil [] = inl refl
cons_or_nil (x ∷ xs) = inr (record { head = x; tail = xs; eq = refl })

module _ {A : Type 0} where
  pub cons_ne_nil : {x : A} {xs : List A} → x ∷ xs ≡ [] → ⊥
  cons_ne_nil e = cc

  pages_ne : {x : Page A} {xs : List (Page A)} → x ∷ xs ≡ [] → ⊥
  pages_ne e = cc

  pub head_eq : {x y : A} {xs ys : List A} → x ∷ xs ≡ y ∷ ys → x ≡ y
  head_eq e = cc

  pub tail_eq : {x y : A} {xs ys : List A} → x ∷ xs ≡ y ∷ ys → xs ≡ ys
  tail_eq e = cc

  is_nil_page : (t : Page A) (a : List (Page A)) → PageOk t → is_nil (t.items ++ flat a) ≡ false
  is_nil_page t a h = elim (cons_or_nil t.items) [
    | inl e ↦ absurd (omega (arith, ap length e))
    | inr v ↦ rw v.eq
  ]

  pub get_elem?-at :
      (l r : List A) (x : A) (o : ℕ) → o ≡ length l → get_elem? (l ++ x ∷ r) o ≡ some x
  get_elem?-at l r x o h = rw (h, get_elem?-length l r x)

  -- Pages that are sound hold an element, unless there is none.
  pub first_page : {y : A} {ys : List A} (a : List (Page A)) → flat a ≡ y ∷ ys → a ≡ [] → ⊥
  first_page [] q e = cc
  first_page (p ∷ a) q e = cc

  snoc_offset : (o : ℕ) (l : List A) (x : A) → o ≡ length l → o + 1 ≡ length (l ++ x ∷ [])
  snoc_offset o l x h = omega (arith, length-append l (x ∷ []))

  -- At an element, `get` reads it and `atEnd` is false.
  pub item-At :
      {it : Iterator A} (xs : List A) (y : A) (ys : List A)
      → At it xs (y ∷ ys)
      → item it ≡ returns y
  unfolding item
  item-At xs y ys (inside b l [] c a o s h e p q) = absurd (first_page a q (h.at_stop refl))
  item-At xs y ys (inside b l (x ∷ r) c a o s h e p q) =
      rw e (rw (get_elem?-at l r x o h.at_offset, index_page) (ap returns (head_eq q)))
  item-At xs y ys (emptied e p q) = absurd (cons_ne_nil q)

  pub at_end-At : {it : Iterator A} (xs ys : List A) → At it xs ys → at_end it ≡ is_nil ys
  unfolding at_end
  at_end-At xs ys (inside b l [] c [] o s h e p q) =
      rw (e, ← q) (ground (arith, h.at_offset, length-append l []))
  at_end-At xs ys (inside b l [] c (t ∷ a) o s h e p q) = absurd (pages_ne (h.at_stop refl))
  at_end-At xs ys (inside b l (x ∷ r) c [] o s h e p q) =
      rw (e, ← q) (ground (arith, h.at_offset, length-append l (x ∷ r)))
  at_end-At xs ys (inside b l (x ∷ r) c (t ∷ a) o s h e p q) = rw (e, ← q)
  at_end-At xs ys (emptied e p q) = rw (e, q)

  -- The iterator one element further on the page `p`, in a page whose items are written otherwise.
  At-shift :
      (b : List (Page A)) (l r : List A) (x : A) (c : ℕ) (a : List (Page A)) (o s : ℕ)
      → Sound b l (x ∷ r) c a o s
      → (r ≡ [] → a ≡ [])
      → At (cursor b l (x ∷ r) c a (o + 1) s) ((flat_back b ++ l) ++ x ∷ []) (r ++ flat a)
  At-shift b l r x c a o s h stop =
      inside b (l ++ x ∷ []) r c a (o + 1) s
        (record {
          at_offset = snoc_offset o l x h.at_offset;
          before_ok = h.before_ok;
          after_ok = h.after_ok;
          page_ok = rw append_assoc h.page_ok;
          at_stop = stop;
          counted = omega (arith, h.counted, length-append l (x ∷ []));
        })
        (λ i. record {
          before = b;
          node = some (record { items = sym (append_assoc l (x ∷ []) r) i; cap = c });
          after = a;
          offset = pos (o + 1);
          size = s;
        })
        (sym (append_assoc (flat_back b) l (x ∷ []))) refl

  -- The iterator at the first item of a page.
  At-page_start :
      (b : List (Page A)) (q : Page A) (a : List (Page A)) (s : ℕ)
      → AllOk b
      → PageOk q
      → AllOk a
      → s ≡ length (flat_back b) + length q.items + length (flat a)
      → At
          (record { before = b; node = some q; after = a; offset = pos 0; size = s })
          (flat_back b)
          (q.items ++ flat a)
  At-page_start b q a s hb hq ha e =
      inside b [] q.items q.cap a 0 s
        (record {
          at_offset = refl;
          before_ok = hb;
          after_ok = ha;
          page_ok = hq;
          at_stop = λ z. absurd (omega (arith, ap length z));
          counted = omega arith;
        })
        refl (append-nil (flat_back b)) refl

  -- An iterator in a page whose items are those of `l` and `r`.
  pub At-items :
      (b : List (Page A)) (l r m : List A) (c : ℕ) (a : List (Page A)) (o s : ℕ)
      → l ++ r ≡ m
      → o ≡ length l
      → AllOk b
      → AllOk a
      → (0 < length m) × (length m ≤ c)
      → (r ≡ [] → a ≡ [])
      → s ≡ length (flat_back b) + length l + length r + length (flat a)
      → At
          (record {
            before = b;
            node = some (record { items = m; cap = c });
            after = a;
            offset = pos o;
            size = s;
          })
          (flat_back b ++ l)
          (r ++ flat a)
  At-items b l r m c a o s e ho hb ha hm stop hs =
      inside b l r c a o s
        (record {
          at_offset = ho;
          before_ok = hb;
          after_ok = ha;
          page_ok = rw e hm;
          at_stop = stop;
          counted = hs;
        })
        (λ i. record {
          before = b;
          node = some (record { items = sym e i; cap = c });
          after = a;
          offset = pos o;
          size = s;
        })
        refl refl

  removed_length :
      (l r : List A) (x : A) (m : List A) → l ++ r ≡ m → length (l ++ x ∷ r) ≡ suc (length m)
  removed_length l r x m e = omega (arith, ap length e, length-append l r, length-append l (x ∷ r))

  next_in_page :
      (o : ℕ) (l : List A) (x y : A) (r : List A)
      → o ≡ length l
      → ltb (o + 1) (length (l ++ x ∷ y ∷ r)) ≡ true
  next_in_page o l x y r h = ground (arith, length-append l (x ∷ y ∷ r))

  next_off_page :
      (o : ℕ) (l : List A) (x : A) → o ≡ length l → ltb (o + 1) (length (l ++ x ∷ [])) ≡ false
  next_off_page o l x h = ground (arith, length-append l (x ∷ []))

  -- `next` steps over one element, and says whether another follows.
  pub next-At :
      {it : Iterator A} (xs : List A) (y : A) (ys : List A)
      → At it xs (y ∷ ys)
      → Ends (λ t. (t.0 ≡ not (is_nil ys)) × At t.1 (xs ++ y ∷ []) ys) (next it)
  unfolding next
  next-At xs y ys (inside b l [] c a o s h e p q) = absurd (first_page a q (h.at_stop refl))
  next-At xs y ys (inside b l (x ∷ z ∷ r) c a o s h e p q) =
      rw (e, next_in_page o l x z r h.at_offset, ← p, ← tail_eq q, ← head_eq q)
        (refl, At-shift b l (z ∷ r) x c a o s h (λ w. absurd (cons_ne_nil w)))
  next-At xs y ys (inside b l (x ∷ []) c [] o s h e p q) =
      rw (e, next_off_page o l x h.at_offset, ← p, ← tail_eq q, ← head_eq q)
        (refl, rw (← snoc_offset o l x h.at_offset) (At-shift b l [] x c [] o s h (λ w. refl)))
  next-At xs y ys (inside b l (x ∷ []) c (t ∷ a) o s h e p q) =
      rw (e, next_off_page o l x h.at_offset, ← p, ← tail_eq q, ← head_eq q)
        (
          sym (ap not (is_nil_page t a h.after_ok.0)),
          rw append_assoc (
              At-page_start (record { items = l ++ x ∷ []; cap = c } ∷ b) t a s
                (h.page_ok, h.before_ok) h.after_ok.0 h.after_ok.1
                (omega (
                  arith,
                  h.counted,
                  length-append (flat_back b) (l ++ x ∷ []),
                  length-append l (x ∷ []),
                  length-append t.items (flat a),
                ))),
        )
  next-At xs y ys (emptied e p q) = absurd (cons_ne_nil q)

  -- What is left of a page after its first items: the rest of the elements moves up.
  remove_cut :
      (l r : List A) (x : A) (o : ℕ)
      → o ≡ length l
      → take o (l ++ x ∷ r) ++ drop (o + 1) (l ++ x ∷ r) ≡ l ++ r
  remove_cut l r x o h = rw (h, take-length, add-one, drop-suc-length)

  remove_cursor :
      (b : List (Page A)) (l r : List A) (x : A) (c : ℕ) (a : List (Page A)) (o s : ℕ)
      → o ≡ length l
      → remove_item (cursor b l (x ∷ r) c a o s)
        ≡ returns (
          x,
          remove_from
              (cursor b l (x ∷ r) c a o (s - 1))
              (record { items = l ++ x ∷ r; cap = c })
              o
              (l ++ r),
        )
  unfolding remove_item
  remove_cursor b l r x c a o s h =
      rw (get_elem?-at l r x o h, index_page) (rw (remove_cut l r x o h))

  -- The page is not empty after the removal.
  remove_from-keep :
      (b : List (Page A)) (l r m : List A) (x : A) (c : ℕ) (a : List (Page A)) (o s : ℕ)
      → Sound b l (x ∷ r) c a o s
      → (l ++ r ≡ m)
      → 0 < length m
      → At
          (remove_from
            (cursor b l (x ∷ r) c a o (s - 1))
            (record { items = l ++ x ∷ r; cap = c })
            o
            m)
          (flat_back b ++ l)
          (r ++ flat a)
  unfolding remove_from
  remove_from-keep b l r [] x c a o s h e lt = absurd (omega arith)
  remove_from-keep b l r (y ∷ m) x c [] o s h e lt =
      At-items b l r (y ∷ m) c [] o (s - 1) e h.at_offset h.before_ok tt
        (omega (arith, removed_length l r x (y ∷ m) e)) (λ z. refl) (omega (arith, h.counted))
  remove_from-keep b l [] (y ∷ m) x c (t ∷ a) o s h e lt =
      let len : length (y ∷ m) ≡ length l = omega (arith, ap length e, length-append l []) in
      let test : (o == length (y ∷ m)) ≡ true = ground (arith, h.at_offset) in
      let same : l ≡ y ∷ m = sym (append-nil l) ∙ e in
      rw test (
        rw same (
          At-page_start (record { items = y ∷ m; cap = c } ∷ b) t a (s - 1)
            (omega (arith, h.page_ok, length-append l (x ∷ [])), h.before_ok) h.after_ok.0
            h.after_ok.1
            (omega (
              arith,
              h.counted,
              length-append (flat_back b) (y ∷ m),
              length-append t.items (flat a),
            ))))
  remove_from-keep b l (z ∷ r) (y ∷ m) x c (t ∷ a) o s h e lt =
      let len : length (y ∷ m) ≡ length l + suc (length r) =
        omega (arith, ap length e, length-append l (z ∷ r)) in
      let test : (o == length (y ∷ m)) ≡ false = ground (arith, h.at_offset) in
      rw test (
        At-items b l (z ∷ r) (y ∷ m) c (t ∷ a) o (s - 1) e h.at_offset h.before_ok h.after_ok
          (omega (arith, h.page_ok, length-append l (x ∷ z ∷ r))) (λ w. absurd (cons_ne_nil w))
          (omega (arith, h.counted)))

  -- The page was the element's alone.
  remove_from-drop :
      (b : List (Page A)) (x : A) (c : ℕ) (a : List (Page A)) (o s : ℕ)
      → Sound b [] (x ∷ []) c a o s
      → At
          (remove_from
            (cursor b [] (x ∷ []) c a o (s - 1))
            (record { items = x ∷ []; cap = c })
            o
            [])
          (flat_back b ++ [])
          (flat a)
  unfolding remove_from
  remove_from-drop [] x c [] o s h = emptied (rw (h.counted)) refl refl
  remove_from-drop (t ∷ b) x c [] o s h = rw append-nil (
      At-items b t.items [] t.items t.cap [] (length t.items) (s - 1) (append-nil t.items) refl
        h.before_ok.1 tt h.before_ok.0 (λ w. refl)
        (omega (arith, h.counted, length-append (flat_back b) t.items)))
  remove_from-drop b x c (t ∷ a) o s h = rw append-nil (
      At-page_start b t a (s - 1) h.before_ok h.after_ok.0 h.after_ok.1
        (omega (arith, h.counted, length-append t.items (flat a))))

  -- `remove` returns the element that the iterator stands at, and takes it out of the list.
  pub remove_item-At :
      {it : Iterator A} (xs : List A) (y : A) (ys : List A)
      → At it xs (y ∷ ys)
      → Ends (λ t. (t.0 ≡ y) × At t.1 xs ys) (remove_item it)
  remove_item-At xs y ys (inside b l [] c a o s h e p q) = absurd (first_page a q (h.at_stop refl))
  remove_item-At xs y ys (inside b [] (x ∷ []) c a o s h e p q) =
      rw (e, remove_cursor b [] [] x c a o s h.at_offset, ← p, ← tail_eq q)
        (head_eq q, remove_from-drop b x c a o s h)
  remove_item-At xs y ys (inside b (z ∷ l) (x ∷ r) c a o s h e p q) =
      rw (e, remove_cursor b (z ∷ l) r x c a o s h.at_offset, ← p, ← tail_eq q)
        (head_eq q, remove_from-keep b (z ∷ l) r _ x c a o s h refl (omega arith))
  remove_item-At xs y ys (inside b [] (x ∷ z ∷ r) c a o s h e p q) =
      rw (e, remove_cursor b [] (z ∷ r) x c a o s h.at_offset, ← p, ← tail_eq q)
        (head_eq q, remove_from-keep b [] (z ∷ r) _ x c a o s h refl (omega arith))
  remove_item-At xs y ys (emptied e p q) = absurd (cons_ne_nil q)
