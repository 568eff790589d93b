-- ===== src/QuickList/Find.antt =====
-- datastruct/list/quicklist.go: `find` from either end stands at the index that was asked for.
use godis.Base.{
  ℕ, ◌+◌, ◌-◌, ◌/◌, some, ◌≤◌, ◌<◌, ◌≡◌, refl, sym, ap, inl, inr, false, List, [], ◌∷◌, ◌++◌,
  reverse, append_assoc, append-nil, arith, ltb, leb, length, length-append, take, drop,
  take-append-drop, length-take, length-drop, append_parts, Bool-cases, ◌∙◌, tests, leb→le,
}
use mathlib.Core.List.{reverse-cons}
use godis.Base.Int.{sub_ℕ, pos}
use godis.Base.Outcome.{Ends, panics}
use godis.QuickList.{Page, QuickList, from_front, from_back, find}
use godis.QuickList.View.{flat, flat_back, PageOk, AllOk, Represents, At, inside}

sub_ℕ_le : (a b : ℕ) → b ≤ a → sub_ℕ a b ≡ pos (a - b)
sub_ℕ_le a b h = ground arith

module _ {A : Type 0} where
  -- A page, cut at `n` items.
  page_split :
      (p : Page A) (n : ℕ) → p ≡ record { items = take n p.items ++ drop n p.items; cap = p.cap }
  page_split p n = λ i. record { items = sym (take-append-drop n p.items) i; cap = p.cap }

  ne_of_pos : {xs ys : List A} → 0 < length xs → xs ≡ [] → ys ≡ []
  ne_of_pos h e = absurd (omega (arith, ap length e))

  -- Standing `n` items inside the page `p` is standing at `length (flat_back b) + n`.
  At-page :
      (b : List (Page A)) (p : Page A) (a : List (Page A)) (xs : List A) (n i s : ℕ)
      → AllOk b
      → PageOk p
      → AllOk a
      → xs ≡ flat_back b ++ (p.items ++ flat a)
      → n < length p.items
      → length (flat_back b) + n ≡ i
      → s ≡ length xs
      → At
          (record { before = b; node = some p; after = a; offset = pos n; size = s })
          (take i xs)
          (drop i xs)
  At-page b p a xs n i s hb hp ha ex lt e es =
      let l : List A = take n p.items in
      let r : List A = drop n p.items in
      let cut : p.items ++ flat a ≡ l ++ (r ++ flat a) =
        ap (λ t. t ++ flat a) (sym (take-append-drop n p.items)) ∙ append_assoc l r (flat a) in
      let whole : xs ≡ (flat_back b ++ l) ++ (r ++ flat a) =
        ex ∙ ap (λ t. flat_back b ++ t) cut ∙ sym (append_assoc (flat_back b) l (r ++ flat a)) in
      let count : length xs ≡ length (flat_back b) + length l + length r + length (flat a) = omega (
        arith,
        ap length whole,
        length-append (flat_back b ++ l) (r ++ flat a),
        length-append (flat_back b) l,
        length-append r (flat a),
      ) in
      let parts : (flat_back b ++ l ≡ take i xs) × (r ++ flat a ≡ drop i xs) =
        append_parts (flat_back b ++ l) (r ++ flat a) xs i whole
          (omega (arith, length-append (flat_back b) l, length-take n p.items)) in
      inside b l r p.cap a n s
        (record {
          at_offset = omega (arith, length-take n p.items);
          before_ok = hb;
          after_ok = ha;
          page_ok = rw take-append-drop hp;
          at_stop = λ z. absurd (omega (arith, ap length z, length-drop n p.items));
          counted = es ∙ count;
        })
        (λ j. record {
          before = b;
          node = some (page_split p n j);
          after = a;
          offset = pos n;
          size = s;
        })
        parts.0 parts.1

  from_front_lem :
      (s i beg : ℕ) (b ps : List (Page A)) (xs : List A)
      → AllOk b
      → AllOk ps
      → xs ≡ flat_back b ++ flat ps
      → beg ≡ length (flat_back b)
      → beg ≤ i
      → i < length xs
      → s ≡ length xs
      → Ends (λ it. At it (take i xs) (drop i xs)) (from_front s i beg b ps)
  unfolding from_front
  from_front_lem s i beg b [] xs hb hp ex e le lt es =
      absurd (omega (arith, ap length ex, length-append (flat_back b) []))
  from_front_lem s i beg b (p ∷ ps) xs hb (hp, hps) ex e le lt es =
      elim (Bool-cases (ltb i (beg + length p.items))) [
        | inl here ↦ rw here (
            rw (sub_ℕ_le i beg le)
              (At-page b p ps xs (i - beg) i s hb hp hps ex (omega (tests, here)) (omega arith) es))
        | inr on ↦ rw on (
            from_front_lem s i (beg + length p.items) (p ∷ b) ps xs (hp, hb) hps
              (ex ∙ sym (append_assoc (flat_back b) p.items (flat ps)))
              (omega (arith, length-append (flat_back b) p.items)) (ground arith) lt es)
      ]

  from_back_lem :
      (s i end : ℕ) (a ps : List (Page A)) (xs : List A)
      → AllOk ps
      → AllOk a
      → xs ≡ flat_back ps ++ flat a
      → end ≡ length (flat_back ps)
      → i < end
      → s ≡ length xs
      → Ends (λ it. At it (take i xs) (drop i xs)) (from_back s i end a ps)
  unfolding from_back
  from_back_lem s i end a [] xs hp ha ex e lt es = absurd (omega arith)
  from_back_lem s i end a (p ∷ ps) xs (hp, hps) ha ex e lt es =
      elim (Bool-cases (leb end (i + length p.items))) [
        | inl here ↦ rw here (
            (At-page ps p a xs (i + length p.items - end) i s hps hp ha
              (ex ∙ append_assoc (flat_back ps) p.items (flat a)) (omega arith)
              (omega (arith, leb→le _ _ here, length-append (flat_back ps) p.items)) es))
        | inr on ↦ rw on (
            from_back_lem s i (end - length p.items) (p ∷ a) ps xs hps (hp, ha)
              (ex ∙ append_assoc (flat_back ps) p.items (flat a))
              (omega (arith, length-append (flat_back ps) p.items)) (ground arith) es)
      ]

  flat_back-append :
      (ps : List (Page A)) (q : Page A) → flat_back (ps ++ q ∷ []) ≡ q.items ++ flat_back ps
  flat_back-append [] q = sym (append-nil q.items)
  flat_back-append (p ∷ ps) q =
      ap (λ t. t ++ p.items) (flat_back-append ps q) ∙ append_assoc q.items (flat_back ps) p.items

  AllOk-append : (ps : List (Page A)) (q : Page A) → AllOk ps → PageOk q → AllOk (ps ++ q ∷ [])
  AllOk-append [] q h hq = (hq, tt)
  AllOk-append (p ∷ ps) q (h, hs) hq = (h, AllOk-append ps q hs hq)

  pub flat_back-reverse : (ps : List (Page A)) → flat_back (reverse ps) ≡ flat ps
  flat_back-reverse [] = refl
  flat_back-reverse (p ∷ ps) =
      rw reverse-cons
        (flat_back-append (reverse ps) p ∙ ap (λ t. p.items ++ t) (flat_back-reverse ps))

  pub AllOk-reverse : (ps : List (Page A)) → AllOk ps → AllOk (reverse ps)
  AllOk-reverse [] h = tt
  AllOk-reverse (p ∷ ps) (h, hs) =
      rw reverse-cons (AllOk-append (reverse ps) p (AllOk-reverse ps hs) h)

  -- Inside the list, from whichever end it searches, `find` returns an iterator at the index.
  pub find-At :
      (ql : QuickList A) (xs : List A) (i : ℕ)
      → Represents ql xs
      → i < length xs
      → Ends (λ it. At it (take i xs) (drop i xs)) (find ql (pos i))
  unfolding find
  find-At ql xs i h lt =
      let inside_size : leb ql.size i ≡ false = ground (arith, h.counted) in
      rw inside_size (elim (Bool-cases (ltb i (ql.size / 2))) [
        | inl front ↦ rw front (
            from_front_lem ql.size i 0 [] ql.pages xs tt h.pages_ok (sym h.elements) refl
              (omega arith) lt h.counted)
        | inr back ↦ rw back (
            from_back_lem ql.size i ql.size [] (reverse ql.pages) xs (AllOk-reverse _ h.pages_ok) tt
              (sym (append-nil _ ∙ flat_back-reverse ql.pages ∙ h.elements))
              (h.counted ∙ ap length (sym (flat_back-reverse ql.pages ∙ h.elements)))
              (omega (arith, h.counted)) h.counted)
      ])

  -- Outside the list it panics.
  pub find_outside :
      (ql : QuickList A) (xs : List A) (i : ℕ)
      → Represents ql xs
      → length xs ≤ i
      → find ql (pos i) ≡ panics
  unfolding find
  find_outside ql xs i h le = ground (arith, h.counted)
