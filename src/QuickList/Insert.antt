-- ===== src/QuickList/Insert.antt =====
-- datastruct/list/quicklist.go: how `Add` and `Insert` change the pages.
use godis.Base.{
  ℕ, ◌+◌, ◌-◌, ◌<◌, ◌≤◌, ◌≡◌, refl, sym, ap, ◌∙◌, inl, inr, List, [], ◌∷◌, ◌++◌, append_assoc,
  append-nil, arith, length, take, drop, Bool-cases, ltb, ◌==◌, length-append, length-drop,
  length-take, length-set, take-append-drop, set-doubled, take-append_left, drop-append_left,
  take-append_right, drop-append_right, subst, ltb→lt,
}
use native.Mathlib.Numerals.{add-one}
use godis.QuickList.{Page, page_size, half_page}
use godis.QuickList.Ops.{append_items, new_page, add_to, insert_in, split_insert, insert_page}
use godis.QuickList.View.{flat, PageOk, AllOk}

-- An allocation by `append` has room for what is appended.
abbrev pub Enough : (ℕ → ℕ → ℕ) → Type 0
Enough grow = (old needed : ℕ) → needed ≤ grow old needed

page_sizes : (0 < half_page) × (half_page < page_size)
unfolding half_page page_size
page_sizes = omega arith

module _ {A : Type 0} (grow : ℕ → ℕ → ℕ) (enough : Enough grow) where
  items-append_items : (p : Page A) (xs : List A) → (append_items grow p xs).items ≡ p.items ++ xs
  unfolding append_items
  items-append_items p xs = refl

  append_items-PageOk :
      (p : Page A) (xs : List A) → 0 < length (p.items ++ xs) → PageOk (append_items grow p xs)
  unfolding append_items
  append_items-PageOk p xs h =
      (h, ground (arith, length-append p.items xs, enough p.cap (length p.items + length xs)))

  pub flat-add_to : (ps : List (Page A)) (v : A) → flat (add_to grow ps v) ≡ flat ps ++ v ∷ []
  unfolding add_to new_page append_items
  flat-add_to [] v = refl
  flat-add_to (p ∷ []) v = elim (Bool-cases (length p.items == p.cap)) [
    | inl full ↦ rw full (sym (ap (λ t. t ++ v ∷ []) (append-nil p.items)))
    | inr room ↦ rw room (rw (append-nil (p.items ++ v ∷ []), append-nil p.items) refl)
  ]
  flat-add_to (p ∷ q ∷ ps) v =
      ap (λ t. p.items ++ t) (flat-add_to (q ∷ ps) v) ∙ sym (append_assoc p.items _ (v ∷ []))

  pub add_to-AllOk : (ps : List (Page A)) (v : A) → AllOk ps → AllOk (add_to grow ps v)
  unfolding add_to new_page
  add_to-AllOk [] v h = ((omega arith, omega (arith, page_sizes)), tt)
  add_to-AllOk (p ∷ []) v (h, _) = elim (Bool-cases (length p.items == p.cap)) [
    | inl full ↦ rw full (h, ((omega arith, omega (arith, page_sizes)), tt))
    | inr room ↦
        rw room (append_items-PageOk p (v ∷ []) (omega (arith, length-append p.items (v ∷ []))), tt)
  ]
  add_to-AllOk (p ∷ q ∷ ps) v (h, hs) = (h, add_to-AllOk (q ∷ ps) v hs)

  items-insert_in :
      (p : Page A) (o : ℕ) (v : A)
      → o < length p.items
      → (insert_in grow p o v).items ≡ take o p.items ++ v ∷ drop o p.items
  unfolding insert_in append_items
  items-insert_in p o v h = rw add-one (set-doubled p.items o v h)

  insert_in-PageOk :
      (p : Page A) (o : ℕ) (v : A) → o < length p.items → PageOk (insert_in grow p o v)
  unfolding insert_in
  insert_in-PageOk p o v h =
      let q : Page A = record p { items = take (o + 1) p.items } in
      let some_items : 0 < length (take (o + 1) p.items ++ drop o p.items) =
        omega
          (arith, length-append (take (o + 1) p.items) (drop o p.items), length-drop o p.items) in
      let fits = append_items-PageOk q (drop o p.items) some_items in rw length-set fits

  put_left :
      (o : ℕ) (v : A) (xs ys : List A)
      → o < length xs
      → (take o xs ++ v ∷ drop o xs) ++ ys ≡ take o (xs ++ ys) ++ v ∷ drop o (xs ++ ys)
  put_left o v xs ys h =
      rw (take-append_left o xs ys (omega arith), drop-append_left o xs ys (omega arith))
        (append_assoc (take o xs) (v ∷ drop o xs) ys)

  put_right :
      (o k : ℕ) (v : A) (xs ys : List A)
      → o ≡ length xs + k
      → xs ++ (take k ys ++ v ∷ drop k ys) ≡ take o (xs ++ ys) ++ v ∷ drop o (xs ++ ys)
  put_right o k v xs ys h =
      rw (take-append_right o k xs ys h, drop-append_right o k xs ys h)
        (sym (append_assoc xs (take k ys) (v ∷ drop k ys)))

  -- The two halves of a split page, with the element put into one of them.
  flat-split_insert :
      (p : Page A) (o : ℕ) (v : A)
      → page_size ≤ length p.items
      → o < length p.items
      → (split_insert grow p o v).0.items ++ (split_insert grow p o v).1.items
        ≡ take o p.items ++ v ∷ drop o p.items
  unfolding split_insert append_items
  flat-split_insert p o v full h =
      let xs : List A = take half_page p.items in
      let ys : List A = drop half_page p.items in
      let len : length xs ≡ half_page = omega (arith, length-take half_page p.items, page_sizes) in
      let first : Page A = record { items = xs; cap = p.cap } in
      let second : Page A = append_items grow (record { items = []; cap = 0 }) ys in
      subst
        (λ (t : List A).
          (split_insert grow p o v).0.items ++ (split_insert grow p o v).1.items
          ≡ take o t ++ v ∷ drop o t)
        (take-append-drop half_page p.items)
        (elim (Bool-cases (ltb o (length xs))) [
          | inl low ↦ rw low (
              ap (λ t. t ++ ys) (items-insert_in first o v (ltb→lt _ _ low))
              ∙ put_left o v xs ys (ltb→lt _ _ low))
          | inr high ↦
              let later : half_page ≤ o = ground arith in
              rw high (
                ap (λ t. xs ++ t)
                  (items-insert_in second (o - half_page) v
                    (omega (arith, length-drop half_page p.items)))
                ∙ put_right o (o - half_page) v xs ys (omega arith))
        ])

  split_insert-PageOk :
      (p : Page A) (o : ℕ) (v : A)
      → PageOk p
      → page_size ≤ length p.items
      → o < length p.items
      → PageOk (split_insert grow p o v).0 × PageOk (split_insert grow p o v).1
  unfolding split_insert
  split_insert-PageOk p o v hp full h =
      let xs : List A = take half_page p.items in
      let ys : List A = drop half_page p.items in
      let len : length xs ≡ half_page = omega (arith, length-take half_page p.items, page_sizes) in
      let len' : length ys ≡ length p.items - half_page = length-drop half_page p.items in
      let second : PageOk (append_items grow (record { items = []; cap = 0 }) ys) =
        append_items-PageOk (record { items = []; cap = 0 }) ys (omega (arith, page_sizes)) in
      elim (Bool-cases (ltb o (length xs))) [
        | inl low ↦ rw low (insert_in-PageOk _ o v (ltb→lt _ _ low), second)
        | inr high ↦
            let later : half_page ≤ o = ground arith in
            rw high (
              (omega (arith, page_sizes), omega (arith, page_sizes)),
              insert_in-PageOk _ (o - half_page) v
                  (rw items-append_items (omega (arith, len', page_sizes))),
            )
      ]

  -- `Insert` into the page that holds the index.
  pub flat-insert_page :
      (p : Page A) (a : List (Page A)) (o : ℕ) (v : A)
      → o < length p.items
      → flat (insert_page grow p a o v) ≡ (take o p.items ++ v ∷ drop o p.items) ++ flat a
  unfolding insert_page
  flat-insert_page p a o v h = elim (Bool-cases (ltb (length p.items) page_size)) [
    | inl room ↦ rw room (rw (items-insert_in p o v h))
    | inr full ↦ rw full (
        sym (
          append_assoc (split_insert grow p o v).0.items (split_insert grow p o v).1.items (flat a))
        ∙ ap (λ t. t ++ flat a) (flat-split_insert p o v (ground arith) h))
  ]

  pub insert_page-AllOk :
      (p : Page A) (a : List (Page A)) (o : ℕ) (v : A)
      → PageOk p
      → AllOk a
      → o < length p.items
      → AllOk (insert_page grow p a o v)
  unfolding insert_page
  insert_page-AllOk p a o v hp ha h = elim (Bool-cases (ltb (length p.items) page_size)) [
    | inl room ↦ rw room (insert_in-PageOk p o v h, ha)
    | inr full ↦
        rw full (let ok = split_insert-PageOk p o v hp (ground arith) h in (ok.0, (ok.1, ha)))
  ]
