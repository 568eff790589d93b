-- ===== src/QuickList/View.antt =====
-- datastruct/list/quicklist.go: what a `QuickList` stands for, and where an iterator stands in it.
use godis.Base.{
  ℕ, ◌+◌, ◌≤◌, ◌<◌, ◌≡◌, refl, List, [], ◌∷◌, ◌++◌, none, some, append_assoc, arith, length,
  length-append,
}
use godis.Base.Int.{pos}
use godis.QuickList.{Page, QuickList, Iterator, rebuild, list_of}

module _ {A : Type 0} where
  -- The elements of the pages, in order.
  abbrev pub flat : List (Page A) → List A
  flat [] = []
  flat (p ∷ ps) = p.items ++ flat ps

  -- The elements of pages that are listed from the nearest to the first.
  abbrev pub flat_back : List (Page A) → List A
  flat_back [] = []
  flat_back (p ∷ ps) = flat_back ps ++ p.items

  -- A page has at least one item, and its slice fits in its array.
  abbrev pub PageOk : Page A → Type 0
  PageOk p = (0 < length p.items) × (length p.items ≤ p.cap)

  abbrev pub AllOk : List (Page A) → Type 0
  AllOk [] = Unit
  AllOk (p ∷ ps) = PageOk p × AllOk ps

  -- `ql` holds the elements of `xs` in order, in pages that are sound, and `size` counts them.
  pub record Represents (ql : QuickList A) (xs : List A) : Type 0 where
    pub elements : flat ql.pages ≡ xs
    pub pages_ok : AllOk ql.pages
    pub counted : ql.size ≡ length xs

  pub flat-rebuild : (b ps : List (Page A)) → flat (rebuild b ps) ≡ flat_back b ++ flat ps
  flat-rebuild [] ps = refl
  flat-rebuild (p ∷ b) ps = rw (flat-rebuild b (p ∷ ps)) (rw append_assoc)

  pub AllOk-rebuild : (b ps : List (Page A)) → AllOk b → AllOk ps → AllOk (rebuild b ps)
  AllOk-rebuild [] ps hb hp = hp
  AllOk-rebuild (p ∷ b) ps (h, hb) hp = AllOk-rebuild b (p ∷ ps) hb (h, hp)

  -- An iterator inside a page whose items are `l ++ r`, at offset `o`.
  abbrev pub cursor : List (Page A) → List A → List A → ℕ → List (Page A) → ℕ → ℕ → Iterator A
  cursor b l r c a o s = record {
    before = b;
    node = some (record { items = l ++ r; cap = c });
    after = a;
    offset = pos o;
    size = s;
  }

  -- Only at the end of the list does an offset point behind its page.
  pub record Sound (b : List (Page A)) (l r : List A) (c : ℕ) (a : List (Page A)) (o s : ℕ)
      : Type 0 where
    pub at_offset : o ≡ length l
    pub before_ok : AllOk b
    pub after_ok : AllOk a
    pub page_ok : PageOk (record { items = l ++ r; cap = c })
    pub at_stop : r ≡ [] → a ≡ []
    pub counted : s ≡ length (flat_back b) + length l + length r + length (flat a)

  abbrev pub nowhere : Iterator A
  nowhere = record { before = []; node = none; after = []; offset = pos 0; size = 0 }

  -- `it` stands between the elements `xs` and the elements `ys` of a sound list; its element is the
  -- first of `ys`.
  pub data At (it : Iterator A) (xs ys : List A) : Type 0 where
    inside :
        (b : List (Page A)) (l r : List A) (c : ℕ) (a : List (Page A)) (o s : ℕ)
        → Sound b l r c a o s
        → it ≡ cursor b l r c a o s
        → flat_back b ++ l ≡ xs
        → r ++ flat a ≡ ys
        → At it xs ys
    emptied : it ≡ nowhere → xs ≡ [] → ys ≡ [] → At it xs ys

  Represents-cursor :
      (b : List (Page A)) (l r : List A) (c : ℕ) (a : List (Page A)) (o s : ℕ)
      → Sound b l r c a o s
      → Represents (list_of (cursor b l r c a o s)) ((flat_back b ++ l) ++ (r ++ flat a))
  unfolding list_of
  Represents-cursor b l r c a o s h = record {
    elements = rw (flat-rebuild b) (simp append_assoc);
    pages_ok = AllOk-rebuild b _ h.before_ok (h.page_ok, h.after_ok);
    counted = omega (
      arith,
      h.counted,
      length-append (flat_back b ++ l) (r ++ flat a),
      length-append (flat_back b) l,
      length-append r (flat a),
    );
  }

  -- The list under an iterator holds the elements on both sides of it.
  pub At-Represents :
      {it : Iterator A} {xs ys : List A} → At it xs ys → Represents (list_of it) (xs ++ ys)
  unfolding list_of
  At-Represents (inside b l r c a o s h e p q) =
      rw (e, ← p, ← q) (Represents-cursor b l r c a o s h)
  At-Represents (emptied e p q) =
      rw (e, p, q) (record { elements = refl; pages_ok = tt; counted = refl })
