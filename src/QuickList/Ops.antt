-- ===== src/QuickList/Ops.antt =====
-- datastruct/list/quicklist.go: the operations of `QuickList` on one element.
use godis.Base.{
  Bool, false, ℕ, ◌+◌, ◌-◌, List, [], ◌∷◌, ◌++◌, Option, none, some, reverse, ltb, leb, ◌==◌,
  if◌then◌else◌, length, set, take, drop,
}
use godis.Base.Int.{ℤ, pos, negsuc}
use godis.Base.Outcome.{Outcome, returns, panics, ◌>>=◌}
use godis.QuickList.{
  Page, QuickList, Iterator, page_size, half_page, rebuild, list_of, index_page, find, page, item,
}

module _ {A : Type 0} where
  pub new_quick_list : QuickList A
  new_quick_list = record { pages = []; size = 0 }

  -- `Len`
  unfoldable pub quick_list_len : QuickList A → ℕ
  quick_list_len ql = ql.size

  unfoldable pub get : QuickList A → ℤ → Outcome A
  get ql index = do iter ← find ql index; item iter

  -- `page[iter.offset] = val` writes to the array that the node's slice shares.
  unfoldable pub set_item : Iterator A → A → Outcome (Iterator A)
  set_item it val = do
    p ← page it
    old ← index_page p.items it.offset
    elim it.offset [
      | pos o ↦ returns (record it { node = some (record p { items = set p.items o val }) })
      | negsuc o ↦ panics
    ]

  unfoldable pub set_at : QuickList A → ℤ → A → Outcome (QuickList A)
  unfolding set_item list_of
  set_at ql index val = do iter ← find ql index; iter' ← set_item iter val; returns (list_of iter')

  -- `prevNode := iter.node.Prev()` and what follows when the last page has become empty.
  drop_last_page : Iterator A → List (Page A) → Iterator A
  drop_last_page it [] = record it { node = none; offset = pos 0 }
  drop_last_page it (q ∷ before) = record it {
    before = before;
    node = some q;
    offset = pos (length q.items);
  }

  -- The page is empty: its node leaves the list.
  drop_page : Iterator A → List (Page A) → Iterator A
  unfolding drop_last_page
  drop_page it [] = drop_last_page it it.before
  drop_page it (q ∷ after) = record it { node = some q; after = after; offset = pos 0 }

  -- The page is not empty: the iterator leaves it if its last item went and a page follows.
  keep_page : Iterator A → Page A → ℕ → List (Page A) → Iterator A
  keep_page it p o [] = record it { node = some p; offset = pos o }
  keep_page it p o (q ∷ after) =
      if o == length p.items
      then record it { before = p ∷ it.before; node = some q; after = after; offset = pos 0 }
      else record it { node = some p; offset = pos o }

  unfoldable pub remove_from : Iterator A → Page A → ℕ → List A → Iterator A
  unfolding drop_page keep_page
  remove_from it p o [] = drop_page it it.after
  remove_from it p o (x ∷ xs) = keep_page it (record p { items = x ∷ xs }) o it.after

  -- `(*iterator).remove`
  unfoldable pub remove_item : Iterator A → Outcome (A × Iterator A)
  remove_item it = do
    p ← page it
    val ← index_page p.items it.offset
    elim it.offset [
      | pos o ↦
          let left = record it { size = it.size - 1 } in
          returns (val, remove_from left p o (take o p.items ++ drop (o + 1) p.items))
      | negsuc o ↦ panics
    ]

  unfoldable pub remove_at : QuickList A → ℤ → Outcome (A × QuickList A)
  unfolding remove_item remove_from list_of
  remove_at ql index = do
    iter ← find ql index
    (val, iter') ← remove_item iter
    returns (val, list_of iter')

  -- `lastPage[len(lastPage)-1]` and the page without it.
  unfoldable pub split_last : A → List A → List A × A
  split_last x [] = ([], x)
  split_last x (y ∷ ys) = let (init, last) = split_last y ys in (x ∷ init, last)

  unfoldable pub remove_last_page :
      List (Page A) → Page A → List A → ℕ → Outcome (Option A × QuickList A)
  remove_last_page before p [] size = panics
  remove_last_page before p (x ∷ []) size =
      returns (some x, record { pages = reverse before; size = size })
  remove_last_page before p (x ∷ y ∷ ys) size =
      let (init, last) = split_last x (y ∷ ys) in
      returns
        (some last, record { pages = reverse (record p { items = init } ∷ before); size = size })

  unfoldable pub remove_last_from : List (Page A) → ℕ → Outcome (Option A × QuickList A)
  remove_last_from [] size = panics
  remove_last_from (p ∷ before) size = remove_last_page before p p.items size

  -- `RemoveLast`: nil (here `none`) on an empty list.
  unfoldable pub remove_last : QuickList A → Outcome (Option A × QuickList A)
  unfolding remove_last_from remove_last_page split_last
  remove_last ql =
      if ql.size == 0 then returns (none, ql) else remove_last_from (reverse ql.pages) (ql.size - 1)

module _ {A : Type 0} where
  unfoldable pub new_page : A → Page A
  new_page val = record { items = val ∷ []; cap = page_size }

module _ {A : Type 0} (grow : ℕ → ℕ → ℕ) where
  -- `append(p, xs...)`
  unfoldable pub append_items : Page A → List A → Page A
  append_items p xs =
      let needed = length p.items + length xs in
      record { items = p.items ++ xs; cap = if leb needed p.cap then p.cap else grow p.cap needed }

  unfoldable pub add_to : List (Page A) → A → List (Page A)
  add_to [] val = new_page val ∷ []
  add_to (p ∷ []) val =
      if length p.items == p.cap then p ∷ new_page val ∷ [] else append_items p (val ∷ []) ∷ []
  add_to (p ∷ q ∷ ps) val = p ∷ add_to (q ∷ ps) val

  unfoldable pub add : QuickList A → A → QuickList A
  unfolding add_to append_items new_page
  add ql val = record { pages = add_to ql.pages val; size = ql.size + 1 }

  -- `page = append(page[:o+1], page[o:]...)`, then `page[o] = val`, at an offset inside the page.
  unfoldable pub insert_in : Page A → ℕ → A → Page A
  insert_in p o val =
      let q = append_items (record p { items = take (o + 1) p.items }) (drop o p.items) in
      record q { items = set q.items o val }

  -- A full page is split: the second half is copied into an array of its own.
  unfoldable pub split_insert : Page A → ℕ → A → Page A × Page A
  split_insert p o val =
      let first = record p { items = take half_page p.items } in
      let second = append_items (record { items = []; cap = 0 }) (drop half_page p.items) in
      if ltb o (length first.items)
      then (insert_in first o val, second)
      else (first, insert_in second (o - half_page) val)

  unfoldable pub insert_page : Page A → List (Page A) → ℕ → A → List (Page A)
  insert_page p after o val =
      if ltb (length p.items) page_size
      then insert_in p o val ∷ after
      else (let (first, second) = split_insert p o val in first ∷ second ∷ after)

  unfoldable pub insert_here : Iterator A → A → Outcome (QuickList A)
  insert_here it val = do
    p ← page it
    elim it.offset [
      | pos o ↦
          returns (record {
            pages = rebuild it.before (insert_page p it.after o val);
            size = it.size + 1;
          })
      | negsuc o ↦ panics
    ]

  -- `index == ql.size`
  abbrev is_size : QuickList A → ℤ → Bool
  is_size ql (pos i) = i == ql.size
  is_size ql (negsuc i) = false

  unfoldable pub insert_at : QuickList A → ℤ → A → Outcome (QuickList A)
  unfolding insert_here insert_page split_insert insert_in add
  insert_at ql index val =
      if is_size ql index
      then returns (add ql val)
      else (do iter ← find ql index; insert_here iter val)
