-- ===== src/QuickList.antt =====
-- datastruct/list/quicklist.go: `QuickList`, its pages and its iterator.
-- `container/list` is the list of pages; `*list.Element` is a place in that list, so an iterator is
-- a zipper. A page is a slice: its items and the capacity of the array behind it. What `append`
-- allocates is up to Go's runtime, so the capacity that it chooses, from the old one and the
-- length needed, is the parameter `grow`. An index or an offset is an `int`, which may be negative.
pub mod Ops
pub mod Scan
pub mod Spec
pub mod View
pub mod Find
pub mod Steps
pub mod Insert
pub mod Edit
pub mod Remove
pub mod Sweep
pub mod Backward
mod Tests
use godis.Base.{
  ℕ, zero, suc, ◌+◌, ◌-◌, ◌/◌, List, [], ◌∷◌, ◌++◌, Option, none, some, Bool, true, false, reverse,
  ltb, leb, ◌==◌, if◌then◌else◌, length, get_elem?, set, take, drop,
}
use godis.Base.Int.{ℤ, pos, negsuc, sub_ℕ}
use godis.Base.Outcome.{Outcome, returns, panics, ◌>>=◌}

-- `pageSize`. It stays shut: no proof computes with its value.
unfoldable pub page_size : ℕ
page_size = 1024

-- `pageSize/2`
unfoldable pub half_page : ℕ
half_page = page_size / 2

pub record Page (A : Type 0) : Type 0 where
  pub items : List A
  pub cap : ℕ

pub record QuickList (A : Type 0) : Type 0 where
  pub pages : List (Page A)
  pub size : ℕ

-- `before` has the pages left of `node`, the nearest first. `node` is nil once the list is empty.
pub record Iterator (A : Type 0) : Type 0 where
  pub before : List (Page A)
  pub node : Option (Page A)
  pub after : List (Page A)
  pub offset : ℤ
  pub size : ℕ

abbrev pub succ : ℤ → ℤ
succ (pos n) = pos (n + 1)
succ (negsuc zero) = pos 0
succ (negsuc (suc n)) = negsuc n

-- `iter.offset < len(page)-1`
abbrev pub has_next : ℤ → ℕ → Bool
has_next (pos o) n = ltb (o + 1) n
has_next (negsuc o) n = ltb 0 (n + o)

-- `iter.offset > 0`, and the offset one lower
abbrev pub step_back : ℤ → Option ℤ
step_back (pos (suc o)) = some (pos o)
step_back _ = none

abbrev pub offset_is : ℤ → ℕ → Bool
offset_is (pos o) n = o == n
offset_is (negsuc o) n = false

abbrev pub is_minus_one : ℤ → Bool
is_minus_one (negsuc zero) = true
is_minus_one _ = false

module _ {A : Type 0} where
  -- The list that an iterator stands in: every step of it may have changed the list.
  abbrev pub rebuild : List (Page A) → List (Page A) → List (Page A)
  rebuild [] ps = ps
  rebuild (p ∷ before) ps = rebuild before (p ∷ ps)

  abbrev pub node_list : Option (Page A) → List (Page A) → List (Page A)
  node_list none ps = ps
  node_list (some p) ps = p ∷ ps

  unfoldable pub list_of : Iterator A → QuickList A
  list_of it = record { pages = rebuild it.before (node_list it.node it.after); size = it.size }

  -- Reading `page[i]` at an `int` index.
  abbrev pub index_page : List A → ℤ → Outcome A
  index_page xs (negsuc n) = panics
  index_page xs (pos n) = elim (get_elem? xs n) [ none ↦ panics | some x ↦ returns x ]

  -- The walk from the front: `beg` is `pageBeg`.
  unfoldable pub from_front : ℕ → ℕ → ℕ → List (Page A) → List (Page A) → Outcome (Iterator A)
  from_front size index beg before [] = panics
  from_front size index beg before (p ∷ ps) =
      if ltb index (beg + length p.items)
      then returns (record {
        before = before;
        node = some p;
        after = ps;
        offset = sub_ℕ index beg;
        size = size;
      })
      else from_front size index (beg + length p.items) (p ∷ before) ps

  -- The walk from the back over the pages in reverse: `end` is `pageBeg` before the subtraction, and
  -- `pageBeg - len(page) <= index` is written without it.
  unfoldable pub from_back : ℕ → ℕ → ℕ → List (Page A) → List (Page A) → Outcome (Iterator A)
  from_back size index end after [] = panics
  from_back size index end after (p ∷ ps) =
      if leb end (index + length p.items)
      then returns (record {
        before = ps;
        node = some p;
        after = after;
        offset = sub_ℕ (index + length p.items) end;
        size = size;
      })
      else from_back size index (end - length p.items) (p ∷ after) ps

  unfoldable pub find : QuickList A → ℤ → Outcome (Iterator A)
  unfolding from_front from_back
  find ql (negsuc n) = panics
  find ql (pos i) =
      if leb ql.size i
      then panics
      else if ltb i (ql.size / 2)
      then from_front ql.size i 0 [] ql.pages
      else from_back ql.size i ql.size [] (reverse ql.pages)

  abbrev pub page : Iterator A → Outcome (Page A)
  page it = elim it.node [ none ↦ panics | some p ↦ returns p ]

  -- `(*iterator).get`
  unfoldable pub item : Iterator A → Outcome A
  item it = do p ← page it; index_page p.items it.offset

  next_page : Iterator A → Page A → List (Page A) → Bool × Iterator A
  next_page it p [] = (false, record it { offset = pos (length p.items) })
  next_page it p (q ∷ after) =
      (true, record it { before = p ∷ it.before; node = some q; after = after; offset = pos 0 })

  unfoldable pub next : Iterator A → Outcome (Bool × Iterator A)
  unfolding next_page
  next it = do
    p ← page it
    returns (
        if has_next it.offset (length p.items)
        then (true, record it { offset = succ it.offset })
        else next_page it p it.after)

  prev_page : Iterator A → List (Page A) → Bool × Iterator A
  prev_page it [] = (false, record it { offset = negsuc 0 })
  prev_page it (q ∷ before) = (
    true,
    record it {
      before = before;
      node = some q;
      after = node_list it.node it.after;
      offset = sub_ℕ (length q.items) 1;
    },
  )

  unfoldable pub prev : Iterator A → Bool × Iterator A
  unfolding prev_page
  prev it = elim (step_back it.offset) [
    | some o ↦ (true, record it { offset = o })
    | none ↦ prev_page it it.before
  ]

  -- `ql.data.Len() == 0` is the case of a nil node.
  unfoldable pub at_end : Iterator A → Bool
  at_end it = elim it.node [
    | none ↦ true
    | some p ↦ elim it.after [ [] ↦ offset_is it.offset (length p.items) | _ ↦ false ]
  ]

  unfoldable pub at_begin : Iterator A → Bool
  at_begin it = elim it.node [
    | none ↦ true
    | some p ↦ elim it.before [ [] ↦ is_minus_one it.offset | _ ↦ false ]
  ]
