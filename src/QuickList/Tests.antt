-- ===== src/QuickList/Tests.antt =====
-- datastruct/list/quicklist.go: the theorems at a list of two pages, and runs of the code.
use godis.Base.{ℕ, ◌+◌, ◌≡◌, refl, Bool, true, List, [], ◌∷◌, some, arith, ltb}
use godis.Base.Int.{pos, negsuc}
use godis.Base.Outcome.{Ends, Agrees, returns, panics}
use godis.QuickList.{QuickList, find, page_size}
use godis.QuickList.Ops.{get, set_at, add, insert_at, remove_at, remove_last}
use godis.QuickList.Scan.{remove_by_val, reverse_remove_by_val, for_each, contains, range}
use godis.QuickList.View.{Represents}
use godis.QuickList.Edit.{get-eq-get_at, set_at-Agrees, add-Represents, insert_at-Agrees}
use godis.QuickList.Insert.{Enough}
use godis.QuickList.Remove.{SameRemoval, Popped, remove_at-Agrees, remove_last-pop}
use godis.QuickList.Sweep.{
  Removed, RemovedAll, remove_by_val-Removed, remove_all_by_val-RemovedAll, for_each-eq-visit,
  contains-eq-any, range-eq-range,
}
use godis.QuickList.Backward.{reverse_remove_by_val-Removed}

abbrev sample : QuickList ℕ
sample = record {
  pages = record { items = 5 ∷ 7 ∷ []; cap = 2 } ∷ record { items = 5 ∷ []; cap = 4 } ∷ [];
  size = 3;
}

abbrev elements : List ℕ
elements = 5 ∷ 7 ∷ 5 ∷ []

sample-Represents : Represents sample elements
sample-Represents = record { elements = refl; pages_ok = omega arith; counted = refl }

-- Go doubles small slices.
abbrev doubling : ℕ → ℕ → ℕ
doubling old needed = needed + needed

doubling-Enough : Enough doubling
doubling-Enough old needed = omega arith

abbrev is_five : ℕ → Bool
is_five n = ltb n 6

abbrev sum_consumer : ℕ → ℕ → ℕ → Bool × ℕ
sum_consumer i x s = (ltb i 1, s + x)

get-eq-get_at_example : get sample (pos 2) ≡ returns 5
get-eq-get_at_example = get-eq-get_at sample elements (pos 2) sample-Represents

set_at-Agrees_example : Agrees Represents (set_at sample (pos 1) 9) (returns (5 ∷ 9 ∷ 5 ∷ []))
set_at-Agrees_example = set_at-Agrees sample elements (pos 1) 9 sample-Represents

add-Represents_example : Represents (add doubling sample 8) (5 ∷ 7 ∷ 5 ∷ 8 ∷ [])
add-Represents_example = add-Represents doubling doubling-Enough sample elements 8 sample-Represents

insert_at-Agrees_example :
    Agrees Represents (insert_at doubling sample (pos 1) 6) (returns (5 ∷ 6 ∷ 7 ∷ 5 ∷ []))
insert_at-Agrees_example =
    insert_at-Agrees doubling doubling-Enough sample elements (pos 1) 6 sample-Represents

remove_at-Agrees_example : Agrees SameRemoval (remove_at sample (pos 2)) (returns (5, 5 ∷ 7 ∷ []))
remove_at-Agrees_example = remove_at-Agrees sample elements (pos 2) sample-Represents

remove_last-pop_example : Ends (Popped (some 5, 5 ∷ 7 ∷ [])) (remove_last sample)
remove_last-pop_example = remove_last-pop sample elements sample-Represents

remove_by_val-Removed_example : Ends (Removed (1, 7 ∷ 5 ∷ [])) (remove_by_val is_five sample 1)
remove_by_val-Removed_example = remove_by_val-Removed is_five 1 sample elements sample-Represents

remove_all_by_val-RemovedAll_example : RemovedAll is_five sample elements
remove_all_by_val-RemovedAll_example =
    remove_all_by_val-RemovedAll is_five sample elements sample-Represents

reverse_remove_by_val-Removed_example :
    Ends (Removed (1, 5 ∷ 7 ∷ [])) (reverse_remove_by_val is_five sample 1)
reverse_remove_by_val-Removed_example =
    reverse_remove_by_val-Removed is_five 1 sample elements sample-Represents

for_each-eq-visit_example : for_each sum_consumer sample 0 ≡ returns 12
for_each-eq-visit_example = for_each-eq-visit sum_consumer sample elements 0 sample-Represents

contains-eq-any_example : contains is_five sample ≡ returns true
contains-eq-any_example = contains-eq-any is_five sample elements sample-Represents

range-eq-range_example : range sample (pos 1) (pos 3) ≡ returns (7 ∷ 5 ∷ [])
range-eq-range_example = range-eq-range sample elements (pos 1) (pos 3) sample-Represents

-- The split of a page: the new value goes to the page that the index names.
runs_remove :
    remove_at sample (pos 0)
    ≡ returns (
      5,
      record {
        pages = record { items = 7 ∷ []; cap = 2 } ∷ record { items = 5 ∷ []; cap = 4 } ∷ [];
        size = 2;
      },
    )
unfolding remove_at find
runs_remove = refl

runs_negative : get sample (negsuc 0) ≡ panics
unfolding get find
runs_negative = refl

runs_insert :
    insert_at doubling sample (pos 2) 6
    ≡ returns (record {
      pages = record { items = 5 ∷ 7 ∷ []; cap = 2 } ∷ record { items = 6 ∷ 5 ∷ []; cap = 4 } ∷ [];
      size = 4;
    })
unfolding insert_at find page_size
runs_insert = refl
