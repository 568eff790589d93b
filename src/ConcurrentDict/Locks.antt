-- ===== src/ConcurrentDict/Locks.antt =====
-- datastruct/dict/concurrent.go: `toLockIndices`, `RWLocks` and `RWUnLocks`: which mutexes are taken, how,
-- and in which order. The size is that of the table.
use godis.Base.{
  ℕ, suc, ◌≤◌, ◌<◌, ◌≡◌, refl, inl, inr, Bool, true, false, ◌||◌, List, [], ◌∷◌, ◌++◌, map, reverse,
  ◌∙◌, ap, Bytes, ltb, ◌==◌, arith, if◌then◌else◌, Bool-cases,
}
use mathlib.Core.List.{reverse-cons, map-append}
use godis.ConcurrentDict.{spread}

abbrev pub has_index : ℕ → List ℕ → Bool
has_index i [] = false
has_index i (j ∷ js) = i == j || has_index i js

-- `indexMap[index] = struct{}{}` for every key: each index once.
unfoldable pub index_map : ℕ → List Bytes → List ℕ
index_map size [] = []
index_map size (key ∷ keys) =
    let rest = index_map size keys in
    if has_index (spread size key) rest then rest else spread size key ∷ rest

-- `sort.Slice` by the function `less`
unfoldable pub insert_by : (ℕ → ℕ → Bool) → ℕ → List ℕ → List ℕ
insert_by less i [] = i ∷ []
insert_by less i (j ∷ js) =
    let later = insert_by less i js in if less i j then i ∷ j ∷ js else j ∷ later

unfoldable pub sort_by : (ℕ → ℕ → Bool) → List ℕ → List ℕ
unfolding insert_by
sort_by less [] = []
sort_by less (i ∷ is) = insert_by less i (sort_by less is)

unfoldable pub less_than : Bool → ℕ → ℕ → Bool
less_than true i j = ltb j i
less_than false i j = ltb i j

unfoldable pub to_lock_indices : ℕ → List Bytes → Bool → List ℕ
unfolding index_map sort_by less_than
to_lock_indices size keys is_reverse = sort_by (less_than is_reverse) (index_map size keys)

pub data Mode : Type 0 where
  reading writing : Mode

abbrev pub Plan : Type 0
Plan = List (ℕ × Mode)

unfoldable pub mode_of : List ℕ → ℕ → ℕ × Mode
mode_of write_index_set index =
    (index, if has_index index write_index_set then writing else reading)

-- The mutexes of `RWLocks` in their order, and those of `RWUnLocks`.
unfoldable pub rw_locks : ℕ → List Bytes → List Bytes → Plan
unfolding mode_of index_map
rw_locks size write_keys read_keys =
    map (mode_of (index_map size write_keys)) (to_lock_indices size (write_keys ++ read_keys) false)

unfoldable pub rw_un_locks : ℕ → List Bytes → List Bytes → Plan
unfolding mode_of index_map
rw_un_locks size write_keys read_keys =
    map (mode_of (index_map size write_keys)) (to_lock_indices size (write_keys ++ read_keys) true)

-- Every index is at least the first argument, and smaller than the ones behind it.
abbrev pub Ascends : ℕ → Plan → Type 0
Ascends low [] = Unit
Ascends low ((i, mode) ∷ plan) = (low ≤ i) × Ascends (suc i) plan

abbrev Sorted : ℕ → List ℕ → Type 0
Sorted low [] = Unit
Sorted low (i ∷ is) = (low ≤ i) × Sorted (suc i) is

abbrev Fresh : ℕ → List ℕ → Type 0
Fresh i js = has_index i js ≡ false

abbrev AllFresh : List ℕ → Type 0
AllFresh [] = Unit
AllFresh (i ∷ is) = Fresh i is × AllFresh is

index_map-AllFresh : (size : ℕ) (keys : List Bytes) → AllFresh (index_map size keys)
unfolding index_map
index_map-AllFresh size [] = tt
index_map-AllFresh size (key ∷ keys) =
    elim (Bool-cases (has_index (spread size key) (index_map size keys))) [
      | inl old ↦ rw old (index_map-AllFresh size keys)
      | inr new ↦ rw new (new, index_map-AllFresh size keys)
    ]

Sorted-weaken : (low low' : ℕ) (is : List ℕ) → low' ≤ low → Sorted low is → Sorted low' is
Sorted-weaken low low' [] le h = tt
Sorted-weaken low low' (i ∷ is) le (h, hs) = (omega arith, hs)

unfoldable pub ascending : ℕ → ℕ → Bool
unfolding less_than
ascending = less_than false

insert_by-Sorted :
    (low i : ℕ) (is : List ℕ)
    → low ≤ i
    → Fresh i is
    → Sorted low is
    → Sorted low (insert_by ascending i is)
unfolding insert_by ascending
insert_by-Sorted low i [] le f h = (le, tt)
insert_by-Sorted low i (j ∷ js) le f (h, hs) = elim (Bool-cases (ltb i j)) [
  | inl before ↦ rw before (le, (ground arith, hs))
  | inr behind ↦ rw behind (h, insert_by-Sorted (suc j) i js (ground arith) (ground arith) hs)
]

has_index-insert_by :
    (k i : ℕ) (is : List ℕ) → has_index k (insert_by ascending i is) ≡ (k == i || has_index k is)
unfolding insert_by
has_index-insert_by k i [] = refl
has_index-insert_by k i (j ∷ js) = ground (arith, has_index-insert_by k i js)

pub has_index-sort_by : (k : ℕ) (is : List ℕ) → has_index k (sort_by ascending is) ≡ has_index k is
unfolding sort_by
has_index-sort_by k [] = refl
has_index-sort_by k (i ∷ is) =
    rw (has_index-insert_by k i (sort_by ascending is), has_index-sort_by k is) refl

sort_by-Sorted : (is : List ℕ) → AllFresh is → Sorted 0 (sort_by ascending is)
unfolding sort_by
sort_by-Sorted [] h = tt
sort_by-Sorted (i ∷ is) (f, h) =
    insert_by-Sorted 0 i (sort_by ascending is) (omega arith) (rw (has_index-sort_by i is) f)
      (sort_by-Sorted is h)

map-Ascends : (low : ℕ) (w is : List ℕ) → Sorted low is → Ascends low (map (mode_of w) is)
unfolding mode_of
map-Ascends low w [] h = tt
map-Ascends low w (i ∷ is) (h, hs) = (h, map-Ascends (suc i) w is hs)

-- `RWLocks` takes each mutex once, in ascending order of the indices, whatever keys it is given.
pub rw_locks-Ascends :
    (size : ℕ) (write_keys read_keys : List Bytes) → Ascends 0 (rw_locks size write_keys read_keys)
unfolding rw_locks to_lock_indices ascending
rw_locks-Ascends size write_keys read_keys = map-Ascends 0 (index_map size write_keys) _ (
    sort_by-Sorted (index_map size (write_keys ++ read_keys))
      (index_map-AllFresh size (write_keys ++ read_keys)))

descending : ℕ → ℕ → Bool
unfolding less_than
descending = less_than true

insert_by-snoc :
    (i j : ℕ) (is : List ℕ)
    → j < i
    → insert_by descending i (is ++ j ∷ []) ≡ insert_by descending i is ++ j ∷ []
unfolding insert_by descending
insert_by-snoc i j [] h = ground arith
insert_by-snoc i j (k ∷ is) h = ground (arith, insert_by-snoc i j is h)

abbrev Exceeds : ℕ → List ℕ → Type 0
Exceeds i [] = Unit
Exceeds i (j ∷ js) = (i < j) × Exceeds i js

insert_by-last : (i : ℕ) (is : List ℕ) → Exceeds i is → insert_by descending i is ≡ is ++ i ∷ []
unfolding insert_by descending
insert_by-last i [] h = refl
insert_by-last i (k ∷ is) (h, hs) = ground (arith, insert_by-last i is hs)

Exceeds-append : (i : ℕ) (is js : List ℕ) → Exceeds i is → Exceeds i js → Exceeds i (is ++ js)
Exceeds-append i [] js h h' = h'
Exceeds-append i (k ∷ is) js (h, hs) h' = (h, Exceeds-append i is js hs h')

Sorted-Exceeds : (low i : ℕ) (is : List ℕ) → i < low → Sorted low is → Exceeds i (reverse is)
Sorted-Exceeds low i [] lt h = tt
Sorted-Exceeds low i (j ∷ js) lt (h, hs) = rw (reverse-cons j js) (
    Exceeds-append i (reverse js) (j ∷ []) (Sorted-Exceeds (suc j) i js (omega arith) hs)
      (omega arith, tt))

insert_by-reverse :
    (low i : ℕ) (is : List ℕ)
    → Fresh i is
    → Sorted low is
    → insert_by descending i (reverse is) ≡ reverse (insert_by ascending i is)
unfolding insert_by ascending
insert_by-reverse low i [] f h = refl
insert_by-reverse low i (j ∷ js) f (h, hs) = elim (Bool-cases (ltb i j)) [
  | inl before ↦
      rw (before, reverse-cons i (j ∷ js), reverse-cons j js)
        (insert_by-last i (reverse js ++ j ∷ []) (
          Exceeds-append i (reverse js) (j ∷ []) (Sorted-Exceeds (suc j) i js (ground arith) hs)
            (ground arith, tt)))
  | inr behind ↦
      rw (behind, reverse-cons j js, reverse-cons j (insert_by ascending i js))
        (insert_by-snoc i j (reverse js) (ground arith)
          ∙ ap (λ s. s ++ j ∷ []) (insert_by-reverse (suc j) i js (ground arith) hs))
]

sort_by-reverse :
    (is : List ℕ) → AllFresh is → sort_by descending is ≡ reverse (sort_by ascending is)
unfolding sort_by
sort_by-reverse [] h = refl
sort_by-reverse (i ∷ is) (f, h) =
    ap (insert_by descending i) (sort_by-reverse is h)
    ∙ insert_by-reverse 0 i (sort_by ascending is) (rw (has_index-sort_by i is) f)
        (sort_by-Sorted is h)

map-reverse : (f : ℕ → ℕ × Mode) (is : List ℕ) → map f (reverse is) ≡ reverse (map f is)
map-reverse f [] = refl
map-reverse f (i ∷ is) =
    rw
      (
        reverse-cons i is,
        reverse-cons (f i) (map f is),
        map-append f (reverse is) (i ∷ []),
        map-reverse f is,
      )
      refl

-- `RWUnLocks` releases the mutexes in the opposite order, each in the mode in which it was taken.
pub rw_un_locks-eq-reverse :
    (size : ℕ) (write_keys read_keys : List Bytes)
    → rw_un_locks size write_keys read_keys ≡ reverse (rw_locks size write_keys read_keys)
unfolding rw_un_locks rw_locks to_lock_indices ascending descending
rw_un_locks-eq-reverse size write_keys read_keys =
    ap (map (mode_of (index_map size write_keys))) (
      sort_by-reverse (index_map size (write_keys ++ read_keys))
        (index_map-AllFresh size (write_keys ++ read_keys)))
    ∙ map-reverse (mode_of (index_map size write_keys))
        (sort_by ascending (index_map size (write_keys ++ read_keys)))
