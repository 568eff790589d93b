-- ===== src/ConcurrentDict/Locking/Held.antt =====
-- datastruct/dict/concurrent.go: between `RWLocks` and `RWUnLocks` a goroutine has its keys for itself.
use godis.Base.{
  ℕ, ◌<◌, ◌≡◌, refl, ◌∙◌, inl, inr, Bool, true, false, some, List, [], ◌∷◌, ◌++◌, Bytes, ◌==◌,
  ==_iff, ◌||◌, Bool-cases, subst, arith,
}
use godis.ConcurrentDict.{spread}
use godis.ConcurrentDict.Locks.{Mode, reading, writing, Plan, rw_locks}
use godis.ConcurrentDict.Locking.{
  Thread, at, State, idle, granted, advance, update, holding, writes, in_plan, proceeds, works,
  begins, Reachable, later,
}
use godis.ConcurrentDict.Locking.Order.{After, After-if}
use godis.ConcurrentDict.Locking.Exclusion.{mutual_exclusion}
use godis.ConcurrentDict.Locking.Taken.{lists, rw_locks-in_plan, rw_locks-writes}

-- Nothing is left to take: the call of `RWLocks` has returned.
abbrev pub returned : Thread → Bool
returned (at w held []) = true
returned (at w held (p ∷ todo)) = false

-- The goroutine `j` has called `RWLocks` with these keys, and has released nothing since: it takes mutexes or
-- has them all, while the others do anything.
pub data Called (size n j : ℕ) (write_keys read_keys : List Bytes) : State → Type 0 where
  calls :
      {s : State}
      → Reachable size n s
      → j < n
      → idle (s j) ≡ true
      → Called size n j write_keys read_keys
          (update j (at false [] (rw_locks size write_keys read_keys)) s)
  takes :
      {s : State} {t : Thread}
      → Called size n j write_keys read_keys s
      → returned (s j) ≡ false
      → advance (granted n s) (s j) ≡ some t
      → Called size n j write_keys read_keys (update j t s)
  other_works :
      {s : State} {t : Thread} (k : ℕ)
      → Called size n j write_keys read_keys s
      → k < n
      → (k == j) ≡ false
      → advance (granted n s) (s k) ≡ some t
      → Called size n j write_keys read_keys (update k t s)
  other_begins :
      {s : State} (k : ℕ) (ws rs : List Bytes)
      → Called size n j write_keys read_keys s
      → k < n
      → (k == j) ≡ false
      → idle (s k) ≡ true
      → Called size n j write_keys read_keys (update k (at false [] (rw_locks size ws rs)) s)

-- The mutexes that the goroutine holds, in the order in which it took them, before those it has yet to take
abbrev restore : (held todo : Plan) → Plan
restore [] todo = todo
restore (p ∷ held) todo = restore held (p ∷ todo)

abbrev Keeps : Plan → Thread → Type 0
Keeps plan (at w held todo) = restore held todo ≡ plan

advance-Keeps :
    (grant : ℕ → Mode → Bool) (plan : Plan) (t : Thread)
    → returned t ≡ false
    → Keeps plan t
    → After (Keeps plan) (advance grant t)
advance-Keeps grant plan (at w held []) r h = ground arith
advance-Keeps grant plan (at false held ((i, writing) ∷ todo)) r h = h
advance-Keeps grant plan (at true held ((i, writing) ∷ todo)) r h =
    After-if (Keeps plan) (grant i writing) (at false ((i, writing) ∷ held) todo) (λ g. h)
advance-Keeps grant plan (at w held ((i, reading) ∷ todo)) r h =
    After-if (Keeps plan) (grant i reading) (at w ((i, reading) ∷ held) todo) (λ g. h)

==_refl : (j : ℕ) → (j == j) ≡ true
==_refl j = (==_iff j j).1 refl

Called-Keeps :
    {size n j : ℕ} {ws rs : List Bytes} {s : State}
    → Called size n j ws rs s
    → Keeps (rw_locks size ws rs) (s j)
Called-Keeps {j} (calls r lt i) = rw (==_refl j) refl
Called-Keeps {size} {n} {j} {ws} {rs} (takes {s} c r e) = rw (==_refl j) (
    subst (After (Keeps (rw_locks size ws rs))) e
      (advance-Keeps (granted n s) (rw_locks size ws rs) (s j) r (Called-Keeps c)))
Called-Keeps (other_works k c lt ne e) = rw ne (Called-Keeps c)
Called-Keeps (other_begins k ws rs c lt ne i) = rw ne (Called-Keeps c)

Called-Reachable :
    {size n j : ℕ} {ws rs : List Bytes} {s : State}
    → Called size n j ws rs s
    → Reachable size n s × (j < n)
Called-Reachable {j} {ws} {rs} (calls r lt i) = (later r (begins j ws rs lt i), lt)
Called-Reachable {j} (takes c r e) =
    let (reached, lt) = Called-Reachable c in (later reached (works (proceeds j lt e)), lt)
Called-Reachable (other_works k c lt ne e) =
    let (reached, lt') = Called-Reachable c in (later reached (works (proceeds k lt e)), lt')
Called-Reachable (other_begins k ws rs c lt ne i) =
    let (reached, lt') = Called-Reachable c in (later reached (begins k ws rs lt i), lt')

in_plan-restore :
    (i : ℕ) (held todo : Plan) → in_plan i (restore held todo) ≡ (in_plan i held || in_plan i todo)
in_plan-restore i [] todo = refl
in_plan-restore i ((j, mode) ∷ held) todo =
    ground (arith, in_plan-restore i held ((j, mode) ∷ todo))

writes-restore :
    (i : ℕ) (held todo : Plan) → writes i (restore held todo) ≡ (writes i held || writes i todo)
writes-restore i [] todo = refl
writes-restore i ((j, reading) ∷ held) todo =
    ground (arith, writes-restore i held ((j, reading) ∷ todo))
writes-restore i ((j, writing) ∷ held) todo =
    ground (arith, writes-restore i held ((j, writing) ∷ todo))

-- Who has returned from `RWLocks` holds all of its mutexes.
holding-plan :
    (i : ℕ) (plan : Plan) (t : Thread)
    → returned t ≡ true
    → Keeps plan t
    → (in_plan i (holding t) ≡ in_plan i plan) × (writes i (holding t) ≡ writes i plan)
holding-plan i plan (at w held []) r h =
    (ground (arith, in_plan-restore i held [], h), ground (arith, writes-restore i held [], h))
holding-plan i plan (at w held (p ∷ todo)) r h = ground arith

-- Two different goroutines have called `RWLocks`, each with keys of its own choice, both calls have returned,
-- and neither goroutine has begun to release, whatever the others did meanwhile. Then no key that one of them
-- is to write is among the keys of the other, to write or to read.
pub keys_excluded :
    {size n : ℕ} {s : State} {ws rs ws' rs' : List Bytes} (j k : ℕ) (key : Bytes)
    → Called size n j ws rs s
    → Called size n k ws' rs' s
    → (j == k) ≡ false
    → returned (s j) ≡ true
    → returned (s k) ≡ true
    → lists key ws ≡ true
    → lists key (ws' ++ rs') ≡ false
keys_excluded {size} {s} {ws} {rs} {ws'} {rs'} j k key c c' ne r r' h =
    let i = spread size key in
    let (reached, lt) = Called-Reachable c in
    let (reached', lt') = Called-Reachable c' in
    elim (Bool-cases (lists key (ws' ++ rs'))) [
      | inr apart ↦ apart
      | inl h' ↦
          let same : j ≡ k =
            mutual_exclusion reached i j k lt lt'
              ((holding-plan i (rw_locks size ws rs) (s j) r (Called-Keeps c)).1
                ∙ rw_locks-writes size ws rs key h)
              ((holding-plan i (rw_locks size ws' rs') (s k) r' (Called-Keeps c')).0
                ∙ rw_locks-in_plan size ws' rs' key h') in
          ground (arith, same)
    ]
