-- ===== src/ConcurrentDict/Locking/Exclusion.antt =====
-- datastruct/dict/concurrent.go: a mutex that is held for writing is held by nobody else.
use godis.Base.{
  ℕ, zero, suc, ◌<◌, ◌≡◌, refl, sym, inl, inr, ◌⊎◌, Bool, true, false, [], ◌∷◌, ◌==◌, Bool-cases,
  subst, if◌then◌else◌, arith, ==_iff,
}
use godis.ConcurrentDict.Locks.{Mode, reading, writing, Plan}
use godis.ConcurrentDict.Locking.{
  Thread, at, State, granted, conflicts, advance, update, holding, writes, in_plan, proceeds, works,
  begins, Reachable, starts, later,
}
use godis.ConcurrentDict.Locking.Order.{After, After-if}

granted-conflicts :
    (n : ℕ) (s : State) (i : ℕ) (mode : Mode) (k : ℕ)
    → granted n s i mode ≡ true
    → k < n
    → conflicts i mode (s k) ≡ false
unfolding granted
granted-conflicts zero s i mode k g lt = ground arith
granted-conflicts (suc n) s i mode k g lt = elim (Bool-cases (k == n)) [
  | inl same ↦
      subst (λ j. conflicts i mode (s j) ≡ false) (sym ((==_iff k n).0 same)) (ground arith)
  | inr other ↦ granted-conflicts n s i mode k (ground arith) (ground arith)
]

pub writes-in_plan : (i : ℕ) (plan : Plan) → writes i plan ≡ true → in_plan i plan ≡ true
writes-in_plan i [] h = h
writes-in_plan i ((j, reading) ∷ plan) h = ground (arith, writes-in_plan i plan)
writes-in_plan i ((j, writing) ∷ plan) h = ground (arith, writes-in_plan i plan)

-- What a step adds to the held mutexes was granted.
record Grows (grant : ℕ → Mode → Bool) (t t' : Thread) : Type 0 where
  written :
      (i : ℕ)
      → writes i (holding t') ≡ true
      → (writes i (holding t) ≡ true) ⊎ (grant i writing ≡ true)
  held :
      (i : ℕ)
      → in_plan i (holding t') ≡ true
      → (in_plan i (holding t) ≡ true) ⊎ ((mode : Mode) × (grant i mode ≡ true))

takes-Grows :
    (grant : ℕ → Mode → Bool) (w w' : Bool) (plan todo todo' : Plan) (i : ℕ) (mode : Mode)
    → grant i mode ≡ true
    → Grows grant (at w plan todo) (at w' ((i, mode) ∷ plan) todo')
takes-Grows grant w w' plan todo todo' i reading g = record {
  written = λ j h. inl h;
  held = λ j h. elim (Bool-cases (j == i)) [
    | inl same ↦ inr (reading, ground arith)
    | inr other ↦ inl (ground arith)
  ];
}
takes-Grows grant w w' plan todo todo' i writing g = record {
  written = λ j h. elim (Bool-cases (j == i)) [
    | inl same ↦ inr (ground arith)
    | inr other ↦ inl (ground arith)
  ];
  held = λ j h. elim (Bool-cases (j == i)) [
    | inl same ↦ inr (writing, ground arith)
    | inr other ↦ inl (ground arith)
  ];
}

advance-Grows : (grant : ℕ → Mode → Bool) (t : Thread) → After (Grows grant t) (advance grant t)
advance-Grows grant (at w [] []) = tt
advance-Grows grant (at w ((i, reading) ∷ plan) []) = record {
  written = λ j h. inl h;
  held = λ j h. inl (ground arith);
}
advance-Grows grant (at w ((i, writing) ∷ plan) []) = record {
  written = λ j h. inl (ground arith);
  held = λ j h. inl (ground arith);
}
advance-Grows grant (at false plan ((i, writing) ∷ todo)) = record {
  written = λ j h. inl h;
  held = λ j h. inl h;
}
advance-Grows grant (at true plan ((i, writing) ∷ todo)) =
    After-if _ (grant i writing) (at false ((i, writing) ∷ plan) todo)
      (takes-Grows grant true false plan ((i, writing) ∷ todo) todo i writing)
advance-Grows grant (at w plan ((i, reading) ∷ todo)) =
    After-if _ (grant i reading) (at w ((i, reading) ∷ plan) todo)
      (takes-Grows grant w w plan ((i, reading) ∷ todo) todo i reading)

abbrev Excludes : ℕ → State → Type 0
Excludes n s =
    (i j k : ℕ)
    → j < n
    → k < n
    → (j == k) ≡ false
    → writes i (holding (s j)) ≡ true
    → in_plan i (holding (s k)) ≡ false

written_by :
    (n : ℕ) (s : State) (a : ℕ) (t : Thread) (k : ℕ)
    → a < n
    → k < n
    → Excludes n s
    → Grows (granted n s) (s a) t
    → (i : ℕ) → (a == k) ≡ false
    → writes i (holding t) ≡ true
    → in_plan i (holding (s k)) ≡ false
written_by n s a t k la lk ex gr i ne h = elim (gr.written i h) [
  | inl old ↦ ex i a k la lk ne old
  | inr new ↦ granted-conflicts n s i writing k new lk
]

conflicts-writes :
    (i : ℕ) (mode : Mode) (t : Thread) → conflicts i mode t ≡ false → writes i (holding t) ≡ false
conflicts-writes i reading t h = ground arith
conflicts-writes i writing t h = ground (arith, writes-in_plan i (holding t))

held_by :
    (n : ℕ) (s : State) (a : ℕ) (t : Thread) (j : ℕ)
    → a < n
    → j < n
    → Excludes n s
    → Grows (granted n s) (s a) t
    → (i : ℕ) → (j == a) ≡ false
    → writes i (holding (s j)) ≡ true
    → in_plan i (holding t) ≡ false
held_by n s a t j la lj ex gr i ne h = elim (Bool-cases (in_plan i (holding t))) [
  | inl y ↦ elim (gr.held i y) [
    | inl old ↦ ground (arith, ex i j a lj la ne h)
    | inr (mode, new) ↦
        ground (arith, conflicts-writes i mode (s j) (granted-conflicts n s i mode j new lj))
  ]
  | inr n ↦ n
]

update-Excludes :
    (n : ℕ) (s : State) (a : ℕ) (t : Thread)
    → a < n
    → Excludes n s
    → Grows (granted n s) (s a) t
    → Excludes n (update a t s)
update-Excludes n s a t lt ex gr i j k lj lk ne h = elim (Bool-cases (a == j)) [
  | inl aj ↦
      let ak : (a == k) ≡ false = ground arith in
      rw ak (
        written_by n s a t k lt lk ex gr i ak
          (subst (λ b. writes i (holding (if b then t else s j)) ≡ true) aj h))
  | inr aj ↦
      let old : writes i (holding (s j)) ≡ true =
        subst (λ b. writes i (holding (if b then t else s j)) ≡ true) aj h in
      elim (Bool-cases (a == k)) [
        | inl ak ↦ rw ak (held_by n s a t j lt lj ex gr i (ground arith) old)
        | inr ak ↦ rw ak (ex i j k lj lk ne old)
      ]
]

Reachable-Excludes : {size n : ℕ} {s : State} → Reachable size n s → Excludes n s
Reachable-Excludes starts = λ i j k lj lk ne h. refl
Reachable-Excludes {n} (later {s} r (works (proceeds j {t} lt e))) =
    update-Excludes n s j t lt (Reachable-Excludes r)
      (subst (After (Grows (granted n s) (s j))) e (advance-Grows (granted n s) (s j)))
Reachable-Excludes {n} (later {s} r (begins j ws rs lt e)) =
    update-Excludes n s j _ lt (Reachable-Excludes r)
      (record { written = λ i h. ground arith; held = λ i h. ground arith })

-- In every state that goroutines reach with calls of `RWLocks` and `RWUnLocks`, a mutex that one of them
-- holds for writing is held by no other, not even for reading.
pub mutual_exclusion :
    {size n : ℕ} {s : State}
    → Reachable size n s
    → (i j k : ℕ) → j < n
    → k < n
    → writes i (holding (s j)) ≡ true
    → in_plan i (holding (s k)) ≡ true
    → j ≡ k
mutual_exclusion r i j k lj lk h h' = elim (Bool-cases (j == k)) [
  | inl same ↦ (==_iff j k).0 same
  | inr other ↦ ground (arith, Reachable-Excludes r i j k lj lk other h)
]
