-- ===== src/ConcurrentDict/Locking/Progress.antt =====
-- datastruct/dict/concurrent.go: somebody can always go on, and every call ends.
use godis.Base.{
  ℕ, zero, suc, ◌+◌, ◌≤◌, ◌<◌, ◌≡◌, refl, sym, inl, inr, ◌⊎◌, Bool, true, false, some, [], ◌∷◌,
  ◌==◌, Bool-cases, subst, arith, ==_iff,
}
use godis.ConcurrentDict.Locks.{Mode, reading, writing, Plan}
use godis.ConcurrentDict.Locking.{
  Thread, at, State, idle, granted, conflicts, advance, update, holding, writes, in_plan, pending,
  Work, proceeds, Reachable,
}
use godis.ConcurrentDict.Locking.Order.{
  top, Descends, Disciplined, AllDisciplined, Reachable-AllDisciplined,
}
use godis.ConcurrentDict.Locking.Exclusion.{writes-in_plan}

refused-conflicts :
    (n : ℕ) (s : State) (i : ℕ) (mode : Mode)
    → granted n s i mode ≡ false
    → (k : ℕ) × (k < n) × (conflicts i mode (s k) ≡ true)
unfolding granted
refused-conflicts zero s i mode g = ground arith
refused-conflicts (suc n) s i mode g = elim (Bool-cases (conflicts i mode (s n))) [
  | inl here ↦ (n, omega arith, here)
  | inr there ↦
      let (k, lt, c) = refused-conflicts n s i mode (ground arith) in (k, omega (arith, lt), c)
]

-- The goroutine wants this mutex, in this mode.
abbrev Wants : ℕ → Mode → Thread → Type 0
Wants i mode (at w held []) = ⊥
Wants i mode (at w held ((j, m) ∷ todo)) = (i ≡ j) × (mode ≡ m)

abbrev CanStep : (ℕ → Mode → Bool) → Thread → Type 0
CanStep grant t = (t' : Thread) × (advance grant t ≡ some t')

-- A goroutine that is not idle goes on, unless a mutex is refused to it.
advance-or-refused :
    (grant : ℕ → Mode → Bool) (t : Thread)
    → idle t ≡ false
    → CanStep grant t ⊎ ((i : ℕ) × (mode : Mode) × Wants i mode t × (grant i mode ≡ false))
advance-or-refused grant (at w [] []) h = ground arith
advance-or-refused grant (at w (p ∷ held) []) h = inl (at w held [], refl)
advance-or-refused grant (at false held ((i, writing) ∷ todo)) h =
    inl (at true held ((i, writing) ∷ todo), refl)
advance-or-refused grant (at true held ((i, writing) ∷ todo)) h =
    elim (Bool-cases (grant i writing)) [
      | inl g ↦ inl (rw g (at false ((i, writing) ∷ held) todo, refl))
      | inr g ↦ inr (i, writing, (refl, refl), g)
    ]
advance-or-refused grant (at w held ((i, reading) ∷ todo)) h = elim (Bool-cases (grant i reading)) [
  | inl g ↦ inl (rw g (at w ((i, reading) ∷ held) todo, refl))
  | inr g ↦ inr (i, reading, (refl, refl), g)
]

in_plan-top : (i : ℕ) (held : Plan) → Descends held → in_plan i held ≡ true → i < top held
in_plan-top i [] d h = ground arith
in_plan-top i ((j, mode) ∷ held) (le, d) h = elim (Bool-cases (i == j)) [
  | inl same ↦ ground arith
  | inr other ↦ ground (arith, in_plan-top i held d)
]

-- Who holds a mutex wants only greater ones.
held-Wants :
    (i j : ℕ) (mode : Mode) (t : Thread)
    → Disciplined t
    → in_plan i (holding t) ≡ true
    → Wants j mode t
    → i < j
held-Wants i j mode (at w held []) d h x = ground arith
held-Wants i j mode (at w held ((k, m) ∷ todo)) (d, (le, a)) h (e, e') =
    let lt : i < top held = in_plan-top i held d h in omega (arith, e)

held-idle : (i : ℕ) (t : Thread) → in_plan i (holding t) ≡ true → idle t ≡ false
held-idle i (at w [] todo) h = ground arith
held-idle i (at w (p ∷ held) todo) h = refl

pending-Wants :
    (i : ℕ) (t : Thread)
    → pending i t ≡ true
    → (idle t ≡ false) × ((j : ℕ) (mode : Mode) → Wants j mode t → (i ≡ j) × (mode ≡ writing))
pending-Wants i (at true [] ((k, writing) ∷ todo)) h = (refl, λ j mode w. (ground arith, w.1))
pending-Wants i (at true (p ∷ held) ((k, writing) ∷ todo)) h =
    (refl, λ j mode w. (ground arith, w.1))
pending-Wants i _ h = ground arith

wanted : Thread → ℕ
wanted (at w held []) = 0
wanted (at w held ((i, mode) ∷ todo)) = i

Wants-wanted : (i : ℕ) (mode : Mode) (t : Thread) → Wants i mode t → wanted t ≡ i
unfolding wanted
Wants-wanted i mode (at w held []) h = ground arith
Wants-wanted i mode (at w held ((j, m) ∷ todo)) (e, e') = sym e

-- The sum of a measure over the goroutines
unfoldable pub sum : (Thread → ℕ) → ℕ → State → ℕ
sum f zero s = 0
sum f (suc n) s = f (s n) + sum f n s

pub sum-le : (f : Thread → ℕ) (n : ℕ) (s : State) (j : ℕ) → j < n → f (s j) ≤ sum f n s
unfolding sum
sum-le f zero s j lt = ground arith
sum-le f (suc n) s j lt = elim (Bool-cases (j == n)) [
  | inl same ↦ subst (λ k. f (s k) ≤ f (s n) + sum f n s) (sym ((==_iff j n).0 same)) (omega arith)
  | inr other ↦ let le : f (s j) ≤ sum f n s = sum-le f n s j (ground arith) in omega (arith, le)
]

SomeStep : ℕ → State → Type 0
SomeStep n s = (k : ℕ) × (k < n) × CanStep (granted n s) (s k)

-- From a goroutine that wants `i` on, somebody has a step.
abbrev Climbs : ℕ → ℕ → State → Type 0
Climbs fuel n s =
    (j : ℕ) → j < n → idle (s j) ≡ false → sum wanted n s < wanted (s j) + fuel → SomeStep n s

holder-Climbs :
    (fuel n : ℕ) (s : State) (i k : ℕ)
    → AllDisciplined s
    → Climbs fuel n s
    → sum wanted n s < i + suc fuel
    → k < n
    → in_plan i (holding (s k)) ≡ true
    → SomeStep n s
unfolding SomeStep
holder-Climbs fuel n s i k d climb b lt h =
    elim (advance-or-refused (granted n s) (s k) (held-idle i (s k) h)) [
      | inl step ↦ (k, lt, step)
      | inr (j, mode, w, g) ↦
          climb k lt (held-idle i (s k) h)
            (omega (arith, b, Wants-wanted j mode (s k) w, held-Wants i j mode (s k) (d k) h w))
    ]

writer-Climbs :
    (fuel n : ℕ) (s : State) (i k : ℕ)
    → AllDisciplined s
    → Climbs fuel n s
    → sum wanted n s < i + suc fuel
    → k < n
    → pending i (s k) ≡ true
    → SomeStep n s
unfolding SomeStep
writer-Climbs fuel n s i k d climb b lt h =
    let (busy, wants) = pending-Wants i (s k) h in
    elim (advance-or-refused (granted n s) (s k) busy) [
      | inl step ↦ (k, lt, step)
      | inr (j, mode, w, g) ↦
          let (e, e') = wants j mode w in
          let (l, lt', c) = refused-conflicts n s i writing (rw (sym e', e) g) in
          holder-Climbs fuel n s i l d climb b lt' c
    ]

blocked-Climbs :
    (fuel n : ℕ) (s : State) (i : ℕ) (mode : Mode) (k : ℕ)
    → AllDisciplined s
    → Climbs fuel n s
    → sum wanted n s < i + suc fuel
    → k < n
    → conflicts i mode (s k) ≡ true
    → SomeStep n s
blocked-Climbs fuel n s i writing k d climb b lt c = holder-Climbs fuel n s i k d climb b lt c
blocked-Climbs fuel n s i reading k d climb b lt c = elim (Bool-cases (writes i (holding (s k)))) [
  | inl holds ↦ holder-Climbs fuel n s i k d climb b lt (writes-in_plan i (holding (s k)) holds)
  | inr waits ↦ writer-Climbs fuel n s i k d climb b lt (ground arith)
]

climbs : (fuel n : ℕ) (s : State) → AllDisciplined s → Climbs fuel n s
unfolding SomeStep
climbs zero n s d j lt busy b = ground (arith, sum-le wanted n s j lt)
climbs (suc fuel) n s d j lt busy b = elim (advance-or-refused (granted n s) (s j) busy) [
  | inl step ↦ (j, lt, step)
  | inr (i, mode, w, g) ↦
      let (k, lt', c) = refused-conflicts n s i mode g in
      blocked-Climbs fuel n s i mode k d (climbs fuel n s d)
        (omega (arith, b, Wants-wanted i mode (s j) w)) lt' c
]

-- While some goroutine is in a call of `RWLocks` or `RWUnLocks`, one of them can go on: there is no
-- deadlock among any number of calls with any keys, waiting writers included.
pub no_deadlock :
    {size n : ℕ} {s : State}
    → Reachable size n s
    → (j : ℕ) → j < n
    → idle (s j) ≡ false
    → (s' : State) × Work n s s'
unfolding SomeStep
no_deadlock {n} {s} r j lt busy =
    let (k, lt', (t, e)) =
      climbs (suc (sum wanted n s)) n s (Reachable-AllDisciplined r) j lt busy (omega arith) in
    (update k t s, proceeds k lt' e)
