-- ===== src/ConcurrentDict/Locking/Finish.antt =====
-- datastruct/dict/concurrent.go: calls of `RWLocks` and `RWUnLocks` end, whatever the scheduler does.
use godis.Base.{
  ℕ, zero, suc, ◌+◌, ◌*◌, ◌≤◌, ◌<◌, ◌≡◌, refl, sym, inl, inr, ◌⊎◌, Bool, true, false, [], ◌∷◌, ◌==◌,
  Bool-cases, subst, if◌then◌else◌, arith, ==_iff, length,
}
use godis.ConcurrentDict.Locks.{Mode, reading, writing}
use godis.ConcurrentDict.Locking.{
  Thread, at, State, idle, granted, advance, update, Work, proceeds, works, Reachable, later,
}
use godis.ConcurrentDict.Locking.Order.{After, After-if}
use godis.ConcurrentDict.Locking.Progress.{sum, no_deadlock}

-- The steps that a goroutine has before it
abbrev pub steps_left : Thread → ℕ
steps_left (at w held todo) = 3 * length todo + length held + (if w then 0 else 1)

Shorter : Thread → Thread → Type 0
Shorter t t' = suc (steps_left t') ≤ steps_left t

advance-Shorter : (grant : ℕ → Mode → Bool) (t : Thread) → After (Shorter t) (advance grant t)
unfolding Shorter
advance-Shorter grant (at w [] []) = tt
advance-Shorter grant (at w (p ∷ held) []) = omega arith
advance-Shorter grant (at false held ((i, writing) ∷ todo)) = omega arith
advance-Shorter grant (at true held ((i, writing) ∷ todo)) =
    After-if _ (grant i writing) (at false ((i, writing) ∷ held) todo) (λ g. omega arith)
advance-Shorter grant (at w held ((i, reading) ∷ todo)) =
    After-if _ (grant i reading) (at w ((i, reading) ∷ held) todo) (λ g. omega arith)

sum-beyond :
    (n : ℕ) (s : State) (j : ℕ) (t : Thread)
    → n ≤ j
    → sum steps_left n (update j t s) ≡ sum steps_left n s
unfolding sum
sum-beyond zero s j t le = refl
sum-beyond (suc n) s j t le =
    let other : (j == n) ≡ false = ground arith in
    rw other (omega (arith, sum-beyond n s j t (omega arith)))

sum-update :
    (n : ℕ) (s : State) (j : ℕ) (t : Thread)
    → j < n
    → Shorter (s j) t
    → suc (sum steps_left n (update j t s)) ≤ sum steps_left n s
unfolding sum Shorter
sum-update zero s j t lt sh = ground arith
sum-update (suc n) s j t lt sh = elim (Bool-cases (j == n)) [
  | inl same ↦
      let e : j ≡ n = (==_iff j n).0 same in
      let sh' : suc (steps_left t) ≤ steps_left (s n) =
        subst (λ k. suc (steps_left t) ≤ steps_left (s k)) e sh in
      rw same (omega (arith, sh', sum-beyond n s j t (omega (arith, e))))
  | inr other ↦
      let le : suc (sum steps_left n (update j t s)) ≤ sum steps_left n s =
        sum-update n s j t (ground arith) sh in
      rw other (omega (arith, le))
]

Work-sum : {n : ℕ} {s s' : State} → Work n s s' → suc (sum steps_left n s') ≤ sum steps_left n s
Work-sum {n} {s} (proceeds j {t} lt e) =
    sum-update n s j t lt (subst (After (Shorter (s j))) e (advance-Shorter (granted n s) (s j)))

-- `k` steps of goroutines that work on their calls
pub data Works (n : ℕ) (s : State) : ℕ → State → Type 0 where
  stays : Works n s 0 s
  more : {k : ℕ} {s' s'' : State} → Works n s k s' → Work n s' s'' → Works n s (suc k) s''

Works-sum :
    {n : ℕ} {s : State} {k : ℕ} {s' : State}
    → Works n s k s'
    → k + sum steps_left n s' ≤ sum steps_left n s
Works-sum stays = omega arith
Works-sum (more ws w) = omega (arith, Works-sum ws, Work-sum w)

Works-Reachable :
    {size n : ℕ} {s : State} {k : ℕ} {s' : State}
    → Works n s k s'
    → Reachable size n s
    → Reachable size n s'
Works-Reachable stays r = r
Works-Reachable (more ws w) r = later (Works-Reachable ws r) (works w)

Works-chain :
    {n : ℕ} {s s' : State} {k : ℕ} {s'' : State}
    → Works n s' k s''
    → Work n s s'
    → Works n s (suc k) s''
Works-chain stays w = more stays w
Works-chain (more ws w') w = more (Works-chain ws w) w'

abbrev pub AllIdle : ℕ → State → Type 0
AllIdle n s = (j : ℕ) → j < n → idle (s j) ≡ true

find_busy : (n : ℕ) (s : State) → AllIdle n s ⊎ ((j : ℕ) × (j < n) × (idle (s j) ≡ false))
find_busy zero s = inl (λ j lt. ground arith)
find_busy (suc n) s = elim (Bool-cases (idle (s n))) [
  | inr busy ↦ inr (n, omega arith, busy)
  | inl rests ↦ elim (find_busy n s) [
    | inr (j, lt, busy) ↦ inr (j, omega (arith, lt), busy)
    | inl all ↦ inl (λ j lt. elim (Bool-cases (j == n)) [
      | inl same ↦ subst (λ k. idle (s k) ≡ true) (sym ((==_iff j n).0 same)) rests
      | inr other ↦ all j (ground arith)
    ])
  ]
]

-- Enough fuel: the steps that are left
ends :
    {size : ℕ} (fuel n : ℕ) (s : State)
    → Reachable size n s
    → sum steps_left n s ≤ fuel
    → (m : ℕ) × (s' : State) × Works n s m s' × AllIdle n s'
ends zero n s r le = elim (find_busy n s) [
  | inl all ↦ (0, s, stays, all)
  | inr (j, lt, busy) ↦ let (s', w) = no_deadlock r j lt busy in ground (arith, Work-sum w)
]
ends (suc fuel) n s r le = elim (find_busy n s) [
  | inl all ↦ (0, s, stays, all)
  | inr (j, lt, busy) ↦
      let (s', w) = no_deadlock r j lt busy in
      let (m, s'', ws, all) = ends fuel n s' (later r (works w)) (omega (arith, le, Work-sum w)) in
      (suc m, s'', Works-chain ws w, all)
]

-- However the goroutines that are in calls of `RWLocks` and `RWUnLocks` are scheduled, they take no more
-- steps together than there are left in the state they start from, and after any steps there are further
-- ones that end with every call done and no mutex held.
pub calls_end :
    {size n k : ℕ} {s s' : State}
    → Reachable size n s
    → Works n s k s'
    → (k ≤ sum steps_left n s) × ((m : ℕ) × (s'' : State) × Works n s' m s'' × AllIdle n s'')
calls_end {n} {s'} r ws = (
  omega (arith, Works-sum ws),
  ends (sum steps_left n s') n s' (Works-Reachable ws r) (omega arith),
)
