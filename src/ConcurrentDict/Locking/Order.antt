-- ===== src/ConcurrentDict/Locking/Order.antt =====
-- datastruct/dict/concurrent.go: the order in which goroutines hold and take the mutexes of `RWLocks`.
use godis.Base.{
  ℕ, suc, ◌≤◌, ◌≡◌, refl, inl, inr, Bool, true, false, Option, none, some, [], ◌∷◌, ◌==◌,
  Bool-cases, subst, if◌then◌else◌,
}
use godis.ConcurrentDict.Locks.{Mode, reading, writing, Plan, Ascends, rw_locks, rw_locks-Ascends}
use godis.ConcurrentDict.Locking.{
  Thread, at, State, granted, advance, update, Work, proceeds, works, begins, Reachable, starts,
  later,
}

-- More than every index that is held
abbrev pub top : Plan → ℕ
top [] = 0
top ((i, mode) ∷ held) = suc i

abbrev pub Descends : Plan → Type 0
Descends [] = Unit
Descends ((i, mode) ∷ held) = (top held ≤ i) × Descends held

abbrev pub Disciplined : Thread → Type 0
Disciplined (at w held todo) = Descends held × Ascends (top held) todo

-- What holds of the goroutine after its step, when it has one
abbrev pub After : (Thread → Type 0) → Option Thread → Type 0
After P none = Unit
After P (some t) = P t

pub After-if :
    (P : Thread → Type 0) (g : Bool) (t : Thread)
    → (g ≡ true → P t)
    → After P (if g then some t else none)
After-if P true t h = h refl
After-if P false t h = tt

advance-Disciplined :
    (grant : ℕ → Mode → Bool) (t : Thread) → Disciplined t → After Disciplined (advance grant t)
advance-Disciplined grant (at w [] []) d = tt
advance-Disciplined grant (at w ((i, mode) ∷ held) []) ((le, ds), a) = (ds, tt)
advance-Disciplined grant (at false held ((i, writing) ∷ todo)) d = d
advance-Disciplined grant (at true held ((i, writing) ∷ todo)) (ds, (le, a)) =
    After-if Disciplined (grant i writing) (at false ((i, writing) ∷ held) todo)
      (λ g. ((le, ds), a))
advance-Disciplined grant (at w held ((i, reading) ∷ todo)) (ds, (le, a)) =
    After-if Disciplined (grant i reading) (at w ((i, reading) ∷ held) todo) (λ g. ((le, ds), a))

abbrev pub AllDisciplined : State → Type 0
AllDisciplined s = (j : ℕ) → Disciplined (s j)

update-AllDisciplined :
    (s : State) (j : ℕ) (t : Thread)
    → AllDisciplined s
    → Disciplined t
    → AllDisciplined (update j t s)
update-AllDisciplined s j t ds d k = elim (Bool-cases (j == k)) [
  | inl same ↦ rw same d
  | inr other ↦ rw other (ds k)
]

Work-AllDisciplined : {n : ℕ} {s s' : State} → Work n s s' → AllDisciplined s → AllDisciplined s'
Work-AllDisciplined {n} {s} (proceeds j {t} lt e) ds =
    update-AllDisciplined s j t ds
      (subst (After Disciplined) e (advance-Disciplined (granted n s) (s j) (ds j)))

-- Whoever is in a call of `RWLocks` or `RWUnLocks` holds and wants the mutexes in ascending order.
pub Reachable-AllDisciplined : {size n : ℕ} {s : State} → Reachable size n s → AllDisciplined s
Reachable-AllDisciplined starts = λ j. (tt, tt)
Reachable-AllDisciplined (later r (works w)) = Work-AllDisciplined w (Reachable-AllDisciplined r)
Reachable-AllDisciplined {size} (later {s} r (begins j ws rs lt e)) =
    update-AllDisciplined s j (at false [] (rw_locks size ws rs)) (Reachable-AllDisciplined r)
      (tt, rw_locks-Ascends size ws rs)
