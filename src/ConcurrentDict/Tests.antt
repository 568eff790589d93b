-- ===== src/ConcurrentDict/Tests.antt =====
-- datastruct/dict/concurrent.go: runs of the sharded dict and of its mutexes.
use godis.Base.{
  ℕ, ◌≡◌, refl, ◌≤◌, ◌<◌, ◌^◌, false, List, [], ◌∷◌, ◌==◌, Bytes, bytes_eq, Option, some, none,
  arith,
}
use godis.Base.Int.{pos}
use godis.ConcurrentDict.{compute_capacity, make_concurrent, spread}
use godis.ConcurrentDict.Refinement.{Refines, operations-Refines, make_concurrent-Represents}
use godis.ConcurrentDict.Locks.{rw_locks, to_lock_indices}
use godis.ConcurrentDict.Locking.{
  Thread, at, State, granted, update, all_idle, advance, proceeds, begins, works, Reachable, starts,
  later,
}
use godis.ConcurrentDict.Locking.Taken.{lists}
use godis.ConcurrentDict.Locking.Held.{
  Called, calls, takes, other_works, other_begins, returned, keys_excluded,
}
use godis.ConcurrentDict.Locking.Progress.{sum}
use godis.ConcurrentDict.Locking.Finish.{Works, stays, calls_end, AllIdle, steps_left}

abbrev key_a : Bytes
key_a = 97 ∷ []

abbrev key_b : Bytes
key_b = 98 ∷ []

twenty_fit : compute_capacity (pos 20) < 2 ^ 32
unfolding compute_capacity
twenty_fit = omega arith

operations-Refines_example : Refines {V = ℕ} (make_concurrent (pos 20)) [] key_a 7
operations-Refines_example =
    operations-Refines (make_concurrent (pos 20)) [] key_a 7
      (make_concurrent-Represents (pos 20) twenty_fit)

went : ℕ → State → Option Thread → State
went j s none = s
went j s (some t) = update j t s

-- A turn of goroutine `j`
go : ℕ → ℕ → State → State
unfolding went
go n j s = went j s (advance (granted n s) (s j))

go-Reachable :
    {size n : ℕ} {s : State} (j : ℕ) → j < n → Reachable size n s → Reachable size n (go n j s)
unfolding go
go-Reachable {size} {n} {s} j lt r = went-Reachable (advance (granted n s) (s j)) refl
  where
    went-Reachable :
        (o : Option Thread) → advance (granted n s) (s j) ≡ o → Reachable size n (went j s o)
    went-Reachable none e = r
    went-Reachable (some t) e = later r (works (proceeds j lt e))

-- Goroutine 0 writes `a` and reads `b`, goroutine 1 the other way round.
abbrev called : State
called =
    update 1 (at false [] (rw_locks 16 (key_b ∷ []) (key_a ∷ [])))
      (update 0 (at false [] (rw_locks 16 (key_a ∷ []) (key_b ∷ []))) all_idle)

called-Reachable : Reachable 16 2 called
called-Reachable =
    later (later starts (begins 0 (key_a ∷ []) (key_b ∷ []) (omega arith) refl))
      (begins 1 (key_b ∷ []) (key_a ∷ []) (omega arith) refl)

-- Goroutine 0 has both mutexes, and goroutine 1 waits for its first.
abbrev holds_both : State
holds_both = go 2 1 (go 2 0 (go 2 0 (go 2 0 called)))

holds_both-Reachable : Reachable 16 2 holds_both
holds_both-Reachable = go-Reachable 1 (omega arith) (
    go-Reachable 0 (omega arith)
      (go-Reachable 0 (omega arith) (go-Reachable 0 (omega arith) called-Reachable)))

go-Called :
    {size n j : ℕ} {ws rs : List Bytes} {s : State}
    → Called size n j ws rs s
    → returned (s j) ≡ false
    → Called size n j ws rs (go n j s)
unfolding go
go-Called {size} {n} {j} {ws} {rs} {s} c r = turn (advance (granted n s) (s j)) refl
  where
    turn :
        (o : Option Thread) → advance (granted n s) (s j) ≡ o → Called size n j ws rs (went j s o)
    turn none e = unfold went in c
    turn (some t) e = unfold went in takes c r e

go-Called_other :
    {size n j : ℕ} {ws rs : List Bytes} {s : State} (k : ℕ)
    → k < n
    → (k == j) ≡ false
    → Called size n j ws rs s
    → Called size n j ws rs (go n k s)
unfolding go
go-Called_other {size} {n} {j} {ws} {rs} {s} k lt ne c = turn (advance (granted n s) (s k)) refl
  where
    turn :
        (o : Option Thread) → advance (granted n s) (s k) ≡ o → Called size n j ws rs (went k s o)
    turn none e = unfold went in c
    turn (some t) e = unfold went in other_works k c lt ne e

abbrev key_c : Bytes
key_c = 99 ∷ []

-- Goroutine 0 writes `a`, goroutine 1 writes `b`, and both read `c`.
abbrev first_called : State
first_called = update 0 (at false [] (rw_locks 16 (key_a ∷ []) (key_c ∷ []))) all_idle

abbrev both_called : State
both_called = update 1 (at false [] (rw_locks 16 (key_b ∷ []) (key_c ∷ []))) first_called

abbrev both_have : State
both_have = go 2 1 (go 2 1 (go 2 1 (go 2 0 (go 2 0 (go 2 0 both_called)))))

first-Called : Called 16 2 0 (key_a ∷ []) (key_c ∷ []) both_have
unfolding go went granted rw_locks to_lock_indices spread
first-Called = go-Called_other 1 (omega arith) refl (
    go-Called_other 1 (omega arith) refl (
      go-Called_other 1 (omega arith) refl (
        go-Called
          (go-Called
            (go-Called
              (other_begins 1 (key_b ∷ []) (key_c ∷ []) (calls starts (omega arith) refl)
                (omega arith) refl refl)
              refl)
            refl)
          refl)))

second-Called : Called 16 2 1 (key_b ∷ []) (key_c ∷ []) both_have
unfolding go went granted rw_locks to_lock_indices spread
second-Called =
    go-Called
      (go-Called
        (go-Called
          (go-Called_other 0 (omega arith) refl (
            go-Called_other 0 (omega arith) refl (
              go-Called_other 0 (omega arith) refl (
                calls (later starts (begins 0 (key_a ∷ []) (key_c ∷ []) (omega arith) refl))
                  (omega arith) refl))))
          refl)
        refl)
      refl

keys_excluded_example : lists key_a (key_b ∷ key_c ∷ []) ≡ false
unfolding go went granted rw_locks to_lock_indices spread bytes_eq
keys_excluded_example = keys_excluded 0 1 key_a first-Called second-Called refl refl refl refl

calls_end_example :
    (0 ≤ sum steps_left 2 holds_both)
    × ((m : ℕ) × (s : State) × Works 2 holds_both m s × AllIdle 2 s)
calls_end_example = calls_end holds_both-Reachable stays
