-- ===== src/ConcurrentDict/Locking.antt =====
-- datastruct/dict/concurrent.go: goroutines that call `RWLocks` and then `RWUnLocks`, in any interleaving.
-- The mutexes are `sync.RWMutex`es, as its documentation describes them: `Lock` waits until nobody holds the
-- mutex, and `RLock` until nobody holds it for writing and no call of `Lock` waits.
pub mod Order
pub mod Exclusion
pub mod Taken
pub mod Held
pub mod Progress
pub mod Finish
use godis.Base.{
  ℕ, zero, suc, ◌≤◌, ◌<◌, ◌≡◌, Bool, true, false, Option, none, some, List, [], ◌∷◌, ◌&&◌, ◌||◌,
  not, Bytes, ◌==◌, if◌then◌else◌,
}
use godis.ConcurrentDict.Locks.{Mode, reading, writing, Plan, rw_locks}

-- A goroutine: whether it waits in a call of `Lock`, the mutexes it holds, the last one taken first, and
-- those its call of `RWLocks` has yet to take. With nothing left to take it releases them: `RWUnLocks` goes
-- through the mutexes of `RWLocks` backwards.
pub data Thread : Type 0 where
  at : (waiting : Bool) (held todo : Plan) → Thread

abbrev pub State : Type 0
State = ℕ → Thread

abbrev pub idle : Thread → Bool
idle (at w [] []) = true
idle (at w held todo) = false

abbrev pub in_plan : ℕ → Plan → Bool
in_plan i [] = false
in_plan i ((j, mode) ∷ plan) = i == j || in_plan i plan

abbrev pub writes : ℕ → Plan → Bool
writes i [] = false
writes i ((j, reading) ∷ plan) = writes i plan
writes i ((j, writing) ∷ plan) = i == j || writes i plan

abbrev pub holding : Thread → Plan
holding (at w held todo) = held

abbrev pub pending : ℕ → Thread → Bool
pending i (at true held ((j, writing) ∷ todo)) = i == j
pending i _ = false

abbrev pub conflicts : ℕ → Mode → Thread → Bool
conflicts i reading t = writes i (holding t) || pending i t
conflicts i writing t = in_plan i (holding t)

-- What the mutex grants, in a state of `n` goroutines.
unfoldable pub granted : ℕ → State → ℕ → Mode → Bool
granted zero s i mode = true
granted (suc n) s i mode = not (conflicts i mode (s n)) && granted n s i mode

-- The next thing a goroutine does, when it can do it.
abbrev pub advance : (ℕ → Mode → Bool) → Thread → Option Thread
advance grant (at w [] []) = none
advance grant (at w (h ∷ held) []) = some (at w held [])
advance grant (at false held ((i, writing) ∷ todo)) = some (at true held ((i, writing) ∷ todo))
advance grant (at true held ((i, writing) ∷ todo)) =
    if grant i writing then some (at false ((i, writing) ∷ held) todo) else none
advance grant (at w held ((i, reading) ∷ todo)) =
    if grant i reading then some (at w ((i, reading) ∷ held) todo) else none

abbrev pub update : ℕ → Thread → State → State
update j t s k = if j == k then t else s k

pub data Work (n : ℕ) (s : State) : State → Type 0 where
  proceeds :
      (j : ℕ) {t : Thread} → j < n → advance (granted n s) (s j) ≡ some t → Work n s (update j t s)

-- Goroutines that work on calls of `RWLocks` and `RWUnLocks`, and idle ones that call it with any keys.
pub data Step (size n : ℕ) (s : State) : State → Type 0 where
  works : {s' : State} → Work n s s' → Step size n s s'
  begins :
      (j : ℕ) (write_keys read_keys : List Bytes)
      → j < n
      → idle (s j) ≡ true
      → Step size n s (update j (at false [] (rw_locks size write_keys read_keys)) s)

abbrev pub all_idle : State
all_idle j = at false [] []

pub data Reachable (size n : ℕ) : State → Type 0 where
  starts : Reachable size n all_idle
  later : {s s' : State} → Reachable size n s → Step size n s s' → Reachable size n s'
