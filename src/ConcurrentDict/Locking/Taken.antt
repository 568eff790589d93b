-- ===== src/ConcurrentDict/Locking/Taken.antt =====
-- datastruct/dict/concurrent.go: which mutexes a call of `RWLocks` takes, by its keys.
use godis.Base.{
  ℕ, ◌≡◌, refl, ◌∙◌, inl, inr, Bool, true, false, List, [], ◌∷◌, ◌++◌, map, Bytes, bytes_eq,
  bytes_eq_iff, ◌==◌, ==_iff, ◌||◌, Bool-cases, subst, arith, if◌then◌else◌,
}
use godis.ConcurrentDict.{spread}
use godis.ConcurrentDict.Locks.{
  rw_locks, has_index, index_map, mode_of, to_lock_indices, ascending, has_index-sort_by,
}
use godis.ConcurrentDict.Locking.{writes, in_plan}

-- The key is one of the list.
abbrev pub lists : Bytes → List Bytes → Bool
lists key [] = false
lists key (k ∷ keys) = bytes_eq key k || lists key keys

lists-append :
    (key : Bytes) (ks js : List Bytes) → lists key (ks ++ js) ≡ (lists key ks || lists key js)
lists-append key [] js = refl
lists-append key (k ∷ ks) js = ground (arith, lists-append key ks js)

-- The mutex of a key is among those of the keys.
lists-index_map :
    (size : ℕ) (key : Bytes) (keys : List Bytes)
    → lists key keys ≡ true
    → has_index (spread size key) (index_map size keys) ≡ true
unfolding index_map
lists-index_map size key [] h = ground arith
lists-index_map size key (k ∷ keys) h = elim (Bool-cases (bytes_eq key k)) [
  | inl same ↦
      rw ((bytes_eq_iff key k).0 same) (here (has_index (spread size k) (index_map size keys)) refl)
  | inr other ↦
      there (has_index (spread size k) (index_map size keys))
        (lists-index_map size key keys (ground arith))
]
  where
    here :
        (b : Bool)
        → has_index (spread size k) (index_map size keys) ≡ b
        → has_index
            (spread size k)
            (if b then index_map size keys else spread size k ∷ index_map size keys)
          ≡ true
    here true e = e
    here false e = ground arith

    there :
        (b : Bool)
        → has_index (spread size key) (index_map size keys) ≡ true
        → has_index
            (spread size key)
            (if b then index_map size keys else spread size k ∷ index_map size keys)
          ≡ true
    there true e = e
    there false e = ground arith

in_plan-map : (i : ℕ) (w is : List ℕ) → in_plan i (map (mode_of w) is) ≡ has_index i is
unfolding mode_of
in_plan-map i w [] = refl
in_plan-map i w (j ∷ is) = ground (arith, in_plan-map i w is)

writes-map :
    (i : ℕ) (w is : List ℕ) → has_index i w ≡ true → writes i (map (mode_of w) is) ≡ has_index i is
unfolding mode_of
writes-map i w [] h = refl
writes-map i w (j ∷ is) h = elim (Bool-cases (has_index j w)) [
  | inl wr ↦ simp wr (ground (arith, writes-map i w is h))
  | inr rd ↦ simp rd (elim (Bool-cases (i == j)) [
    | inl same ↦ ground (arith, subst (λ k. has_index k w ≡ true) ((==_iff i j).0 same) h)
    | inr other ↦ ground (arith, writes-map i w is h)
  ])
]

-- `RWLocks` takes the mutex of every key, and that of a key to write for writing.
pub rw_locks-in_plan :
    (size : ℕ) (write_keys read_keys : List Bytes) (key : Bytes)
    → lists key (write_keys ++ read_keys) ≡ true
    → in_plan (spread size key) (rw_locks size write_keys read_keys) ≡ true
unfolding rw_locks to_lock_indices ascending
rw_locks-in_plan size write_keys read_keys key h =
    in_plan-map (spread size key) (index_map size write_keys) _
    ∙ has_index-sort_by (spread size key) (index_map size (write_keys ++ read_keys))
    ∙ lists-index_map size key (write_keys ++ read_keys) h

pub rw_locks-writes :
    (size : ℕ) (write_keys read_keys : List Bytes) (key : Bytes)
    → lists key write_keys ≡ true
    → writes (spread size key) (rw_locks size write_keys read_keys) ≡ true
unfolding rw_locks to_lock_indices ascending
rw_locks-writes size write_keys read_keys key h =
    writes-map (spread size key) (index_map size write_keys) _
      (lists-index_map size key write_keys h)
    ∙ has_index-sort_by (spread size key) (index_map size (write_keys ++ read_keys))
    ∙ lists-index_map size key (write_keys ++ read_keys)
        (lists-append key write_keys read_keys ∙ rw h refl)
