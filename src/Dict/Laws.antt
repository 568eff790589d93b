-- ===== src/Dict/Laws.antt =====
-- datastruct/dict/simple.go: what a map holds after a write or a removal.
use godis.Base.{
  ◌≡◌, ◌≢◌, refl, sym, ◌∙◌, inl, inr, true, false, [], ◌∷◌, none, some, Bytes, bytes_eq,
  bytes_eq_iff, bytes_eq_refl, Bool-cases, if◌then◌else◌,
}
use godis.Dict.{Dict, get, delete, insert, put_if_absent, put_if_exists}

bytes_eq_same : (i j k : Bytes) → bytes_eq i j ≡ true → bytes_eq i k ≡ bytes_eq j k
bytes_eq_same i j k e = rw ((bytes_eq_iff i j).0 e) refl

bytes_eq_ne : (i j k : Bytes) → bytes_eq i j ≡ true → bytes_eq i k ≡ false → bytes_eq k j ≡ false
bytes_eq_ne i j k e ne = elim (Bool-cases (bytes_eq k j)) [
  | inl same ↦
      absurd (true_ne_false (sym (eq ((bytes_eq_iff i j).0 e) ((bytes_eq_iff k j).0 same)) ∙ ne))
  | inr h ↦ h
]
  where
    true_ne_false : true ≢ false
    true_ne_false h = cc

    eq : i ≡ j → k ≡ j → bytes_eq i k ≡ true
    eq same_i same_k = rw (same_i, same_k) (bytes_eq_refl j)

module _ {ℓ} {V : Type ℓ} where
  pub get-delete :
      (d : Dict V) (k j : Bytes) → get (delete d k) j ≡ (if bytes_eq k j then none else get d j)
  unfolding get delete
  get-delete [] k j = elim (Bool-cases (bytes_eq k j)) [ inl e ↦ rw e refl | inr e ↦ rw e refl ]
  get-delete ((i, v) ∷ d) k j = elim (Bool-cases (bytes_eq i k)) [
    | inl e ↦
        rw (e, bytes_eq_same i k j e, get-delete d k j)
          (elim (Bool-cases (bytes_eq k j)) [ inl e' ↦ rw e' refl | inr e' ↦ rw e' refl ])
    | inr e ↦ rw e (elim (Bool-cases (bytes_eq i j)) [
      | inl e' ↦ rw (e', bytes_eq_ne i j k e' e) refl
      | inr e' ↦ rw (e', get-delete d k j) refl
    ])
  ]

  pub get-insert :
      (d : Dict V) (k j : Bytes) (v : V)
      → get (insert d k v) j ≡ (if bytes_eq k j then some v else get d j)
  unfolding get insert
  get-insert d k j v = elim (Bool-cases (bytes_eq k j)) [
    | inl e ↦ rw e refl
    | inr e ↦ rw (e, get-delete d k j, e) refl
  ]

  pub get-insert_self : (d : Dict V) (k : Bytes) (v : V) → get (insert d k v) k ≡ some v
  get-insert_self d k v = rw (get-insert d k k v, bytes_eq_refl k) refl

  pub get-delete_self : (d : Dict V) (k : Bytes) → get (delete d k) k ≡ none
  get-delete_self d k = rw (get-delete d k k, bytes_eq_refl k) refl

  -- The same for a key that is known to be the one written, or another.
  pub get-delete_same : (d : Dict V) (k j : Bytes) → bytes_eq k j ≡ true → get (delete d k) j ≡ none
  get-delete_same d k j e = rw (get-delete d k j, e) refl

  pub get-delete_other :
      (d : Dict V) (k j : Bytes) → bytes_eq k j ≡ false → get (delete d k) j ≡ get d j
  get-delete_other d k j e = rw (get-delete d k j, e) refl

  pub get-insert_same :
      (d : Dict V) (k j : Bytes) (v : V) → bytes_eq k j ≡ true → get (insert d k v) j ≡ some v
  get-insert_same d k j v e = rw (get-insert d k j v, e) refl

  pub get-insert_other :
      (d : Dict V) (k j : Bytes) (v : V) → bytes_eq k j ≡ false → get (insert d k v) j ≡ get d j
  get-insert_other d k j v e = rw (get-insert d k j v, e) refl

  pub put_if_absent_new :
      (d : Dict V) (k : Bytes) (v : V) → get d k ≡ none → put_if_absent d k v ≡ (insert d k v, 1)
  unfolding put_if_absent
  put_if_absent_new d k v e = rw (e, put_if_absent) refl

  pub put_if_absent_old :
      (d : Dict V) (k : Bytes) (v w : V) → get d k ≡ some w → put_if_absent d k v ≡ (d, 0)
  unfolding put_if_absent
  put_if_absent_old d k v w e = rw (e, put_if_absent) refl

  pub put_if_exists_new :
      (d : Dict V) (k : Bytes) (v : V) → get d k ≡ none → put_if_exists d k v ≡ (d, 0)
  unfolding put_if_exists
  put_if_exists_new d k v e = rw (e, put_if_exists) refl

  pub put_if_exists_old :
      (d : Dict V) (k : Bytes) (v w : V)
      → get d k ≡ some w
      → put_if_exists d k v ≡ (insert d k v, 1)
  unfolding put_if_exists
  put_if_exists_old d k v w e = rw (e, put_if_exists) refl
