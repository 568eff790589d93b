-- ===== src/Base/Cuts.antt =====
-- `take`, `drop` and `set` on lists that are put together from two.
use Prim.Native.Nat.{ℕ, zero, suc, ◌+◌, ◌≤◌, ◌<◌}
use mathlib.Core.Path.{◌≡◌, refl, ap}
use mathlib.Core.Option.{none}
use mathlib.Core.List.{List, [], ◌∷◌, ◌++◌}
use native.Mathlib.Omega.{arith}
use godis.Base.Lists.{length, get_elem?, set, take, drop}

module _ {ℓ} {A : Type ℓ} where
  pub get_elem?-out : (xs : List A) (i : ℕ) → length xs ≤ i → get_elem? xs i ≡ none
  get_elem?-out [] i h = refl
  get_elem?-out (x ∷ xs) zero h = absurd (omega arith)
  get_elem?-out (x ∷ xs) (suc i) h = get_elem?-out xs i (omega arith)

  pub take-append_left : (o : ℕ) (xs ys : List A) → o ≤ length xs → take o (xs ++ ys) ≡ take o xs
  take-append_left zero xs ys h = refl
  take-append_left (suc o) [] ys h = absurd (omega arith)
  take-append_left (suc o) (x ∷ xs) ys h = ap (λ t. x ∷ t) (take-append_left o xs ys (omega arith))

  pub drop-append_left :
      (o : ℕ) (xs ys : List A) → o ≤ length xs → drop o (xs ++ ys) ≡ drop o xs ++ ys
  drop-append_left zero xs ys h = refl
  drop-append_left (suc o) [] ys h = absurd (omega arith)
  drop-append_left (suc o) (x ∷ xs) ys h = drop-append_left o xs ys (omega arith)

  pub take-append_right :
      (o k : ℕ) (xs ys : List A) → o ≡ length xs + k → take o (xs ++ ys) ≡ xs ++ take k ys
  take-append_right o k [] ys h = ap (λ t. take t ys) (omega arith)
  take-append_right zero k (x ∷ xs) ys h = absurd (omega arith)
  take-append_right (suc o) k (x ∷ xs) ys h =
      ap (λ t. x ∷ t) (take-append_right o k xs ys (omega arith))

  pub drop-append_right :
      (o k : ℕ) (xs ys : List A) → o ≡ length xs + k → drop o (xs ++ ys) ≡ drop k ys
  drop-append_right o k [] ys h = ap (λ t. drop t ys) (omega arith)
  drop-append_right zero k (x ∷ xs) ys h = absurd (omega arith)
  drop-append_right (suc o) k (x ∷ xs) ys h = drop-append_right o k xs ys (omega arith)

  -- Doubling the element at `o` and writing over the first of the two inserts there.
  pub set-doubled :
      (xs : List A) (o : ℕ) (v : A)
      → o < length xs
      → set (take (suc o) xs ++ drop o xs) o v ≡ take o xs ++ v ∷ drop o xs
  set-doubled [] o v h = elim h [ ]
  set-doubled (x ∷ xs) zero v h = refl
  set-doubled (x ∷ xs) (suc o) v h = ap (λ t. x ∷ t) (set-doubled xs o v (omega arith))

  pub take-all : (o : ℕ) (xs : List A) → length xs ≤ o → take o xs ≡ xs
  take-all zero [] h = refl
  take-all zero (x ∷ xs) h = absurd (omega arith)
  take-all (suc o) [] h = refl
  take-all (suc o) (x ∷ xs) h = ap (λ t. x ∷ t) (take-all o xs (omega arith))

  pub drop-all : (o : ℕ) (xs : List A) → length xs ≤ o → drop o xs ≡ []
  drop-all zero [] h = refl
  drop-all zero (x ∷ xs) h = absurd (omega arith)
  drop-all (suc o) [] h = refl
  drop-all (suc o) (x ∷ xs) h = drop-all o xs (omega arith)

  -- A write at the head of what `drop` leaves.
  pub set-drop :
      (xs : List A) (i : ℕ) (v y : A) (ys : List A)
      → drop i xs ≡ y ∷ ys
      → set xs i v ≡ take i xs ++ v ∷ ys
  set-drop [] zero v y ys h = absurd (cc)
  set-drop [] (suc i) v y ys h = absurd (cc)
  set-drop (x ∷ xs) zero v y ys h = cc
  set-drop (x ∷ xs) (suc i) v y ys h = ap (λ t. x ∷ t) (set-drop xs i v y ys h)

  pub drop-suc :
      (xs : List A) (i : ℕ) (y : A) (ys : List A) → drop i xs ≡ y ∷ ys → drop (suc i) xs ≡ ys
  drop-suc [] zero y ys h = absurd (cc)
  drop-suc [] (suc i) y ys h = absurd (cc)
  drop-suc (x ∷ xs) zero y ys h = cc
  drop-suc (x ∷ xs) (suc i) y ys h = drop-suc xs i y ys h
