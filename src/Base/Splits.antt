-- ===== src/Base/Splits.antt =====
-- Reading, writing and cutting a list at the length of a prefix.
use Prim.Native.Nat.{ℕ, zero, suc, ◌<◌}
use mathlib.Core.Path.{◌≡◌, refl, ap}
use mathlib.Core.Bool.{Bool, true, false}
use mathlib.Core.Option.{some}
use mathlib.Core.List.{List, [], ◌∷◌, ◌++◌}
use native.Mathlib.Omega.{arith}
use godis.Base.Lists.{length, get_elem?, set, take, drop}

module _ {ℓ} {A : Type ℓ} where
  abbrev pub is_nil : List A → Bool
  is_nil [] = true
  is_nil (x ∷ xs) = false

  pub get_elem?-length : (l r : List A) (x : A) → get_elem? (l ++ x ∷ r) (length l) ≡ some x
  get_elem?-length [] r x = refl
  get_elem?-length (y ∷ l) r x = get_elem?-length l r x

  pub set-length : (l r : List A) (x v : A) → set (l ++ x ∷ r) (length l) v ≡ l ++ v ∷ r
  set-length [] r x v = refl
  set-length (y ∷ l) r x v = ap (λ t. y ∷ t) (set-length l r x v)

  pub take-length : (l r : List A) → take (length l) (l ++ r) ≡ l
  take-length [] r = refl
  take-length (y ∷ l) r = ap (λ t. y ∷ t) (take-length l r)

  pub drop-length : (l r : List A) → drop (length l) (l ++ r) ≡ r
  drop-length [] r = refl
  drop-length (y ∷ l) r = drop-length l r

  pub take-suc-length : (l r : List A) (x : A) → take (suc (length l)) (l ++ x ∷ r) ≡ l ++ x ∷ []
  take-suc-length [] r x = refl
  take-suc-length (y ∷ l) r x = ap (λ t. y ∷ t) (take-suc-length l r x)

  pub drop-suc-length : (l r : List A) (x : A) → drop (suc (length l)) (l ++ x ∷ r) ≡ r
  drop-suc-length [] r x = refl
  drop-suc-length (y ∷ l) r x = drop-suc-length l r x

  -- A list that is not empty, by its last element.
  pub snoc_view :
      (x : A) (xs : List A) → record { init : List A; last : A; eq : x ∷ xs ≡ init ++ last ∷ [] }
  snoc_view x [] = record { init = []; last = x; eq = refl }
  snoc_view x (y ∷ ys) =
      let v = snoc_view y ys in
      record { init = x ∷ v.init; last = v.last; eq = ap (λ t. x ∷ t) v.eq }

  -- A list behind an index in range: the element there and the rest.
  pub drop_view : (xs : List A) (i : ℕ) → i < length xs → record {
    mid : A;
    rest : List A;
    eq : drop i xs ≡ mid ∷ rest;
    found : get_elem? xs i ≡ some mid;
  }
  drop_view [] i h = elim h [ ]
  drop_view (x ∷ xs) zero h = record { mid = x; rest = xs; eq = refl; found = refl }
  drop_view (x ∷ xs) (suc i) h =
      let v = drop_view xs i (omega arith) in
      record { mid = v.mid; rest = v.rest; eq = v.eq; found = v.found }

  -- The two parts of a list are what `take` and `drop` cut off.
  pub append_parts :
      (L R xs : List A) (i : ℕ) → xs ≡ L ++ R → i ≡ length L → (L ≡ take i xs) × (R ≡ drop i xs)
  append_parts L R xs i e h = (rw (e, h) (rw take-length), rw (e, h) (rw drop-length))
