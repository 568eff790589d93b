-- ===== src/Base/Outcome.antt =====
-- Go code that returns or panics: an index out of range, a nil dereference, an explicit `panic`.
use mathlib.Core.Path.{◌≡◌, refl, ap}

pub data Outcome {ℓ} (A : Type ℓ) : Type ℓ where
  returns : A → Outcome A
  panics : Outcome A

infixl 10 ◌>>=◌
abbrev pub ◌>>=◌ {ℓ κ} : {A : Type ℓ} {B : Type κ} → Outcome A → (A → Outcome B) → Outcome B
returns a >>= f = f a
panics >>= f = panics

-- The code returns, and its result has `P`: a panic has no such result.
abbrev pub Ends {ℓ} : {A : Type ℓ} → (A → Type 0) → Outcome A → Type 0
Ends P (returns a) = P a
Ends P panics = ⊥

module _ {ℓ κ} {A : Type ℓ} {B : Type κ} where
  pub Ends-bind :
      (P : A → Type 0) (Q : B → Type 0) (m : Outcome A) (f : A → Outcome B)
      → Ends P m
      → ((a : A) → P a → Ends Q (f a))
      → Ends Q (m >>= f)
  Ends-bind P Q (returns a) f h k = k a h
  Ends-bind P Q panics f h k = h

pub Ends-map {ℓ} :
    {A : Type ℓ} (P Q : A → Type 0) (m : Outcome A) → Ends P m → ((a : A) → P a → Q a) → Ends Q m
Ends-map P Q (returns a) h k = k a h
Ends-map P Q panics h k = h

module _ {A : Type 0} (b : A) where
  pub Ends→eq : (m : Outcome A) → Ends (λ a. a ≡ b) m → m ≡ returns b
  Ends→eq (returns a) h = ap returns h
  Ends→eq panics h = absurd h

  pub eq→Ends : (m : Outcome A) → m ≡ returns b → Ends (λ a. a ≡ b) m
  eq→Ends m e = rw e refl

-- The code and its description both return, with results that `R` relates, or both panic.
abbrev pub Agrees {ℓ κ} :
    {A : Type ℓ} {B : Type κ} → (A → B → Type 0) → Outcome A → Outcome B → Type 0
Agrees R (returns a) (returns b) = R a b
Agrees R (returns a) panics = ⊥
Agrees R panics (returns b) = ⊥
Agrees R panics panics = Unit

pub Ends→Agrees :
    {A : Type 0} {B : Type 0} (R : A → B → Type 0) (b : B) (m : Outcome A)
    → Ends (λ a. R a b) m
    → Agrees R m (returns b)
Ends→Agrees R b (returns a) h = h
Ends→Agrees R b panics h = h

-- What holds of the result, when the code returns.
abbrev pub IfReturns {ℓ} : {A : Type ℓ} → (A → Type 0) → Outcome A → Type 0
IfReturns P (returns a) = P a
IfReturns P panics = Unit

pub IfReturns-bind {ℓ κ} :
    {A : Type ℓ} {B : Type κ} (P : A → Type 0) (Q : B → Type 0) (m : Outcome A) (f : A → Outcome B)
    → IfReturns P m
    → ((a : A) → P a → IfReturns Q (f a))
    → IfReturns Q (m >>= f)
IfReturns-bind P Q (returns a) f h k = k a h
IfReturns-bind P Q panics f h k = tt

pub IfReturns-map {ℓ} :
    {A : Type ℓ} (P Q : A → Type 0) (m : Outcome A)
    → IfReturns P m
    → ((a : A) → P a → Q a)
    → IfReturns Q m
IfReturns-map P Q (returns a) h k = k a h
IfReturns-map P Q panics h k = tt

pub Agrees→Ends :
    {A : Type 0} {B : Type 0} (R : A → B → Type 0) (b : B) (m : Outcome A)
    → Agrees R m (returns b)
    → Ends (λ a. R a b) m
Agrees→Ends R b (returns a) h = h
Agrees→Ends R b panics h = h
