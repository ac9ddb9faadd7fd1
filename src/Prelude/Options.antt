-- ===== src/Prelude/Options.antt =====
-- Computations that may stop: `none` is a halted core or a fault.
use mathlib.Core.Path.{◌≡◌, refl, ap, ◌∙◌}
use mathlib.Core.Logic.{◌⊎◌, inl, inr}
use mathlib.Core.Option.{Option, none, some}

module _ {ℓ} {A : Type ℓ} where
  infixl 5 ◌>>=◌
  abbrev pub ◌>>=◌ {κ} : {B : Type κ} → Option A → (A → Option B) → Option B
  none >>= f = none
  some a >>= f = f a

  pub Option-cases : (o : Option A) → (o ≡ none) ⊎ ((a : A) × (o ≡ some a))
  Option-cases none = inl refl
  Option-cases (some a) = inr (a, refl)

  -- A step that returns hands its value to the rest.
  pub >>=-some {κ} :
      {B : Type κ} {m : Option A} {a : A} (f : A → Option B) {r : Option B}
      → m ≡ some a
      → f a ≡ r
      → (m >>= f) ≡ r
  >>=-some f e g = ap (λ m. m >>= f) e ∙ g
