-- ===== src/Prelude/Outcomes.antt =====
-- What a call comes to where the code may stop for good: `Error_Handler` never returns.
use mathlib.Core.Path.{◌≡◌, refl}
use mathlib.Core.Logic.{◌⊎◌, inl, inr}

pub data Outcome {ℓ} (A : Type ℓ) : Type ℓ where
  halted : Outcome A
  answer : A → Outcome A

-- `abbrev`, so that `answer a >>= f` computes wherever it stands.
infixl 5 ◌>>=◌ ◌>>◌
abbrev pub ◌>>=◌ {ℓ κ} : {A : Type ℓ} {B : Type κ} → Outcome A → (A → Outcome B) → Outcome B
halted >>= f = halted
answer a >>= f = f a

abbrev pub ◌>>◌ {ℓ} : {B : Type ℓ} → Outcome (Unit {0}) → Outcome B → Outcome B
m >> k = m >>= λ _. k

-- An outcome that is an answer, with its value.
pub Outcome-cases {ℓ} : {A : Type ℓ} (o : Outcome A) → (o ≡ halted) ⊎ ((a : A) × (o ≡ answer a))
Outcome-cases halted = inl refl
Outcome-cases (answer a) = inr (a, refl)

pub answer_same {ℓ} : {A : Type ℓ} {a b : A} → answer a ≡ answer b → a ≡ b
answer_same e = cc e

pub halted-answer {ℓ} : {A : Type ℓ} {a : A} → halted ≡ answer a → ⊥
halted-answer e = cc e

-- Inversion of a bind that comes to an answer.
pub bind_inv {ℓ κ} :
    {A : Type ℓ} {B : Type κ} (m : Outcome A) (f : A → Outcome B) {b : B}
    → (m >>= f) ≡ answer b
    → (a : A) × (m ≡ answer a) × (f a ≡ answer b)
bind_inv halted f h = absurd (halted-answer h)
bind_inv (answer a) f h = (a, refl, h)
