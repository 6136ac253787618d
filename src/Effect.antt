-- ===== src/Effect.antt =====
-- The effect of a handler: it reads and changes the world outside the program (the API server and
-- the clock), it may panic, and a loop by `goto` may go on past the rounds that it is given.
pub mod Total
use iapetos.Prelude.{Option, none, some}

-- `panic`: a nil dereference or an index out of range. `diverged`: the rounds of a loop ran out.
pub data Outcome {ℓ} (A : Type ℓ) : Type ℓ where
  done : A → Outcome A
  panic : Outcome A
  diverged : Outcome A

abbrev pub M {ℓ} : Type ℓ → Type ℓ → Type ℓ
M W A = W → Outcome (A × W)

module _ {ℓ} {W A : Type ℓ} where
  abbrev pub pure : A → M W A
  pure a w = done (a, w)

  -- A call to the world.
  abbrev pub call : (W → A × W) → M W A
  call f w = done (f w)

  -- A read of the world that changes nothing.
  abbrev pub gets : (W → A) → M W A
  gets f w = done (f w, w)

  abbrev pub or_panic : Option A → M W A
  or_panic none w = panic
  or_panic (some a) w = done (a, w)

  abbrev pub diverge : M W A
  diverge w = diverged

-- What follows a step runs only if the step returned.
abbrev pub continue {ℓ} : {W A B : Type ℓ} → Outcome (A × W) → (A → M W B) → Outcome (B × W)
continue (done (a, w)) f = f a w
continue panic f = panic
continue diverged f = diverged

infixl 5 ◌>>=◌ ◌>>◌
abbrev pub ◌>>=◌ {ℓ} : {W A B : Type ℓ} → M W A → (A → M W B) → M W B
◌>>=◌ m f w = continue (m w) f

abbrev pub ◌>>◌ {ℓ} : {W A B : Type ℓ} → M W A → M W B → M W B
m >> k = m >>= λ _. k
