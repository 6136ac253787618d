-- ===== src/Effect/Total.antt =====
-- Total correctness of handlers, with one rule for each way to build one: from every world the
-- handler returns, without a panic and within its rounds, and its result has a property.
use iapetos.Prelude.{arith, ◌≡◌, refl, Bool, true, false, Option, none, some, if◌then◌else◌}
use iapetos.Effect.{Outcome, done, M, pure, call, gets, or_panic, continue, ◌>>=◌}

pub data Returns {W A : Type 0} (P : A → Type 0) : Outcome (A × W) → Type 0 where
  returns : (a : A) (w : W) → P a → Returns P (done (a, w))

pub record Total {W A : Type 0} (P : A → Type 0) (m : M W A) : Type 0 where
  pub at : (w : W) → Returns P (m w)

-- What a total handler does at one world, as an equation.
pub Returns-done :
    {W A : Type 0} {P : A → Type 0} {o : Outcome (A × W)}
    → Returns P o
    → (a : A) × (w : W) × (o ≡ done (a, w)) × P a
Returns-done (returns a w p) = (a, w, refl, p)

-- What is known of a handler that returns holds of what it has returned.
pub Total-result :
    {W A : Type 0} {P : A → Type 0} {m : M W A} (w w' : W) (a : A)
    → Total P m
    → m w ≡ done (a, w')
    → P a
Total-result {P = P} w w' a total h =
    let (a', w'', e, p) = Returns-done (total.at w) in
    let same : a' ≡ a = ground (arith, h, e) in rw (← same) p

Returns-continue :
    {W A B : Type 0} {P : A → Type 0} {Q : B → Type 0} {o : Outcome (A × W)} (f : A → M W B)
    → Returns P o
    → ((a : A) → P a → Total Q (f a))
    → Returns Q (continue o f)
Returns-continue f (returns a w p) k = (k a p).at w

module _ {W A : Type 0} {P : A → Type 0} where
  pub Total-pure : (a : A) → P a → Total P (pure {W = W} a)
  Total-pure a p = record { at = λ w. returns a w p }

  pub Total-or_panic : (o : Option A) (a : A) → o ≡ some a → P a → Total P (or_panic {W = W} o)
  Total-or_panic o a e p = rw e (record { at = λ w. returns a w p })

  -- Of what the world answers nothing is known.
  pub Total-call : (f : W → A × W) → ((a : A) → P a) → Total P (call f)
  Total-call f p = record { at = λ w. let (a, w') = f w in returns a w' (p a) }

  pub Total-gets : (f : W → A) → ((a : A) → P a) → Total P (gets f)
  Total-gets f p = record { at = λ w. returns (f w) w (p (f w)) }

  pub Total-if :
      (b : Bool) (m n : M W A)
      → (b ≡ true → Total P m)
      → (b ≡ false → Total P n)
      → Total P (if b then m else n)
  Total-if true m n km kn = km refl
  Total-if false m n km kn = kn refl

pub Total-bind :
    {W A B : Type 0} {P : A → Type 0} {Q : B → Type 0} (m : M W A) (f : A → M W B)
    → Total P m
    → ((a : A) → P a → Total Q (f a))
    → Total Q (m >>= f)
Total-bind m f km kf = record { at = λ w. Returns-continue f (km.at w) kf }

Returns-weaken :
    {W A : Type 0} {P Q : A → Type 0} {o : Outcome (A × W)}
    → Returns P o
    → ((a : A) → P a → Q a)
    → Returns Q o
Returns-weaken (returns a w p) k = returns a w (k a p)

pub Total-weaken :
    {W A : Type 0} {P Q : A → Type 0} {m : M W A} → Total P m → ((a : A) → P a → Q a) → Total Q m
Total-weaken km k = record { at = λ w. Returns-weaken (km.at w) k }

module _ {W A B : Type 0} {Q : B → Type 0} where
  pub Total-option :
      (o : Option A) (m : M W B) (f : A → M W B)
      → (o ≡ none → Total Q m)
      → ((a : A) → o ≡ some a → Total Q (f a))
      → Total Q (elim o [ none ↦ m | some a ↦ f a ])
  Total-option none m f km kf = km refl
  Total-option (some a) m f km kf = kf a refl

module _ {W B : Type 0} {Q : B → Type 0} where
  pub Total-bool :
      (b : Bool) (m n : M W B)
      → (b ≡ false → Total Q m)
      → (b ≡ true → Total Q n)
      → Total Q (elim b [ false ↦ m | true ↦ n ])
  Total-bool false m n km kn = km refl
  Total-bool true m n km kn = kn refl

-- Where nothing is said of the result.
abbrev pub Anything : {A : Type 0} → A → Type 0
Anything _ = Unit

-- The step after one whose outcome at a world is known.
pub Returns-bind_at :
    {W A B : Type 0} {Q : B → Type 0} (m : M W A) (f : A → M W B) (a : A) (w w' : W)
    → m w ≡ done (a, w')
    → Returns Q (f a w')
    → Returns Q ((m >>= f) w)
Returns-bind_at m f a w w' e k = rw e k
