-- ===== src/Prelude/Options.antt =====
-- Readings that may be missing: one after the other, over a list, and "at least as defined as".
use mathlib.Core.Path.{◌≡◌, refl, ap}
use mathlib.Core.Option.{Option, none, some}
use mathlib.Core.List.{List, [], ◌∷◌, ◌++◌}
use native.Mathlib.Omega.{arith}
use Prim.Native.Nat.{ℕ, zero, suc, ◌≤◌}
use iapetos.Prelude.Slices.{
  length, get_elem?, modify, get_elem?-append_left, get_elem?-lt, lt_of_get_elem?,
}

infixl 5 ◌>>=◌
abbrev pub ◌>>=◌ {ℓ} : {A B : Type ℓ} → Option A → (A → Option B) → Option B
none >>= f = none
some a >>= f = f a

abbrev pub traverse {ℓ} : {A B : Type ℓ} → (A → Option B) → List A → Option (List B)
traverse f [] = some []
traverse f (x ∷ xs) = f x >>= λ y. traverse f xs >>= λ ys. some (y ∷ ys)

-- What the first gives, the second gives too.
infix 3 ◌⊑◌
abbrev pub ◌⊑◌ {ℓ} : {A : Type ℓ} → Option A → Option A → Type ℓ
o ⊑ o' = (a : _) → o ≡ some a → o' ≡ some a

pub ⊑-some {ℓ} : {A : Type ℓ} (o o' : Option A) (v : A) → o ≡ some v → o' ≡ some v → (o ⊑ o')
⊑-some o o' v e e' a h = rw e' (rw (← e) h)

module _ {ℓ} {A B : Type ℓ} where
  pub ⊑-bind :
      (o o' : Option A) (f f' : A → Option B)
      → (o ⊑ o')
      → ((a : A) → f a ⊑ f' a)
      → ((o >>= f) ⊑ (o' >>= f'))
  ⊑-bind none o' f f' h k b e = cc
  ⊑-bind (some a) o' f f' h k b e = rw (h a refl) (k a b e)

  -- What a reading in two steps has read.
  pub bind-some :
      (o : Option A) (f : A → Option B) (b : B)
      → (o >>= f) ≡ some b
      → (a : A) × (o ≡ some a) × (f a ≡ some b)
  bind-some none f b e = cc
  bind-some (some a) f b e = (a, refl, e)

module _ {ℓ} {A B : Type ℓ} where
  pub ⊑-traverse :
      (f f' : A → Option B) (xs : List A)
      → ((a : A) → f a ⊑ f' a)
      → (traverse f xs ⊑ traverse f' xs)
  ⊑-traverse f f' [] h = λ b e. e
  ⊑-traverse f f' (x ∷ xs) h =
      ⊑-bind (f x) (f' x) _ _ (h x)
        (λ y. ⊑-bind (traverse f xs) (traverse f' xs) _ _ (⊑-traverse f f' xs h) (λ ys b e. e))

-- Each of the first readings of several has read something.
module _ {ℓ} {A B C E : Type ℓ} where
  pub bind-third :
      (a : Option A) (b : Option B) (c : Option C) (f : A → B → C → Option E) (v : E)
      → (a >>= λ x. b >>= λ y. c >>= λ z. f x y z) ≡ some v
      → ((x : A) × (a ≡ some x)) × ((y : B) × (b ≡ some y)) × ((z : C) × (c ≡ some z))
  bind-third none b c f v e = cc
  bind-third (some x) none c f v e = cc
  bind-third (some x) (some y) none f v e = cc
  bind-third (some x) (some y) (some z) f v e = ((x, refl), (y, refl), (z, refl))

pub ⊑-append {ℓ} : {A : Type ℓ} (xs ys : List A) (i : ℕ) → (get_elem? xs i ⊑ get_elem? (xs ++ ys) i)
⊑-append xs ys i a e = rw (get_elem?-append_left xs ys i (lt_of_get_elem? xs i e)) e

pub ⊑-length {ℓ} :
    {A : Type ℓ} (xs ys : List A)
    → ((i : ℕ) → get_elem? xs i ⊑ get_elem? ys i)
    → length xs ≤ length ys
⊑-length [] ys h = omega arith
⊑-length (x ∷ xs) ys h =
    let (a, e) = get_elem?-lt (x ∷ xs) (length xs) (omega arith) in
    omega (arith, lt_of_get_elem? ys (length xs) (h (length xs) a e))

-- Where a change of an element shows as a change of what it reads as, so it does in a list of them.
pub traverse-modify {ℓ} :
    {A B : Type ℓ} (read : A → Option B) (f : A → A) (g : B → B) (i : ℕ) (xs : List A) (vs : List B)
    → ((x : A) (v : B) → read x ≡ some v → read (f x) ≡ some (g v))
    → traverse read xs ≡ some vs
    → traverse read (modify i f xs) ≡ some (modify i g vs)
traverse-modify read f g i [] [] h e = refl
traverse-modify read f g i [] (v ∷ vs) h e = cc
traverse-modify read f g zero (x ∷ xs) vs h e =
    let (v, ev, e') = bind-some (read x) _ vs e in
    let (ws, ews, evs) = bind-some (traverse read xs) _ vs e' in
    rw (h x v ev) (rw ews (ap (λ o. o >>= λ us. some (modify zero g us)) evs))
traverse-modify read f g (suc i) (x ∷ xs) vs h e =
    let (v, ev, e') = bind-some (read x) _ vs e in
    let (ws, ews, evs) = bind-some (traverse read xs) _ vs e' in
    rw ev (
      rw (traverse-modify read f g i xs ws h ews)
        (ap (λ o. o >>= λ us. some (modify (suc i) g us)) evs))

pub get_elem?-traverse {ℓ} :
    {A B : Type ℓ} (read : A → Option B) (i : ℕ) (xs : List A) (vs : List B) (v : B)
    → traverse read xs ≡ some vs
    → get_elem? vs i ≡ some v
    → (x : A) × (get_elem? xs i ≡ some x) × (read x ≡ some v)
get_elem?-traverse read i [] [] v e h = cc
get_elem?-traverse read i [] (w ∷ vs) v e h = cc
get_elem?-traverse read zero (x ∷ xs) vs v e h =
    let (w, ew, e') = bind-some (read x) _ vs e in
    let (ws, ews, evs) = bind-some (traverse read xs) _ vs e' in
    (x, refl, ground (arith, ew, evs, h))
get_elem?-traverse read (suc i) (x ∷ xs) vs v e h =
    let (w, ew, e') = bind-some (read x) _ vs e in
    let (ws, ews, evs) = bind-some (traverse read xs) _ vs e' in
    get_elem?-traverse read i xs ws v ews (ground (arith, evs, h))
