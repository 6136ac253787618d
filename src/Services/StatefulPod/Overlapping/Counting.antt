-- ===== src/Services/StatefulPod/Overlapping/Counting.antt =====
-- The workers that have not returned, counted.
use iapetos.Prelude.{
  ℕ, zero, suc, ◌+◌, ◌≤◌, ◌≡◌, ◌≢◌, ◌⊎◌, refl, ap, inl, inr, some, List, [], ◌∷◌, arith,
}
use iapetos.Prelude.Slices.{length, get_elem?, modify, All}
use iapetos.Services.StatefulPod.Overlapping.{Stage}
use iapetos.Services.StatefulPod.Overlapping.Bound.{is_open, open_count}

pub eq_or_ne : (j k : ℕ) → (j ≡ k) ⊎ (j ≢ k)
eq_or_ne zero zero = inl refl
eq_or_ne zero (suc k) = inr (λ e. absurd (omega (arith, e)))
eq_or_ne (suc j) zero = inr (λ e. absurd (omega (arith, e)))
eq_or_ne (suc j) (suc k) = elim (eq_or_ne j k) [
  | inl e ↦ inl (ap suc e)
  | inr ne ↦ inr (λ e. ne (omega (arith, e)))
]

pub open_count-modify :
    (j : ℕ) (ws : List Stage) (st st' : Stage)
    → get_elem? ws j ≡ some st
    → open_count (modify j (λ _. st') ws) + is_open st ≡ open_count ws + is_open st'
open_count-modify j [] st st' e = cc
open_count-modify zero (w ∷ ws) st st' e =
    let same : w ≡ st = ground (arith, e) in rw same (omega arith)
open_count-modify (suc j) (w ∷ ws) st st' e = omega (arith, open_count-modify j ws st st' e)

pub is_open-le :
    (j : ℕ) (ws : List Stage) (st : Stage) → get_elem? ws j ≡ some st → is_open st ≤ open_count ws
is_open-le j [] st e = cc
is_open-le zero (w ∷ ws) st e = let same : w ≡ st = ground (arith, e) in rw same (omega arith)
is_open-le (suc j) (w ∷ ws) st e = omega (arith, is_open-le j ws st e)

pub is_open-le_one : (st : Stage) → is_open st ≤ 1
is_open-le_one (Stage.updating sp) = omega arith
is_open-le_one (Stage.refreshing sp) = omega arith
is_open-le_one (Stage.finished sp) = omega arith

pub open_count-le : (ws : List Stage) → open_count ws ≤ length ws
open_count-le [] = omega arith
open_count-le (w ∷ ws) = omega (arith, open_count-le ws, is_open-le_one w)

pub modify-same :
    (j : ℕ) (ws : List Stage) (st : Stage) → get_elem? ws j ≡ some st → modify j (λ _. st) ws ≡ ws
modify-same j [] st e = refl
modify-same zero (w ∷ ws) st e = let same : st ≡ w = ground (arith, e) in ap (λ x. x ∷ ws) same
modify-same (suc j) (w ∷ ws) st e = ap (◌∷◌ w) (modify-same j ws st e)

pub All-modify :
    (P : Stage → Type 0) (j : ℕ) (ws : List Stage) (st : Stage)
    → All P ws
    → P st
    → All P (modify j (λ _. st) ws)
All-modify P j [] st h p = tt
All-modify P zero (w ∷ ws) st h p = (p, h.1)
All-modify P (suc j) (w ∷ ws) st h p = (h.0, All-modify P j ws st h.1 p)
