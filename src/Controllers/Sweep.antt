-- ===== src/Controllers/Sweep.antt =====
-- The loop that `DeletePodAll` and `DeletePvcAll` of controllers/statefulpod/child_resource_controller/
-- write alike, over the store and the entries of one kind.
pub mod Absence
pub mod Exact
use iapetos.Prelude.{ℕ, suc, Option, none, some, List, [], ◌∷◌}
use iapetos.Effect.{M, pure, ◌>>=◌}
use iapetos.Api.{NamespacedName}
use iapetos.Client.{Store}
use iapetos.Services.Objects

module _ {W A S : Type 0} (store : Store W A) (key : S → NamespacedName) where
  -- The number of objects that are gone; `none` is the `return false` after an error.
  unfoldable pub sweep : List S → ℕ → M W (Option ℕ)
  sweep [] sum = pure (some sum)
  sweep (s ∷ rest) sum = do
    there ← Objects.is_exists store (key s)
    elim there [
      | none ↦ sweep rest (suc sum)
      | some obj ↦ (do
        e ← Objects.delete store obj
        elim e [ none ↦ sweep rest sum | some _ ↦ pure none ])
    ]
