-- ===== src/Controllers/Pv.antt =====
-- controllers/statefulpod/child_resource_controller/pv_controller/pv.go.
pub mod Passes
pub mod Settled
use iapetos.Prelude.{
  ℕ, suc, Bool, true, false, Option, none, some, List, [], ◌∷◌, ◌==◌, eqb, if◌then◌else◌,
}
use iapetos.Prelude.Slices.{length}
use iapetos.Prelude.Maps.{contains, or_empty}
use iapetos.Effect.{M, pure, ◌>>=◌}
use iapetos.Api.{NamespacedName, Pv, PvcStatus, StatefulPod}
use iapetos.Client.{not_found, failure, ok, err, Env}
use iapetos.Controllers.Status.{all_counted}
use iapetos.Services.Pv

abbrev pub pv_key : PvcStatus → NamespacedName
pv_key s = record { namespace = ""; name = s.pv_name }

abbrev pub is_redis_slave : Pv → Bool
is_redis_slave pv = contains "redis-slave" (or_empty pv.meta.annotations)

abbrev pub retained : Pv → Pv
retained pv = record pv { reclaim_policy = "Retain"; storage_class_name = "" }

abbrev pub available : Pv → Pv
available pv = record pv {
  meta = record pv.meta { finalizers = [] };
  claim_ref = none;
  phase = "Available";
}

module _ {W : Type 0} (env : Env W) where
  -- The loop of `SetPVRetain`: the number counted so far, `none` for `return false`.
  unfoldable pub retain_loop : List PvcStatus → ℕ → M W (Option ℕ)
  retain_loop [] sum = pure (some sum)
  retain_loop (s ∷ rest) sum = do
    r ← Pv.get env (pv_key s)
    elim r [
      | err not_found ↦ retain_loop rest (suc sum)
      | err failure ↦ retain_loop rest sum
      | ok pv ↦ elim (is_redis_slave pv) [
        | true ↦ retain_loop rest (suc sum)
        | false ↦ elim (pv.reclaim_policy == "Retain") [
          | true ↦ retain_loop rest (suc sum)
          | false ↦ (do
            u ← Pv.update env (retained pv)
            elim u [ ok _ ↦ retain_loop rest sum | err _ ↦ pure none ])
        ]
      ]
    ]

  -- `SetPVRetain`.
  unfoldable pub set_pv_retain : StatefulPod → M W Bool
  set_pv_retain sp =
      if sp.spec.pv_recycle_policy == "Retain"
      then (do
        sum ← retain_loop sp.status.pvc_status_mes 0
        pure (all_counted (length sp.status.pvc_status_mes) sum))
      else pure true

  -- The loop of `SetPVAvailable`; a volume of a redis slave ends it.
  unfoldable pub available_loop : List PvcStatus → ℕ → M W (Option ℕ)
  available_loop [] sum = pure (some sum)
  available_loop (s ∷ rest) sum = do
    r ← Pv.get env (pv_key s)
    elim r [
      | err not_found ↦ available_loop rest (suc sum)
      | err failure ↦ available_loop rest sum
      | ok pv ↦ elim (is_redis_slave pv) [
        | true ↦ pure (some sum)
        | false ↦ elim (pv.phase == "Available") [
          | true ↦ available_loop rest (suc sum)
          | false ↦ (do
            u ← Pv.update env (available pv)
            elim u [ ok _ ↦ available_loop rest sum | err _ ↦ pure none ])
        ]
      ]
    ]

  -- `SetPVAvailable`.
  unfoldable pub set_pv_available : StatefulPod → M W Bool
  set_pv_available sp =
      if sp.spec.pv_recycle_policy == "Retain"
      then (do
        sum ← available_loop sp.status.pvc_status_mes 0
        pure (all_counted (length sp.status.pvc_status_mes) sum))
      else pure true
