-- ===== src/Controllers/Reconciler.antt =====
-- controllers/statefulpod_controller.go: a request is a name, and the kind of its object is found by
-- looking it up.
pub mod Safety
use iapetos.Effect.{M, pure, call, ◌>>=◌}
use iapetos.Api.{NamespacedName, Pod, Pvc, StatefulPod}
use iapetos.Client.{ok, err, Env}
use iapetos.Controllers.StatefulPod.{Result, finished, core_ctrl}
use iapetos.Controllers.Reports.{monitor_pod, monitor_pvc}

pub data Fetched : Type 0 where
  stateful_pod : StatefulPod → Fetched
  pod : Pod → Fetched
  pvc : Pvc → Fetched
  unknown : Fetched

module _ {W : Type 0} (env : Env W) where
  -- `getType`.
  unfoldable pub get_type : NamespacedName → M W Fetched
  get_type req = do
    as_stateful_pod ← call (env.stateful_pods.get req)
    elim as_stateful_pod [
      | ok sp ↦ pure (Fetched.stateful_pod sp)
      | err _ ↦ (do
        as_pod ← call (env.pods.get req)
        elim as_pod [
          | ok p ↦ pure (Fetched.pod p)
          | err _ ↦ (do
            as_pvc ← call (env.pvcs.get req)
            elim as_pvc [ ok p ↦ pure (Fetched.pvc p) | err _ ↦ pure Fetched.unknown ])
        ])
    ]

  -- The `switch` of `Reconcile`.
  unfoldable pub dispatch : Fetched → M W Result
  dispatch (Fetched.stateful_pod sp) = do (r, _) ← core_ctrl env sp; pure r
  dispatch (Fetched.pod p) = monitor_pod env p
  dispatch (Fetched.pvc p) = monitor_pvc env p
  dispatch Fetched.unknown = pure finished

  -- `Reconcile`.
  unfoldable pub reconcile : NamespacedName → M W Result
  reconcile req = do obj ← get_type req; dispatch obj
