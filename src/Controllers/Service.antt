-- ===== src/Controllers/Service.antt =====
-- controllers/statefulpod/child_resource_controller/service_controller/service.go.
use iapetos.Prelude.{Bool, true, false, none, some}
use iapetos.Effect.{M, pure, or_panic, ◌>>=◌}
use iapetos.Api.{StatefulPod}
use iapetos.Client.{Env}
use iapetos.Services.Service

module _ {W : Type 0} (env : Env W) where
  -- `CreateService`: true only where the service is there already; after a creation it is looked
  -- for once more, in a later call.
  unfoldable pub create_service : StatefulPod → M W Bool
  create_service sp = do
    there ←
        Service.is_exists env (record { namespace = sp.meta.namespace; name = Service.get_name sp })
    elim there [
      | some _ ↦ pure true
      | none ↦ (do
        svc ← or_panic (Service.create_template sp)
        _ ← Service.create env svc
        pure false)
    ]
