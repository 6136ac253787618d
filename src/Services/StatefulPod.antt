-- ===== src/Services/StatefulPod.antt =====
-- services/statefulpod/statefulpod.go.
pub mod Settling
pub mod Overlapping
use iapetos.Prelude.{ℕ, zero, suc, String, Bool, Option, none}
use iapetos.Prelude.Int.{ℤ}
use iapetos.Effect.{M, pure, call, diverge, ◌>>=◌}
use iapetos.Api.{NamespacedName, ObjectMeta, StatefulPod}
use iapetos.Client.{ApiError, not_found, failure, Reply, ok, err, Env}
use iapetos.Services.Objects
use iapetos.Services.Objects.{key_of}

abbrev pub stateful_pod_meta : StatefulPod → ObjectMeta
stateful_pod_meta sp = sp.meta

-- `statefulPod.ResourceVersion = newStatefulPod.ResourceVersion`, if the `Get` has returned one.
abbrev pub take_version : StatefulPod → Reply StatefulPod → StatefulPod
take_version sp (ok new) = record sp {
  meta = record sp.meta { resource_version = new.meta.resource_version };
}
take_version sp (err _) = sp

module _ {W : Type 0} (env : Env W) where
  unfoldable pub is_exists : NamespacedName → M W (Option StatefulPod)
  is_exists = Objects.is_exists env.stateful_pods

  -- `getNewResourceVersion`.
  unfoldable pub get_new_resource_version : StatefulPod → M W StatefulPod
  get_new_resource_version sp = do
    r ← call (env.stateful_pods.get (key_of sp.meta))
    pure (take_version sp r)

  -- `Update` goes back to its start, with the version that the server has now, until the server
  -- takes the object or has none of its name.
  unfoldable pub update_loop : ℕ → StatefulPod → M W StatefulPod
  update_loop zero sp = diverge
  update_loop (suc n) sp = do
    r ← call (env.stateful_pods.update sp)
    elim r [
      | ok sp' ↦ pure sp'
      | err not_found ↦ pure sp
      | err failure ↦ (do newer ← get_new_resource_version sp; update_loop n newer)
    ]

  -- `Update`: the error that it returns is always nil.
  unfoldable pub update : StatefulPod → M W (Option ApiError × StatefulPod)
  update sp = do sp' ← update_loop env.rounds sp; pure (none, sp')

  unfoldable pub create : StatefulPod → M W (Reply StatefulPod)
  create = Objects.create env.stateful_pods

  unfoldable pub delete : StatefulPod → M W (Option ApiError)
  delete = Objects.delete env.stateful_pods

  unfoldable pub is_resource_version_same : StatefulPod → M W Bool
  is_resource_version_same = Objects.is_resource_version_same env.stateful_pods stateful_pod_meta

  -- `DeleteMandatory`, `CreateTemplate` and `Get` do nothing.
  unfoldable pub delete_mandatory : StatefulPod → M W (Option ApiError)
  delete_mandatory _ = pure none

  unfoldable pub create_template : StatefulPod → String → ℤ → M W (Option StatefulPod × StatefulPod)
  create_template sp name index = pure (none, sp)

  unfoldable pub get : NamespacedName → M W (Reply (Option StatefulPod))
  get _ = pure (ok none)

-- `GetName`.
unfoldable pub get_name : StatefulPod → ℤ → String
get_name sp index = sp.meta.name
