-- ===== src/Services/Pv.antt =====
-- services/pv/pv.go.
use iapetos.Prelude.{String, Bool, Option, none, some}
use iapetos.Prelude.Int.{ℤ}
use iapetos.Prelude.Slices.{at_index}
use iapetos.Effect.{M, pure, call}
use iapetos.Api.{NamespacedName, ObjectMeta, Pv, StatefulPod}
use iapetos.Client.{ApiError, Reply, ok, Env}
use iapetos.Services.Objects

abbrev pub pv_meta : Pv → ObjectMeta
pv_meta p = p.meta

module _ {W : Type 0} (env : Env W) where
  -- `Get` hands on the error, unlike `IsExists`.
  unfoldable pub get : NamespacedName → M W (Reply Pv)
  get n = call (env.pvs.get n)

  unfoldable pub update : Pv → M W (Reply Pv)
  update = Objects.update env.pvs pv_meta

  unfoldable pub is_exists : NamespacedName → M W (Option Pv)
  is_exists = Objects.is_exists env.pvs

  unfoldable pub is_resource_version_same : Pv → M W Bool
  is_resource_version_same = Objects.is_resource_version_same env.pvs pv_meta

  -- `Create`, `Delete`, `DeleteMandatory` and `CreateTemplate` do nothing.
  unfoldable pub create : Pv → M W (Reply (Option Pv))
  create _ = pure (ok none)

  unfoldable pub delete : Pv → M W (Option ApiError)
  delete _ = pure none

  unfoldable pub delete_mandatory : Pv → M W (Option ApiError)
  delete_mandatory _ = pure none

  unfoldable pub create_template : StatefulPod → String → ℤ → M W (Option Pv × StatefulPod)
  create_template sp name index = pure (none, sp)

-- `GetName`: the volume that the entry of the claim names; `none` is the panic at an index out of range.
unfoldable pub get_name : StatefulPod → ℤ → Option String
get_name sp index = elim (at_index sp.status.pvc_status_mes index) [
  | none ↦ none
  | some s ↦ some s.pv_name
]
