-- ===== src/Services/Service.antt =====
-- services/service/svc.go.
use iapetos.Prelude.{String, Bool, Option, none, some, [], ◌∷◌}
use iapetos.Effect.{M, pure}
use iapetos.Api.{NamespacedName, ObjectMeta, Svc, ServiceSpec, StatefulPod, group_version}
use iapetos.Client.{ApiError, Reply, ok, Env}
use iapetos.Services.Objects
use iapetos.Services.Pod.{controller_ref}
use iapetos.Services.Resource.{set_service_name}

-- `GetName`.
unfoldable pub get_name : StatefulPod → String
get_name = set_service_name

abbrev pub service_for : StatefulPod → ServiceSpec → Svc
service_for sp spec = record {
  meta = record {
    name = set_service_name sp;
    namespace = sp.meta.namespace;
    uid = "";
    resource_version = "";
    annotations = some ((group_version, "true") ∷ ("parentName", sp.meta.name) ∷ []);
    labels = [];
    finalizers = [];
    owner_references = controller_ref sp ∷ [];
    creation_timestamp = 0;
    deletion_timestamp = none;
  };
  spec = spec;
}

-- `CreateTemplate`; `none` where `ServiceTemplate` is nil (a panic).
unfoldable pub create_template : StatefulPod → Option Svc
create_template sp = elim sp.spec.service_template [
  | none ↦ none
  | some spec ↦ some (service_for sp spec)
]

abbrev svc_meta : Svc → ObjectMeta
svc_meta s = s.meta

module _ {W : Type 0} (env : Env W) where
  unfoldable pub is_exists : NamespacedName → M W (Option Svc)
  is_exists = Objects.is_exists env.services

  unfoldable pub create : Svc → M W (Reply Svc)
  create = Objects.create env.services

  unfoldable pub update : Svc → M W (Reply Svc)
  update = Objects.update env.services svc_meta

  unfoldable pub delete : Svc → M W (Option ApiError)
  delete = Objects.delete env.services

  unfoldable pub is_resource_version_same : Svc → M W Bool
  is_resource_version_same = Objects.is_resource_version_same env.services svc_meta

  -- `Get` returns nil, with no error.
  unfoldable pub get : NamespacedName → M W (Reply (Option Svc))
  get _ = pure (ok none)

  -- `DeleteMandatory` does nothing.
  unfoldable pub delete_mandatory : Svc → M W (Option ApiError)
  delete_mandatory _ = pure none
