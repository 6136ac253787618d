-- ===== src/Services/Pod.antt =====
-- services/pod/pod.go.
use iapetos.Prelude.{String, Bool, Option, none, some, List, [], ◌∷◌, if◌then◌else◌}
use iapetos.Prelude.Int.{ℤ}
use iapetos.Prelude.Maps.{StringMap, insert, contains, or_empty}
use iapetos.Effect.{M, pure, ◌>>=◌}
use iapetos.Text.{itoa, dashed}
use iapetos.Api.{
  NamespacedName, ObjectMeta, OwnerReference, Pod, Volume, ServiceSpec, StatefulPod, PodPhase,
  group_version,
}
use iapetos.Client.{ApiError, failure, Reply, ok, Env}
use iapetos.Services.Objects
use iapetos.Services.Resource.{set_pvc_name, set_service_name}

-- `GetName`.
unfoldable pub get_name : StatefulPod → ℤ → String
get_name sp index = dashed sp.meta.name (itoa index)

-- The owner reference that `CreateTemplate` builds from the `StatefulPod`.
abbrev pub controller_ref : StatefulPod → OwnerReference
controller_ref sp = record {
  api_version = group_version;
  kind = "StatefulPod";
  name = sp.meta.name;
  uid = sp.meta.uid;
}

-- The three annotations of a child pod.
unfoldable pub annotate : StatefulPod → ℤ → StringMap → StringMap
annotate sp index m =
    insert "index" (itoa index) (insert "parentName" sp.meta.name (insert group_version "true" m))

-- `addAnnotations`: the pod gets the map of the `StatefulPod` itself, so what is written to it shows
-- in both; only where that map is nil the pod gets one of its own.
unfoldable pub add_annotations : StatefulPod → Pod → ℤ → Pod × StatefulPod
add_annotations sp pod index =
    let written = some (annotate sp index (or_empty sp.meta.annotations)) in
    (
      record pod { meta = record pod.meta { annotations = written } },
      elim sp.meta.annotations [
        | none ↦ sp
        | some _ ↦ record sp { meta = record sp.meta { annotations = written } }
      ],
    )

-- A loop that copies those labels whose keys are not there yet.
unfoldable pub add_missing : StringMap → StringMap → StringMap
add_missing labels [] = labels
add_missing labels ((k, v) ∷ rest) =
    add_missing (if contains k labels then labels else insert k v labels) rest

-- The labels that the service selects by, and the subdomain of the service.
abbrev pub service_labels : Option ServiceSpec → StringMap
service_labels none = []
service_labels (some service) = add_missing [] service.selector

abbrev pub service_subdomain : StatefulPod → String → Option ServiceSpec → String
service_subdomain sp old none = old
service_subdomain sp old (some _) = set_service_name sp

-- `setLabels`.
unfoldable pub set_labels : StatefulPod → Pod → Pod
set_labels sp pod = record pod {
  meta = record pod.meta {
    labels = add_missing (service_labels sp.spec.service_template) (or_empty sp.spec.selector);
  };
  spec = record pod.spec {
    subdomain = service_subdomain sp pod.spec.subdomain sp.spec.service_template;
  };
}

-- `pod.Spec.Volumes[0].PersistentVolumeClaim.ClaimName = name`, on a pod with such a volume.
abbrev pub claim_volumes : String → List Volume → List Volume
claim_volumes name [] = []
claim_volumes name (v ∷ vs) = record v { claim_name = some name } ∷ vs

-- `setPvc`: `none` is the panic of `SetPVCName`.
unfoldable pub set_pvc : StatefulPod → Pod → ℤ → Option (Pod × StatefulPod)
set_pvc sp pod index = elim sp.spec.pvc_template [
  | none ↦ some (pod, sp)
  | some _ ↦ elim (set_pvc_name sp index) [
    | none ↦ none
    | some (name, sp') ↦ some (
      record pod { spec = record pod.spec { volumes = claim_volumes name pod.spec.volumes } },
      sp',
    )
  ]
]

-- The pod before annotations, claim and labels: the template with the host name.
abbrev pub bare_pod : StatefulPod → String → Pod
bare_pod sp name = record {
  meta = record {
    name = name;
    namespace = sp.meta.namespace;
    uid = "";
    resource_version = "";
    annotations = none;
    labels = [];
    finalizers = [];
    owner_references = controller_ref sp ∷ [];
    creation_timestamp = 0;
    deletion_timestamp = none;
  };
  spec = record sp.spec.pod_template { hostname = name };
  phase = PodPhase.other "";
  conditions = [];
}

-- `CreateTemplate`: the pod, and the `StatefulPod` that the template has written into.
unfoldable pub create_template : StatefulPod → String → ℤ → Option (Pod × StatefulPod)
create_template sp name index =
    let (pod, sp1) = add_annotations sp (bare_pod sp name) index in
    elim (set_pvc sp1 pod index) [
      | none ↦ none
      | some (claimed, sp2) ↦ some (set_labels sp2 claimed, sp2)
    ]

abbrev pub pod_meta : Pod → ObjectMeta
pod_meta p = p.meta

-- `webhook`: with the annotation "cockrochDB", the pod is first marked "nodeUnhealthy", and only a
-- pod that has the mark passes.
abbrev pub needs_mark : StringMap → Option StringMap
needs_mark annotations =
    if contains "cockrochDB" annotations
    then if contains "nodeUnhealthy" annotations
      then none
      else some (insert "nodeUnhealthy" "true" annotations)
    else none

module _ {W : Type 0} (env : Env W) where
  unfoldable pub is_exists : NamespacedName → M W (Option Pod)
  is_exists = Objects.is_exists env.pods

  unfoldable pub create : Pod → M W (Reply Pod)
  create = Objects.create env.pods

  unfoldable pub update : Pod → M W (Reply Pod)
  update = Objects.update env.pods pod_meta

  unfoldable pub delete : Pod → M W (Option ApiError)
  delete = Objects.delete env.pods

  unfoldable pub webhook : Pod → M W (Option ApiError)
  webhook pod = elim (needs_mark (or_empty pod.meta.annotations)) [
    | none ↦ pure none
    | some marked ↦ (do
      _ ← update (record pod { meta = record pod.meta { annotations = some marked } })
      pure (some failure))
  ]

  unfoldable pub delete_mandatory : Pod → M W (Option ApiError)
  delete_mandatory pod = do
    refused ← webhook pod
    elim refused [ none ↦ Objects.delete_mandatory env.pods pod | some e ↦ pure (some e) ]

  unfoldable pub is_resource_version_same : Pod → M W Bool
  is_resource_version_same = Objects.is_resource_version_same env.pods pod_meta

  -- `Get` returns nil, with no error.
  unfoldable pub get : NamespacedName → M W (Reply (Option Pod))
  get _ = pure (ok none)
