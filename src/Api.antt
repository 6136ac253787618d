-- ===== src/Api.antt =====
-- The objects that the program reads and writes: `StatefulPod` (api/v1/statefulpod_types.go), and of
-- the Kubernetes types those fields that the code names. What it only carries along is one opaque
-- text, `other_fields`. A pointer or map that may be nil is an `Option`.
use iapetos.Prelude.{ℕ, String, Bool, true, false, Option, none, some, List, [], ◌∷◌}
use iapetos.Prelude.Int.{ℤ}
use iapetos.Prelude.Maps.{StringMap}

-- `iapetosapiv1.GroupVersion.String()`; the name of the finalizer and of the marking annotation.
abbrev pub group_version : String
group_version = "iapetos.foundary-cloud.io/v1"

-- The types that `init` of statefulpod_types.go registers with `SchemeBuilder`, by the names that the
-- scheme gives them.
abbrev pub registered_kinds : List String
registered_kinds = "StatefulPod" ∷ "StatefulPodList" ∷ []

pub record NamespacedName : Type 0 where
  pub namespace : String
  pub name : String

-- `metav1.NewControllerRef(statefulPod, …)`.
pub record OwnerReference : Type 0 where
  pub api_version : String
  pub kind : String
  pub name : String
  pub uid : String

pub record ObjectMeta : Type 0 where
  pub name : String
  pub namespace : String
  pub uid : String
  pub resource_version : String
  pub annotations : Option StringMap
  pub labels : StringMap
  pub finalizers : List String
  pub owner_references : List OwnerReference
  pub creation_timestamp : ℕ
  pub deletion_timestamp : Option ℕ

-- `corev1.PodPhase`: the phases of Kubernetes, the three of `pod_controller`, and any other text.
pub data PodPhase : Type 0 where
  pending running succeeded failed unknown preparing deleting create_time_out : PodPhase
  other : String → PodPhase

-- `corev1.PersistentVolumeClaimPhase`, with the one of `pvc_controller`.
pub data PvcPhase : Type 0 where
  pending bound lost deleting : PvcPhase
  other : String → PvcPhase

-- A volume; `claim_name` is `none` where `PersistentVolumeClaim` is nil.
pub record Volume : Type 0 where
  pub name : String
  pub claim_name : Option String

pub record PodSpec : Type 0 where
  pub hostname : String
  pub subdomain : String
  pub node_name : String
  pub volumes : List Volume
  pub other_fields : String

pub record PodCondition : Type 0 where
  pub condition_type : String
  pub status : String

pub record Pod : Type 0 where
  pub meta : ObjectMeta
  pub spec : PodSpec
  pub phase : PodPhase
  pub conditions : List PodCondition

-- `storage_request` is `Resources.Requests["storage"].String()`.
pub record PvcSpec : Type 0 where
  pub access_modes : List String
  pub storage_class_name : Option String
  pub volume_name : String
  pub storage_request : String
  pub other_fields : String

pub record Pvc : Type 0 where
  pub meta : ObjectMeta
  pub spec : PvcSpec
  pub phase : PvcPhase

-- `claim_ref` is the name of the claim that the volume is bound to.
pub record Pv : Type 0 where
  pub meta : ObjectMeta
  pub reclaim_policy : String
  pub storage_class_name : String
  pub claim_ref : Option String
  pub phase : String

pub record ServiceSpec : Type 0 where
  pub selector : StringMap
  pub other_fields : String

pub record Svc : Type 0 where
  pub meta : ObjectMeta
  pub spec : ServiceSpec

pub record NodeCondition : Type 0 where
  pub status : String
  pub last_transition_time : ℕ

pub record Node : Type 0 where
  pub meta : ObjectMeta
  pub conditions : List NodeCondition

-- `selector` is `Selector.MatchLabels`, `none` where `Selector` is nil.
pub record StatefulPodSpec : Type 0 where
  pub size : Option ℤ
  pub selector : Option StringMap
  pub pv_recycle_policy : String
  pub service_template : Option ServiceSpec
  pub pod_template : PodSpec
  pub pvc_template : Option PvcSpec
  pub pv_names : List String

pub record PodStatus : Type 0 where
  pub pod_name : String
  pub status : PodPhase
  pub index : ℤ
  pub node_name : String

pub record PvcStatus : Type 0 where
  pub index : ℤ
  pub pvc_name : String
  pub status : PvcPhase
  pub capacity : String
  pub access_modes : List String
  pub storage_class : String
  pub pv_name : String

pub record StatefulPodStatus : Type 0 where
  pub pod_status_mes : List PodStatus
  pub pvc_status_mes : List PvcStatus

pub record StatefulPod : Type 0 where
  pub meta : ObjectMeta
  pub spec : StatefulPodSpec
  pub status : StatefulPodStatus

-- The comparisons of a phase with the named constants.
abbrev pub is_running : PodPhase → Bool
is_running PodPhase.running = true
is_running _ = false

abbrev pub is_preparing : PodPhase → Bool
is_preparing PodPhase.preparing = true
is_preparing _ = false

abbrev pub is_deleting : PodPhase → Bool
is_deleting PodPhase.deleting = true
is_deleting _ = false

abbrev pub is_create_time_out : PodPhase → Bool
is_create_time_out PodPhase.create_time_out = true
is_create_time_out _ = false

abbrev pub is_claim_pending : PvcPhase → Bool
is_claim_pending PvcPhase.pending = true
is_claim_pending _ = false

abbrev pub is_claim_bound : PvcPhase → Bool
is_claim_bound PvcPhase.bound = true
is_claim_bound _ = false

abbrev pub is_claim_deleting : PvcPhase → Bool
is_claim_deleting PvcPhase.deleting = true
is_claim_deleting _ = false

-- `!obj.DeletionTimestamp.IsZero()`.
abbrev pub is_being_deleted : ObjectMeta → Bool
is_being_deleted m = elim m.deletion_timestamp [ none ↦ false | some _ ↦ true ]
