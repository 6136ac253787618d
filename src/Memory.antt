-- ===== src/Memory.antt =====
-- The types of api/v1/statefulpod_types.go as Go lays them out: structs that hold pointers and slices,
-- and the memory that these point into, one region for the cells of each type. An address is a position
-- in its region, and `none` is nil. What corev1 and metav1 keep is theirs: a parameter.
pub mod Reading
pub mod DeepCopy
pub mod Growth
pub mod Copies
pub mod Objects
pub mod Writes
pub mod Sharing
pub mod Entries
pub mod Aliasing
pub mod Monitor
use iapetos.Prelude.{ℕ, String, Option, List, ◌++◌, ◌∷◌, []}
use iapetos.Prelude.Int.{ℤ}
use iapetos.Prelude.Maps.{StringMap}
use iapetos.Prelude.Slices.{length}
use iapetos.Api
use iapetos.Api.{PodPhase, PvcPhase}

-- The structs of corev1 and metav1 that a `StatefulPod` or its list holds or points to.
pub data Kind : Type 0 where
  object_meta list_meta pod_spec label_selector service_spec claim_spec : Kind

-- What a reader sees of one; of the list's the resource version.
abbrev pub Value : Kind → Type 0
Value Kind.object_meta = Api.ObjectMeta
Value Kind.list_meta = String
Value Kind.pod_spec = Api.PodSpec
Value Kind.label_selector = StringMap
Value Kind.service_spec = Api.ServiceSpec
Value Kind.claim_spec = Api.PvcSpec

-- Their memory, how they are read in it, and their `DeepCopyInto`.
pub record Library : Type 1 where
  pub Heap : Type 0
  pub Struct : Kind → Type 0
  pub read : (k : Kind) → Heap → Struct k → Option (Value k)
  pub copy : (k : Kind) → Struct k → Heap → Struct k × Heap

-- A slice: the first `len` elements of an array.
pub record Slice : Type 0 where
  pub array : ℕ
  pub len : ℕ

pub record TypeMeta : Type 0 where
  pub kind : String
  pub api_version : String

pub record PodStatus : Type 0 where
  pub pod_name : String
  pub status : PodPhase
  pub index : Option ℕ
  pub node_name : String

pub record PvcStatus : Type 0 where
  pub index : Option ℕ
  pub pvc_name : String
  pub status : PvcPhase
  pub capacity : String
  pub access_modes : Option Slice
  pub storage_class : String
  pub pv_name : String

pub record StatefulPodStatus : Type 0 where
  pub pod_status_mes : Option Slice
  pub pvc_status_mes : Option Slice

-- A pointer to a struct of the library is the struct at its address.
pub record StatefulPodSpec (lib : Library) : Type 0 where
  pub size : Option ℕ
  pub selector : Option (lib.Struct Kind.label_selector)
  pub pv_recycle_policy : String
  pub service_template : Option (lib.Struct Kind.service_spec)
  pub pod_template : lib.Struct Kind.pod_spec
  pub pvc_template : Option (lib.Struct Kind.claim_spec)
  pub pv_names : Option Slice

pub record StatefulPod (lib : Library) : Type 0 where
  pub type_meta : TypeMeta
  pub object_meta : lib.Struct Kind.object_meta
  pub spec : StatefulPodSpec lib
  pub status : StatefulPodStatus

pub record StatefulPodList (lib : Library) : Type 0 where
  pub type_meta : TypeMeta
  pub list_meta : lib.Struct Kind.list_meta
  pub items : Option Slice

pub record Memory (lib : Library) : Type 0 where
  pub ints : List ℤ
  pub strings : List (List String)
  pub pod_statuses : List (List PodStatus)
  pub pvc_statuses : List (List PvcStatus)
  pub stateful_pods : List (List (StatefulPod lib))
  pub library : lib.Heap

-- The arrays of one type, and the memory with others in their place.
pub record Region (lib : Library) (A : Type 0) : Type 0 where
  pub arrays : Memory lib → List (List A)
  pub put : List (List A) → Memory lib → Memory lib

module _ {lib : Library} where
  abbrev pub pod_statuses : Region lib PodStatus
  pod_statuses = record { arrays = λ m. m.pod_statuses; put = λ l m. record m { pod_statuses = l } }

  abbrev pub pvc_statuses : Region lib PvcStatus
  pvc_statuses = record { arrays = λ m. m.pvc_statuses; put = λ l m. record m { pvc_statuses = l } }

  abbrev pub stateful_pods : Region lib (StatefulPod lib)
  stateful_pods = record {
    arrays = λ m. m.stateful_pods;
    put = λ l m. record m { stateful_pods = l };
  }

  -- `new(int32)`, and what is then stored there.
  abbrev pub new_int : ℤ → Memory lib → ℕ × Memory lib
  new_int v m = (length m.ints, record m { ints = m.ints ++ v ∷ [] })

  -- `make([]T, len(*in))`, with what the loop that follows stores in it.
  abbrev pub new_array : {A : Type 0} → Region lib A → List A → Memory lib → Slice × Memory lib
  new_array region xs m = (
    record { array = length (region.arrays m); len = length xs },
    region.put (region.arrays m ++ xs ∷ []) m,
  )
