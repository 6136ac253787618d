-- ===== src/Memory/Reading.antt =====
-- What a reader sees at an address: the objects of Api, as the memory holds them. `none` where a pointer
-- leads nowhere, and where the index of an entry is nil.
use iapetos.Prelude.{ℕ, String, Option, none, some, List, []}
use iapetos.Prelude.Int.{ℤ}
use iapetos.Prelude.Options.{◌>>=◌, traverse}
use iapetos.Prelude.Slices.{get_elem?, take}
use iapetos.Api
use iapetos.Memory.{
  Kind, Value, Library, Slice, PodStatus, PvcStatus, StatefulPodSpec, StatefulPodStatus,
  StatefulPod, StatefulPodList, Memory,
}

-- A pointer that may be nil.
abbrev pub read_pointer : {P V : Type 0} → (P → Option V) → Option P → Option (Option V)
read_pointer read none = some none
read_pointer read (some p) = read p >>= λ v. some (some v)

-- A slice over the arrays of its type; nil reads as an empty one.
abbrev pub read_slice :
    {A V : Type 0} → List (List A) → (A → Option V) → Option Slice → Option (List V)
read_slice arrays read none = some []
read_slice arrays read (some s) = get_elem? arrays s.array >>= λ xs. traverse read (take s.len xs)

abbrev pub read_index : List ℤ → Option ℕ → Option ℤ
read_index ints p = p >>= λ a. get_elem? ints a

module _ {lib : Library} (m : Memory lib) where
  abbrev pub read_strings : Option Slice → Option (List String)
  read_strings = read_slice m.strings some

  abbrev pub read_struct : (k : Kind) → Option (lib.Struct k) → Option (Option (Value k))
  read_struct k = read_pointer (lib.read k m.library)

  abbrev pub read_pod_status : PodStatus → Option Api.PodStatus
  read_pod_status s = do
    i ← read_index m.ints s.index
    some (record { pod_name = s.pod_name; status = s.status; index = i; node_name = s.node_name })

  abbrev pub read_pvc_status : PvcStatus → Option Api.PvcStatus
  read_pvc_status s = do
    i ← read_index m.ints s.index
    modes ← read_strings s.access_modes
    some (record {
      index = i;
      pvc_name = s.pvc_name;
      status = s.status;
      capacity = s.capacity;
      access_modes = modes;
      storage_class = s.storage_class;
      pv_name = s.pv_name;
    })

  abbrev pub read_status : StatefulPodStatus → Option Api.StatefulPodStatus
  read_status s = do
    pods ← read_slice m.pod_statuses read_pod_status s.pod_status_mes
    pvcs ← read_slice m.pvc_statuses read_pvc_status s.pvc_status_mes
    some (record { pod_status_mes = pods; pvc_status_mes = pvcs })

  abbrev pub read_spec : StatefulPodSpec lib → Option Api.StatefulPodSpec
  read_spec s = do
    size ← read_pointer (get_elem? m.ints) s.size
    selector ← read_struct Kind.label_selector s.selector
    service ← read_struct Kind.service_spec s.service_template
    pod ← lib.read Kind.pod_spec m.library s.pod_template
    claim ← read_struct Kind.claim_spec s.pvc_template
    names ← read_strings s.pv_names
    some (record {
      size = size;
      selector = selector;
      pv_recycle_policy = s.pv_recycle_policy;
      service_template = service;
      pod_template = pod;
      pvc_template = claim;
      pv_names = names;
    })

  abbrev pub read_stateful_pod : StatefulPod lib → Option Api.StatefulPod
  read_stateful_pod sp = do
    meta ← lib.read Kind.object_meta m.library sp.object_meta
    spec ← read_spec sp.spec
    status ← read_status sp.status
    some (record { meta = meta; spec = spec; status = status })

  -- The resource version of a list, and its items.
  abbrev pub read_list : StatefulPodList lib → Option (String × List Api.StatefulPod)
  read_list l = do
    version ← lib.read Kind.list_meta m.library l.list_meta
    items ← read_slice m.stateful_pods read_stateful_pod l.items
    some (version, items)
