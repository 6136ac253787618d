-- ===== src/Memory/DeepCopy.antt =====
-- api/v1/zz_generated.deepcopy.go. `DeepCopyInto` gives what `*out` holds when it returns. A receiver and
-- a result are what their pointer leads to, `none` for nil; the result's is always a new one.
use iapetos.Prelude.{ℕ, Option, none, some, List, [], ◌∷◌}
use iapetos.Prelude.Slices.{get_elem?, take}
use iapetos.Effect.{M, pure, call, gets, or_panic, ◌>>=◌}
use iapetos.Memory.{
  Kind, Library, Slice, PodStatus, StatefulPodSpec, StatefulPodStatus, StatefulPod, StatefulPodList,
  Memory, Region, pod_statuses, stateful_pods, new_int, new_array,
}

-- `runtime.Object`; nil is the `none` of an `Option`.
pub data Object (lib : Library) : Type 0 where
  stateful_pod : StatefulPod lib → Object lib
  stateful_pod_list : StatefulPodList lib → Object lib

module _ {lib : Library} where
  -- `if p != nil { *out = new(int32); **out = **in }`.
  unfoldable pub copy_int : Option ℕ → M (Memory lib) (Option ℕ)
  copy_int none = pure none
  copy_int (some p) = do
    o ← gets (λ m. get_elem? m.ints p)
    v ← or_panic o
    q ← call (new_int v)
    pure (some q)

  unfoldable pub copy_struct : (k : Kind) → lib.Struct k → M (Memory lib) (lib.Struct k)
  copy_struct k x = call (λ m. let (y, h) = lib.copy k x m.library in (y, record m { library = h }))

  module _ {A : Type 0} (deep_copy_into : A → M (Memory lib) A) where
    unfoldable pub copy_all : List A → M (Memory lib) (List A)
    copy_all [] = pure []
    copy_all (x ∷ xs) = do y ← deep_copy_into x; ys ← copy_all xs; pure (y ∷ ys)

    -- `if s != nil { *out = make(…); for i := range *in { (*in)[i].DeepCopyInto(&(*out)[i]) } }`.
    unfoldable pub copy_slice : Region lib A → Option Slice → M (Memory lib) (Option Slice)
    copy_slice region none = pure none
    copy_slice region (some s) = do
      o ← gets (λ m. get_elem? (region.arrays m) s.array)
      xs ← or_panic o
      ys ← copy_all (take s.len xs)
      t ← call (new_array region ys)
      pure (some t)

    -- `DeepCopy` of each type.
    unfoldable pub deep_copy : Option A → M (Memory lib) (Option A)
    deep_copy none = pure none
    deep_copy (some x) = do y ← deep_copy_into x; pure (some y)

  unfoldable pub copy_pod_status : PodStatus → M (Memory lib) PodStatus
  copy_pod_status s = do i ← copy_int s.index; pure (record s { index = i })

  unfoldable pub copy_spec : StatefulPodSpec lib → M (Memory lib) (StatefulPodSpec lib)
  copy_spec s = do
    size ← copy_int s.size
    pod ← copy_struct Kind.pod_spec s.pod_template
    pure (record s { size = size; pod_template = pod })

  unfoldable pub copy_status : StatefulPodStatus → M (Memory lib) StatefulPodStatus
  copy_status s = do
    pods ← copy_slice copy_pod_status pod_statuses s.pod_status_mes
    pure (record s { pod_status_mes = pods })

  unfoldable pub copy_stateful_pod : StatefulPod lib → M (Memory lib) (StatefulPod lib)
  copy_stateful_pod sp = do
    meta ← copy_struct Kind.object_meta sp.object_meta
    spec ← copy_spec sp.spec
    status ← copy_status sp.status
    pure (record sp { object_meta = meta; spec = spec; status = status })

  unfoldable pub copy_stateful_pod_list : StatefulPodList lib → M (Memory lib) (StatefulPodList lib)
  copy_stateful_pod_list l = do
    meta ← copy_struct Kind.list_meta l.list_meta
    items ← copy_slice copy_stateful_pod stateful_pods l.items
    pure (record l { list_meta = meta; items = items })

  -- `DeepCopyObject` of either type, the test for nil included.
  unfoldable pub deep_copy_object :
      {A : Type 0}
      → (A → M (Memory lib) A)
      → (A → Object lib)
      → Option A
      → M (Memory lib) (Option (Object lib))
  deep_copy_object deep_copy_into object x = do
    c ← deep_copy deep_copy_into x
    pure (elim c [ none ↦ none | some y ↦ some (object y) ])

  abbrev pub deep_copy_pod_status : Option PodStatus → M (Memory lib) (Option PodStatus)
  deep_copy_pod_status = deep_copy copy_pod_status

  abbrev pub deep_copy_spec :
      Option (StatefulPodSpec lib) → M (Memory lib) (Option (StatefulPodSpec lib))
  deep_copy_spec = deep_copy copy_spec

  abbrev pub deep_copy_status : Option StatefulPodStatus → M (Memory lib) (Option StatefulPodStatus)
  deep_copy_status = deep_copy copy_status

  abbrev pub deep_copy_stateful_pod :
      Option (StatefulPod lib) → M (Memory lib) (Option (StatefulPod lib))
  deep_copy_stateful_pod = deep_copy copy_stateful_pod

  abbrev pub deep_copy_stateful_pod_list :
      Option (StatefulPodList lib) → M (Memory lib) (Option (StatefulPodList lib))
  deep_copy_stateful_pod_list = deep_copy copy_stateful_pod_list

  abbrev pub stateful_pod_object : Option (StatefulPod lib) → M (Memory lib) (Option (Object lib))
  stateful_pod_object = deep_copy_object copy_stateful_pod Object.stateful_pod

  abbrev pub stateful_pod_list_object :
      Option (StatefulPodList lib) → M (Memory lib) (Option (Object lib))
  stateful_pod_list_object = deep_copy_object copy_stateful_pod_list Object.stateful_pod_list
