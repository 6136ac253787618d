-- ===== src/Services/Labels.antt =====
-- `setLabels` of services/pod/pod.go.
use iapetos.Prelude.{
  String, ◌≡◌, inl, inr, Option, none, some, [], ◌∷◌, arith, eq_iff, Option-cases,
}
use iapetos.Prelude.Maps.{StringMap, lookup, insert, or_empty, lookup-insert}
use iapetos.Api.{Pod, ServiceSpec, StatefulPod}
use iapetos.Services.Pod

-- A map looked up behind another.
abbrev pub or_else : Option String → Option String → Option String
or_else (some v) _ = some v
or_else none o = o

lookup-add_missing :
    (labels m : StringMap) (k : String)
    → lookup k (Pod.add_missing labels m) ≡ or_else (lookup k labels) (lookup k m)
unfolding Pod.add_missing lookup
lookup-add_missing labels [] k = ground arith
lookup-add_missing labels ((j, v) ∷ rest) k = elim (Option-cases (lookup j labels)) [
  | inl absent ↦
      let found = lookup-insert j k v labels in
      let ih = lookup-add_missing (insert j v labels) rest k in
      ground (arith, absent, found, ih, eq_iff j k)
  | inr (old, there) ↦ ground (arith, there, lookup-add_missing labels rest k, eq_iff j k)
]

-- The labels that the service selects by.
abbrev pub selected : Option ServiceSpec → StringMap
selected none = []
selected (some service) = service.selector

-- Every label of a pod is the service's selector's, if there is a service that selects by that key,
-- else that of the selector of the `StatefulPod`, else it is missing; the pod's own labels are gone.
pub lookup-set_labels :
    (sp : StatefulPod) (pod : Pod) (k : String)
    → lookup k (Pod.set_labels sp pod).meta.labels
      ≡ or_else
          (lookup k (selected sp.spec.service_template))
          (lookup k (or_empty sp.spec.selector))
unfolding Pod.set_labels lookup
lookup-set_labels sp pod k = elim (Option-cases sp.spec.service_template) [
  | inl e ↦ ground (
    arith,
    e,
    lookup-add_missing (Pod.service_labels sp.spec.service_template) (or_empty sp.spec.selector) k,
  )
  | inr (service, e) ↦ ground (
    arith,
    e,
    lookup-add_missing (Pod.service_labels sp.spec.service_template) (or_empty sp.spec.selector) k,
    lookup-add_missing [] service.selector k,
  )
]
