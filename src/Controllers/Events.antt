-- ===== src/Controllers/Events.antt =====
-- controllers/eventhandler.go and controllers/eventpredicate.go.
use iapetos.Prelude.{
  String, Bool, true, ◌&&◌, Option, none, some, List, [], ◌∷◌, ◌++◌, if◌then◌else◌,
}
use iapetos.Prelude.Maps.{contains, or_empty}
use iapetos.Api.{
  NamespacedName, ObjectMeta, Pod, PodSpec, Pvc, PvcStatus, StatefulPod, group_version,
}

-- The object of an event: of a kind that the handlers test for, or any other.
pub data EventObject : Type 0 where
  pod : Pod → EventObject
  pvc : Pvc → EventObject
  stateful_pod : StatefulPod → EventObject
  other : EventObject

-- A create or delete event, or an update event with its new object; `has_meta` is `Meta != nil`.
pub record Event : Type 0 where
  pub has_meta : Bool
  pub object : EventObject

-- The work queue, as the requests added to it in their order.
abbrev pub Queue : Type 0
Queue = List NamespacedName

abbrev pub is_marked : ObjectMeta → Bool
is_marked m = contains group_version (or_empty m.annotations)

abbrev pub request_of : ObjectMeta → NamespacedName
request_of m = record { namespace = m.namespace; name = m.name }

abbrev pub add_if : Bool → NamespacedName → Queue → Queue
add_if b n q = if b then q ++ n ∷ [] else q

abbrev pub enqueue : EventObject → Queue → Queue
enqueue (EventObject.pod p) q = add_if (is_marked p.meta) (request_of p.meta) q
enqueue (EventObject.pvc p) q = add_if (is_marked p.meta) (request_of p.meta) q
enqueue (EventObject.stateful_pod _) q = q
enqueue EventObject.other q = q

-- `StatefulPodEvent.Create`.
unfoldable pub on_create : Event → Queue → Queue
on_create e q = if e.has_meta then enqueue e.object q else q

-- `StatefulPodEvent.Update`, which reads the new object only.
unfoldable pub on_update : Event → Queue → Queue
on_update e q = if e.has_meta then enqueue e.object q else q

-- `StatefulPodEvent.Delete`.
unfoldable pub on_delete : Event → Queue → Queue
on_delete e q = if e.has_meta then enqueue e.object q else q

-- `StatefulPodEvent.Generic`.
unfoldable pub on_generic : Event → Queue → Queue
on_generic e q = q

-- `reflect.DeepEqual` at the three types that the predicate compares. It tells a nil slice from an
-- empty one, which the model does not, so it is a parameter.
pub record DeepEqual : Type 0 where
  pub templates : PodSpec → PodSpec → Bool
  pub finalizers : List String → List String → Bool
  pub claims : List PvcStatus → List PvcStatus → Bool

-- `StatefulPodPredicate.Update` on the old and the new object: whether the event is let through.
-- Where the new object is no `StatefulPod`, `newObj` is nil, and reading it is a panic: `none`.
unfoldable pub update_passes : DeepEqual → EventObject → EventObject → Option Bool
update_passes eq (EventObject.stateful_pod old) (EventObject.stateful_pod new) = some (
    eq.templates old.spec.pod_template new.spec.pod_template
    && eq.finalizers old.meta.finalizers new.meta.finalizers
    && eq.claims old.status.pvc_status_mes new.status.pvc_status_mes)
update_passes eq (EventObject.stateful_pod old) _ = none
update_passes eq _ _ = some true
