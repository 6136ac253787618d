-- ===== src/Controllers/Setup.antt =====
-- `SetupWithManager` of controllers/statefulpod_controller.go, with the other predicates of
-- controllers/eventpredicate.go: which events come to the work queue. The builder of controller-runtime
-- and its handler for the objects of `For` are parameters.
pub mod Queueing
use iapetos.Prelude.{◌≡◌, ℕ, Bool, true, false, Option, some, List, [], ◌∷◌, if◌then◌else◌}
use iapetos.Controllers.Events.{
  Event, EventObject, Queue, DeepEqual, on_create, on_update, on_delete, on_generic, update_passes,
}

-- The events of controller-runtime; an update has the old object and the new one.
pub data Delivery : Type 0 where
  created deleted generic : Event → Delivery
  updated : Event → Event → Delivery

-- `handler.EventHandler`.
pub record EventHandler : Type 0 where
  pub create : Event → Queue → Queue
  pub update : Event → Event → Queue → Queue
  pub delete : Event → Queue → Queue
  pub generic : Event → Queue → Queue

-- `&StatefulPodEvent{}`.
abbrev pub stateful_pod_event : EventHandler
stateful_pod_event = record {
  create = on_create;
  update = λ _ new q. on_update new q;
  delete = on_delete;
  generic = on_generic;
}

-- The kinds that are watched.
pub data Kind : Type 0 where
  stateful_pod pod pvc : Kind

abbrev pub is_of : Kind → EventObject → Bool
is_of Kind.stateful_pod (EventObject.stateful_pod _) = true
is_of Kind.pod (EventObject.pod _) = true
is_of Kind.pvc (EventObject.pvc _) = true
is_of _ _ = false

-- `StatefulPodPredicate.Create`, `Delete` and `Generic`.
abbrev pub create_passes : Event → Bool
create_passes _ = true

abbrev pub delete_passes : Event → Bool
delete_passes _ = true

abbrev pub generic_passes : Event → Bool
generic_passes _ = true

-- `StatefulPodPredicate{}`; `none` is a panic.
abbrev pub passes : DeepEqual → Delivery → Option Bool
passes eq (Delivery.created e) = some (create_passes e)
passes eq (Delivery.deleted e) = some (delete_passes e)
passes eq (Delivery.generic e) = some (generic_passes e)
passes eq (Delivery.updated old new) = update_passes eq old.object new.object

-- What `SetupWithManager` gives to the builder.
pub record Wiring : Type 0 where
  pub watches : List (Kind × EventHandler)
  pub filter : Delivery → Option Bool
  pub max_concurrent_reconciles : ℕ

-- `SetupWithManager`.
unfoldable pub setup_with_manager : EventHandler → DeepEqual → Wiring
setup_with_manager for_object eq = record {
  watches =
      (Kind.stateful_pod, for_object)
      ∷ (Kind.pod, stateful_pod_event)
      ∷ (Kind.pvc, stateful_pod_event)
      ∷ [];
  filter = passes eq;
  max_concurrent_reconciles = 3;
}

abbrev pub object_of : Delivery → EventObject
object_of (Delivery.created e) = e.object
object_of (Delivery.deleted e) = e.object
object_of (Delivery.generic e) = e.object
object_of (Delivery.updated old new) = new.object

abbrev pub handle : EventHandler → Delivery → Queue → Queue
handle h (Delivery.created e) q = h.create e q
handle h (Delivery.deleted e) q = h.delete e q
handle h (Delivery.generic e) q = h.generic e q
handle h (Delivery.updated old new) q = h.update old new q

-- Each watch of the event's kind gets the event.
abbrev pub to_watches : List (Kind × EventHandler) → Delivery → Queue → Queue
to_watches [] d q = q
to_watches ((kind, h) ∷ rest) d q =
    to_watches rest d (if is_of kind (object_of d) then handle h d q else q)

-- How the builder of controller-runtime brings events to the queue, a parameter.
abbrev pub Builder : Type 0
Builder = Wiring → Delivery → Queue → Queue

-- What it documents: `WithEventFilter` stands before every handler, and behind it each watch of the
-- event's kind gets the event.
pub record IsDocumented (deliver : Builder) : Type 0 where
  pub filtered :
      (wiring : Wiring) (d : Delivery) (q : Queue)
      → wiring.filter d ≡ some false
      → deliver wiring d q ≡ q
  pub handled :
      (wiring : Wiring) (d : Delivery) (q : Queue)
      → wiring.filter d ≡ some true
      → deliver wiring d q ≡ to_watches wiring.watches d q
