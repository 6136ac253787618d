-- ===== src/Controllers/Setup/Queueing.antt =====
-- What an event does to the work queue.
use iapetos.Prelude.{
  ◌∙◌, ◌≡◌, refl, ◌⊎◌, inl, inr, Bool, true, false, ◌&&◌, Option, none, some, [], ◌∷◌, ◌++◌, arith,
  if◌then◌else◌,
}
use iapetos.Api.{ObjectMeta, Pod, Pvc}
use iapetos.Controllers.Events.{
  EventObject, Queue, DeepEqual, is_marked, request_of, on_create, on_update, on_delete, on_generic,
  update_passes,
}
use iapetos.Controllers.Setup.{
  Builder, IsDocumented, to_watches, passes, Delivery, EventHandler, setup_with_manager, object_of,
}

-- The metadata of a pod or a claim.
abbrev pub child_meta : EventObject → Option ObjectMeta
child_meta (EventObject.pod p) = some p.meta
child_meta (EventObject.pvc c) = some c.meta
child_meta _ = none

-- Whether the event is one that the handler answers to: with metadata, and not a generic one.
abbrev pub is_answered : Delivery → Bool
is_answered (Delivery.created e) = e.has_meta
is_answered (Delivery.deleted e) = e.has_meta
is_answered (Delivery.generic e) = false
is_answered (Delivery.updated old new) = new.has_meta

-- An update event is about one object, so its old and its new object are of one kind.
abbrev pub IsOfOneKind : Delivery → Type 0
IsOfOneKind (Delivery.updated old new) = (m : ObjectMeta) × (child_meta old.object ≡ some m)
IsOfOneKind _ = Unit

child_kinds :
    (o : EventObject) (m : ObjectMeta)
    → child_meta o ≡ some m
    → ((p : Pod) × (o ≡ EventObject.pod p) × (m ≡ p.meta))
      ⊎ ((c : Pvc) × (o ≡ EventObject.pvc c) × (m ≡ c.meta))
child_kinds (EventObject.pod p) m e = inl (p, refl, ground (arith, e))
child_kinds (EventObject.pvc c) m e = inr (c, refl, ground (arith, e))
child_kinds (EventObject.stateful_pod sp) m e = absurd (ground (arith, e))
child_kinds EventObject.other m e = absurd (ground (arith, e))

module _ (for_object : EventHandler) (eq : DeepEqual) where
  child_passes :
      (old new : EventObject) (m : ObjectMeta)
      → child_meta old ≡ some m
      → update_passes eq old new ≡ some true
  unfolding update_passes
  child_passes (EventObject.pod p) new m e = refl
  child_passes (EventObject.pvc c) new m e = refl
  child_passes (EventObject.stateful_pod sp) new m e = absurd (ground (arith, e))
  child_passes EventObject.other new m e = absurd (ground (arith, e))

  child_handled :
      (d : Delivery) (m : ObjectMeta) (q : Queue)
      → child_meta (object_of d) ≡ some m
      → IsOfOneKind d
      → (passes eq d ≡ some true)
        × (to_watches (setup_with_manager for_object eq).watches d q
            ≡ (if is_answered d && is_marked m then q ++ request_of m ∷ [] else q))
  unfolding setup_with_manager on_create on_update on_delete on_generic update_passes
  child_handled (Delivery.created e) m q child one = elim (child_kinds e.object m child) [
    | inl (p, eo, em) ↦ (refl, ground (arith, eo, em))
    | inr (c, eo, em) ↦ (refl, ground (arith, eo, em))
  ]
  child_handled (Delivery.deleted e) m q child one = elim (child_kinds e.object m child) [
    | inl (p, eo, em) ↦ (refl, ground (arith, eo, em))
    | inr (c, eo, em) ↦ (refl, ground (arith, eo, em))
  ]
  child_handled (Delivery.generic e) m q child one = elim (child_kinds e.object m child) [
    | inl (p, eo, em) ↦ (refl, ground (arith, eo, em))
    | inr (c, eo, em) ↦ (refl, ground (arith, eo, em))
  ]
  child_handled (Delivery.updated old new) m q child (m', old_child) =
      let passed = child_passes old.object new.object m' old_child in
      elim (child_kinds new.object m child) [
        | inl (p, eo, em) ↦ (passed, ground (arith, eo, em))
        | inr (c, eo, em) ↦ (passed, ground (arith, eo, em))
      ]

  -- An event of a pod or a claim puts the name of that object at the end of the queue if the object is
  -- marked and the event has metadata and is not a generic one, and else leaves the queue, with a
  -- builder that does as it documents.
  pub deliver_child :
      (deliver : Builder)
      → IsDocumented deliver
      → (d : Delivery) (m : ObjectMeta) (q : Queue) → child_meta (object_of d) ≡ some m
      → IsOfOneKind d
      → deliver (setup_with_manager for_object eq) d q
        ≡ (if is_answered d && is_marked m then q ++ request_of m ∷ [] else q)
  unfolding setup_with_manager
  deliver_child deliver documented d m q child one =
      let (passed, queued) = child_handled d m q child one in
      documented.handled (setup_with_manager for_object eq) d q passed ∙ queued
