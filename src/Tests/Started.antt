-- ===== src/Tests/Started.antt =====
-- The events and the start of the program, at an input.
use iapetos.Prelude.{some, ◌≡◌, refl, true, false, ◌&&◌, [], ◌∷◌, ◌++◌, arith, if◌then◌else◌}
use iapetos.Controllers.Events.{EventObject, DeepEqual, is_marked, request_of}
use iapetos.Controllers.Setup.{
  Delivery, Builder, IsDocumented, setup_with_manager, stateful_pod_event, to_watches,
}
use iapetos.Controllers.Setup.Queueing.{deliver_child}
use iapetos.Tests.Objects.{made_pod}

-- A comparison that takes no two lists of claims for equal.
abbrev strict : DeepEqual
strict = record { templates = λ a b. true; finalizers = λ a b. true; claims = λ a b. false }

-- A builder that does as it documents.
abbrev deliver : Builder
deliver wiring d q = elim (wiring.filter d) [ some true ↦ to_watches wiring.watches d q | _ ↦ q ]

deliver-IsDocumented : IsDocumented deliver
deliver-IsDocumented = record {
  filtered = λ wiring d q e. ground (arith, e);
  handled = λ wiring d q e. ground (arith, e);
}

deliver_child_example :
    deliver
      (setup_with_manager stateful_pod_event strict)
      (Delivery.created (record { has_meta = true; object = EventObject.pod made_pod }))
      []
    ≡ (if true && is_marked made_pod.meta then [] ++ request_of made_pod.meta ∷ [] else [])
deliver_child_example =
    deliver_child stateful_pod_event strict deliver deliver-IsDocumented
      (Delivery.created (record { has_meta = true; object = EventObject.pod made_pod }))
      made_pod.meta [] refl tt
