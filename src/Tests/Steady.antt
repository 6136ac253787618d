-- ===== src/Tests/Steady.antt =====
-- `Reconcile` on the server in memory, in a world with one `StatefulPod` and one pod and claim of it.
use iapetos.Prelude.{◌≡◌, refl, inl, inr, [], ◌∷◌, arith, Bool-cases}
use iapetos.Prelude.Int.{pos}
use iapetos.Prelude.Maps.{lookup}
use iapetos.Effect.{done}
use iapetos.Client.Laws.{name_of}
use iapetos.Controllers.Reconciler.{reconcile}
use iapetos.Controllers.Reconciler.Safety.{Validated, ReadsAll, reconcile-Total}
use iapetos.Controllers.Reports.{child_index}
use iapetos.Controllers.StatefulPod.{Result}
use iapetos.Controllers.StatefulPod.PodMonitoring.{TakesDeletes}
use iapetos.Controllers.StatefulPod.WellFormed.{IsWellFormed}
use iapetos.Services.Objects.{key_of}
use iapetos.Tests.Objects.{losing, made_pod, bound_claim, world}
use iapetos.Tests.Server.{World, server, server-Quiet, same_key}
use iapetos.Text.{atoi, itoa}
use iapetos.Tools.{string_to_int}

abbrev populated : World
populated = record (world losing) {
  pods = made_pod ∷ [];
  claims = bound_claim losing "data-db-1" 1 ∷ [];
}

losing-IsWellFormed : IsWellFormed losing
losing-IsWellFormed = record { aligned = refl; sized = tt; mountable = (tt, tt) }

pod_index : child_index server made_pod.meta ≡ pos 1
unfolding string_to_int atoi lookup
pod_index = refl

claim_index : child_index server (bound_claim losing "data-db-1" 1).meta ≡ pos 1
unfolding string_to_int atoi itoa lookup
claim_index = refl

populated-Validated : Validated server populated
populated-Validated = record {
  objects = λ n sp h. elim (Bool-cases (same_key n (name_of losing))) [
    | inl same ↦ let e : losing ≡ sp = ground (arith, h, same) in rw (← e) losing-IsWellFormed
    | inr other ↦ absurd (ground (arith, h, other))
  ];
  pods = λ n p h. elim (Bool-cases (same_key n (key_of made_pod.meta))) [
    | inl same ↦ let e : made_pod ≡ p = ground (arith, h, same) in rw (← e) (1, pod_index)
    | inr other ↦ absurd (ground (arith, h, other))
  ];
  claims = λ n p h.
      elim (Bool-cases (same_key n (key_of (bound_claim losing "data-db-1" 1).meta))) [
        | inl same ↦
            let e : bound_claim losing "data-db-1" 1 ≡ p = ground (arith, h, same) in
            rw (← e) (1, claim_index)
        | inr other ↦ absurd (ground (arith, h, other))
      ];
}

server-ReadsAll : ReadsAll server
server-ReadsAll = record {
  objects = record { get_keeps = λ n w. refl };
  pods = record { get_keeps = λ n w. refl };
  claims = record { get_keeps = λ n w. refl };
}

server-TakesDeletes : TakesDeletes server.pvcs
server-TakesDeletes = record { taken = λ obj w. refl }

reconcile-Total_example :
    (r : Result) × (w' : World) × (reconcile server
        (record { namespace = "default"; name = "db-1" })
        populated
      ≡ done (r, w'))
reconcile-Total_example =
    reconcile-Total server-Quiet server-TakesDeletes server-ReadsAll populated populated-Validated
      (record { namespace = "default"; name = "db-1" })
