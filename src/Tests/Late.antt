-- ===== src/Tests/Late.antt =====
-- A pod whose creation has timed out, at an input.
use iapetos.Prelude.{◌≡◌, true, false, refl, [], ◌∷◌, arith}
use iapetos.Prelude.Int.{pos}
use iapetos.Effect.Total.{returns, Total}
use iapetos.Api.{Pod, PodPhase, PvcPhase, StatefulPod}
use iapetos.Controllers.Pod.Monitor
use iapetos.Controllers.StatefulPod.PodMonitoring.{TakesDeletes}
use iapetos.Controllers.StatefulPod.TimeOut.{IsReplaced, monitor_pod_status-IsReplaced}
use iapetos.Controllers.StatefulPod.WellFormed.{IsWellFormed}
use iapetos.Services.Objects
use iapetos.Services.Pod as PodService
use iapetos.Services.Resource.{is_node_ready, last_condition}
use iapetos.Tests.Objects.{cluster, pod_entry, claim_entry}
use iapetos.Tests.Server.{server}

-- The second of two pods was not up in time.
abbrev late : StatefulPod
late =
    cluster []
      (pod_entry "db-0" PodPhase.running 0 ∷ pod_entry "db-1" PodPhase.create_time_out 1 ∷ [])
      (claim_entry "data-db-0" PvcPhase.bound 0 ∷ claim_entry "data-db-1" PvcPhase.bound 1 ∷ [])

late-IsWellFormed : IsWellFormed late
late-IsWellFormed = record { aligned = refl; sized = tt; mountable = (tt, tt) }

abbrev starting : Pod
starting = record (PodService.bare_pod late "db-1") {
  spec = record (PodService.bare_pod late "db-1").spec { node_name = "node" };
}

node_ready :
    Total
      (λ b. b ≡ true)
      (is_node_ready server (record { namespace = ""; name = starting.spec.node_name }))
unfolding is_node_ready Objects.is_exists last_condition
node_ready = record { at = λ w. returns _ _ refl }

takes_pods : TakesDeletes server.pods
takes_pods = record { taken = λ obj w. refl }

takes_claims : TakesDeletes server.pvcs
takes_claims = record { taken = λ obj w. refl }

is_down : Monitor.is_pod_running starting ≡ false
unfolding Monitor.is_pod_running
is_down = refl

monitor_pod_status-IsReplaced_example :
    Total (IsReplaced late 1) (Monitor.monitor_pod_status server late starting (pos 1))
monitor_pod_status-IsReplaced_example =
    monitor_pod_status-IsReplaced server 1 takes_pods takes_claims (omega arith) late starting
      (pod_entry "db-1" PodPhase.create_time_out 1) late-IsWellFormed refl refl refl is_down
      node_ready
