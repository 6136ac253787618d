-- ===== src/Tests/Lifecycle.antt =====
-- The end of a deletion, a child past the size, a child that is made, and one on a lost node, at an input.
use iapetos.Tests.Overlaps.{server-Optimistic, server_stores}
use iapetos.Prelude.{false, arith, ◌≡◌, refl, ◌⊎◌, some}
use iapetos.Prelude.Int.{pos}
use iapetos.Prelude.Maps.{lookup, contains, or_empty}
use iapetos.Effect.{done}
use iapetos.Effect.Total.{returns, Total}
use iapetos.Api.{Pod, StatefulPod}
use iapetos.Client.{ApiError, ok, err, not_found, Env}
use iapetos.Client.Laws.{ReadsOnly, name_of}
use iapetos.Controllers.StatefulPod
use iapetos.Controllers.Pvc.{kept_status}
use iapetos.Controllers.Pod as PodCtrl
use iapetos.Controllers.Pod.Creation.{entered, child_key, expansion_pod-creates}
use iapetos.Controllers.Routing.{LeadsTo}
use iapetos.Controllers.StatefulPod.Shrinking.{IsCutTo, core_ctrl-cuts}
use iapetos.Prelude.Slices.{get_elem?}
use iapetos.Services.Pod as PodService
use iapetos.Controllers.StatefulPod.WellFormed.{IsWellFormed}
use iapetos.Controllers.Pod.Monitor
use iapetos.Controllers.StatefulPod.LostNode.{IsMarked, monitor_pod_status-IsMarked}
use iapetos.Services.Objects
use iapetos.Services.Resource.{is_node_ready}
use iapetos.Tests.Objects.{world, settled, cleared, running_pod}
use iapetos.Tests.Server.{World, server, server-Quiet}

settled-IsWellFormed : IsWellFormed settled
settled-IsWellFormed = record { aligned = refl; sized = tt; mountable = (tt, tt) }

reads_pods : ReadsOnly server.pods
reads_pods = record { get_keeps = λ n w. refl }

reads_claims : ReadsOnly server.pvcs
reads_claims = record { get_keeps = λ n w. refl }

-- `settled` with the size 1, in a world without children.
abbrev shrinking : StatefulPod
shrinking = record settled { spec = record settled.spec { size = some (pos 1) } }

shrinking-IsWellFormed : IsWellFormed shrinking
shrinking-IsWellFormed = record { aligned = refl; sized = tt; mountable = (tt, tt) }

both_count : StatefulPod.get_index shrinking ≡ some 2
unfolding StatefulPod.get_index StatefulPod.index_at
both_count = refl

core_ctrl-cuts_example :
    (sp' : StatefulPod) × (w' : World) × (StatefulPod.core_ctrl server shrinking (world shrinking)
      ≡ done ((StatefulPod.finished, sp'), w'))
    × ((server-Optimistic (name_of shrinking)).stored w' ≡ some sp')
    × IsCutTo shrinking 1 sp'
core_ctrl-cuts_example =
    core_ctrl-cuts server-Quiet.echo (omega arith) reads_pods reads_claims 1 1 shrinking shrinking
      (world shrinking) (server-Optimistic (name_of shrinking))
      (server_stores shrinking (world shrinking) refl) shrinking-IsWellFormed refl both_count
      (omega arith) (record { no_pod = refl; no_claim = λ prefix. refl })

expansion_pod-creates_example :
    ((p : Pod) × ((server.pods.get (child_key settled 1) cleared).0 ≡ ok p)
      × (PodCtrl.expansion_pod server settled 1 cleared
          ≡ done ((kept_status (get_elem? settled.status.pod_status_mes 1), settled), cleared)))
    ⊎ ((e : ApiError) × ((server.pods.get (child_key settled 1) cleared).0 ≡ err e)
        × (pod : Pod) × (sp' : StatefulPod) × (PodCtrl.expansion_pod server settled 1 cleared
            ≡ done (
              (entered 1 (server.pods.create pod cleared).0, sp'),
              (server.pods.create pod cleared).1,
            ))
        × (pod.meta.name ≡ PodService.get_name settled (pos 1))
        × LeadsTo pod.meta settled 1)
expansion_pod-creates_example =
    expansion_pod-creates server reads_pods settled 1 cleared settled-IsWellFormed (omega arith)

-- A server that has lost its nodes, and a pod on one of them.
abbrev isolated : Env World
isolated = record server { nodes = record server.nodes { get = λ n w. (err not_found, w) } }

abbrev stranded : Pod
stranded = record (running_pod settled "db-0") {
  spec = record (running_pod settled "db-0").spec { node_name = "node" };
}

is_free : contains "cockrochDB" (or_empty stranded.meta.annotations) ≡ false
unfolding lookup
is_free = refl

node_lost :
    Total
      (λ b. b ≡ false)
      (is_node_ready isolated (record { namespace = ""; name = stranded.spec.node_name }))
unfolding is_node_ready Objects.is_exists
node_lost = record { at = λ w. returns _ _ refl }

monitor_pod_status-IsMarked_example :
    Total (IsMarked settled 0) (Monitor.monitor_pod_status isolated settled stranded (pos 0))
monitor_pod_status-IsMarked_example =
    monitor_pod_status-IsMarked isolated 0 stranded
      (record { pod_taken = λ w. refl; claim_taken = λ c w. refl }) settled settled-IsWellFormed
      (omega arith) refl is_free node_lost
