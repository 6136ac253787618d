-- ===== src/Tests/Examples.antt =====
-- Each theorem at a concrete input.
use iapetos.Prelude.{ℕ, suc, ◌≤◌, ◌≡◌, refl, ◌⊎◌, true, false, Option, none, some, arith, ◌==◌}
use iapetos.Prelude.Int.{pos}
use iapetos.Prelude.Maps.{insert, lookup}
use iapetos.Prelude.Slices.{All}
use iapetos.Effect.{done}
use iapetos.Effect.Total.{Total}
use iapetos.Api.{StatefulPod, group_version}
use iapetos.Client.Laws.{ReadsOnly}
use iapetos.Controllers.Pod
use iapetos.Controllers.Pod.Maintain.{IsLost, IsFirst, maintain_pod-IsFirst}
use iapetos.Controllers.Pod.Monitor
use iapetos.Controllers.Pv
use iapetos.Controllers.Pv.Settled.{IsRetained, set_pv_retain-IsRetained}
use iapetos.Controllers.Pvc
use iapetos.Controllers.Routing.{LeadsTo, create_template-LeadsTo}
use iapetos.Controllers.StatefulPod
use iapetos.Controllers.StatefulPod.{Result, finished, wait}
use iapetos.Controllers.StatefulPod.Core.{CoreLength, core_ctrl-Total, get_index-bounds}
use iapetos.Controllers.StatefulPod.Deletion.{
  IsReleased, without_finalizer, delete_stateful_pod-IsReleased,
}
use iapetos.Controllers.StatefulPod.Monitoring.{Kept, monitor_pvc_status-Kept}
use iapetos.Controllers.StatefulPod.PodMonitoring.{TakesDeletes, monitor_pod_status-Kept}
use iapetos.Controllers.StatefulPod.Resizing.{pods_of}
use iapetos.Controllers.StatefulPod.WellFormed.{IsWellFormed, Resized}
use iapetos.Controllers.Sweep.{sweep}
use iapetos.Services.Objects
use iapetos.Services.Pod as PodService
use iapetos.Services.Pv as PvService
use iapetos.Services.Resource.{set_pvc_name, default_claim, default_volume}
use iapetos.Services.StatefulPod as StatefulPodService
use iapetos.Services.StatefulPod.Settling.{SameButVersion, update_settles}
use iapetos.Tests.Objects.{
  growing, losing, cleared, let_go, after_let_go, made_pod, defaulted, running_pod, bound_claim,
}
use iapetos.Tests.Server.{server, server-Quiet, pods_answer, claims_answer}
use iapetos.Text.{itoa}
use iapetos.Tools.{match_string_from_array, remove_string}

growing-IsWellFormed : IsWellFormed growing
growing-IsWellFormed = record { aligned = refl; sized = tt; mountable = (tt, tt) }

core_ctrl-Total_example :
    (i : ℕ) × (StatefulPod.get_index growing ≡ some i)
    × Total
        (λ r. Resized (CoreLength i 2 (pods_of growing)) growing r.1)
        (StatefulPod.core_ctrl server growing)
core_ctrl-Total_example = core_ctrl-Total server-Quiet growing 2 growing-IsWellFormed refl

losing-IsWellFormed : IsWellFormed losing
losing-IsWellFormed = record { aligned = refl; sized = tt; mountable = (tt, tt) }

get_index-bounds_example :
    (i : ℕ) × (StatefulPod.get_index growing ≡ some i) × (i ≤ 1) × (1 ≤ suc i)
get_index-bounds_example = get_index-bounds growing 2 growing-IsWellFormed refl

reads_pods : ReadsOnly server.pods
reads_pods = record { get_keeps = λ n w. refl }

reads_claims : ReadsOnly server.pvcs
reads_claims = record { get_keeps = λ n w. refl }

reads_volumes : ReadsOnly server.pvs
reads_volumes = record { get_keeps = λ n w. refl }

takes_claims : TakesDeletes server.pvcs
takes_claims = record { taken = λ obj w. refl }

retain_run : Pv.set_pv_retain server losing cleared ≡ done (true, cleared)
unfolding Pv.set_pv_retain Pv.retain_loop PvService.get lookup
retain_run = refl

set_pv_retain-IsRetained_example :
    (((losing.spec.pv_recycle_policy == "Retain") ≡ false)
      ⊎ All (λ s. IsRetained (server.pvs.get (Pv.pv_key s) cleared).0) losing.status.pvc_status_mes)
    × (cleared ≡ cleared)
set_pv_retain-IsRetained_example =
    set_pv_retain-IsRetained server reads_volumes losing cleared cleared retain_run

available_run : Pv.set_pv_available server losing cleared ≡ done (true, cleared)
unfolding Pv.set_pv_available Pv.available_loop PvService.get lookup
available_run = refl

pods_run : Pod.delete_pod_all server losing cleared ≡ done (true, cleared)
unfolding Pod.delete_pod_all sweep Objects.is_exists
pods_run = refl

marked_run : match_string_from_array losing.meta.finalizers group_version ≡ true
unfolding match_string_from_array
marked_run = refl

delete_run :
    StatefulPod.delete_stateful_pod server losing cleared ≡ done ((finished, let_go), after_let_go)
unfolding StatefulPod.delete_stateful_pod Pod.delete_pod_all Pvc.delete_pvc_all sweep
    Objects.is_exists Pv.set_pv_retain Pv.retain_loop Pv.set_pv_available Pv.available_loop
    PvService.get lookup StatefulPod.save StatefulPodService.update StatefulPodService.update_loop
    match_string_from_array remove_string itoa
delete_run = refl

delete_stateful_pod-IsReleased_example :
    ((finished ≡ wait) × (let_go ≡ losing))
    ⊎ (IsReleased server losing cleared
        × (StatefulPod.save server (without_finalizer losing) cleared
            ≡ done ((finished, let_go), after_let_go)))
delete_stateful_pod-IsReleased_example =
    delete_stateful_pod-IsReleased server reads_pods reads_claims reads_volumes losing let_go
      finished cleared after_let_go (pods_answer cleared) (claims_answer cleared) refl marked_run
      delete_run

update_settles_example :
    Total
      (λ r. (r.0 ≡ none) × SameButVersion growing r.1)
      (StatefulPodService.update server growing)
update_settles_example = update_settles server-Quiet.echo server-Quiet.current growing (omega arith)

maintain_pod-IsFirst_example :
    (o : Option ℕ) × (Pod.maintain_pod server losing cleared ≡ done (o, cleared))
    × IsFirst (IsLost server losing cleared) losing.status.pod_status_mes o
maintain_pod-IsFirst_example =
    maintain_pod-IsFirst server reads_pods losing cleared (pods_answer cleared)

monitor_pod_status-Kept_example :
    Total
      (Kept losing)
      (Monitor.monitor_pod_status server losing (running_pod losing "db-0") (pos 0))
monitor_pod_status-Kept_example =
    monitor_pod_status-Kept server 0 takes_claims (omega arith) server-Quiet.nodes losing
      (running_pod losing "db-0") losing-IsWellFormed

monitor_pvc_status-Kept_example :
    Total
      (Kept losing)
      (Pvc.monitor_pvc_status server losing (bound_claim losing "data-db-0" 0) (pos 0))
monitor_pvc_status-Kept_example =
    monitor_pvc_status-Kept server 0 losing (bound_claim losing "data-db-0" 0) losing-IsWellFormed

claim_run : set_pvc_name losing (pos 1) ≡ some ("data-db-1", defaulted)
unfolding set_pvc_name default_claim default_volume itoa
claim_run = refl

template_run : PodService.create_template losing "db-1" (pos 1) ≡ some (made_pod, defaulted)
unfolding PodService.create_template PodService.add_annotations PodService.annotate
    PodService.set_pvc PodService.set_labels PodService.add_missing set_pvc_name default_claim
    default_volume itoa insert
template_run = refl

create_template-LeadsTo_example : (made_pod.meta.name ≡ "db-1") × LeadsTo made_pod.meta losing 1
create_template-LeadsTo_example =
    create_template-LeadsTo losing defaulted "db-1" 1 made_pod (omega arith) template_run
