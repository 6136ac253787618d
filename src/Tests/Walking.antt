-- ===== src/Tests/Walking.antt =====
-- A walk of a `StatefulPod` that has its size, at an input.
use iapetos.Prelude.{◌≡◌, refl, false, [], ◌∷◌, arith}
use iapetos.Prelude.Int.{pos}
use iapetos.Effect.{done}
use iapetos.Controllers.Pod
use iapetos.Controllers.Pod.Monitor
use iapetos.Controllers.StatefulPod
use iapetos.Controllers.StatefulPod.{finished}
use iapetos.Controllers.StatefulPod.PodMonitoring.{TakesDeletes}
use iapetos.Controllers.StatefulPod.Scaling.{
  Step, core, pod_report, Cause, Moves, Walk, here, step, view, resized, IsWithin, Walk-Move,
  Walk-IsWithin,
}
use iapetos.Controllers.StatefulPod.WellFormed.{IsWellFormed}
use iapetos.Services.Objects
use iapetos.Services.Pod as PodService
use iapetos.Services.Resource.{is_node_ready}
use iapetos.Tests.Objects.{settled, running, running_pod}
use iapetos.Tests.Server.{World, server, server-Quiet}
use iapetos.Tools.{match_string_from_array}

settled-IsWellFormed : IsWellFormed settled
settled-IsWellFormed = record { aligned = refl; sized = tt; mountable = (tt, tt) }

core_run : StatefulPod.core_ctrl server settled running ≡ done ((finished, settled), running)
unfolding StatefulPod.core_ctrl StatefulPod.get_index StatefulPod.index_at StatefulPod.core_branch
    StatefulPod.settle StatefulPod.set_finalizer StatefulPod.maintain StatefulPod.restore
    Pod.pod_is_ok Pod.ok_loop Pod.maintain_pod Pod.maintain_loop PodService.is_exists
    Objects.is_exists match_string_from_array
core_run = refl

pod_run :
    Monitor.monitor_pod_status server settled (running_pod settled "db-0") (pos 0) running
    ≡ done ((false, settled), running)
unfolding Monitor.monitor_pod_status Monitor.on_running Monitor.is_pod_running is_node_ready
pod_run = refl

takes_claims : TakesDeletes server.pvcs
takes_claims = record { taken = λ obj w. refl }

-- A pass, a report, and a request for a third child.
abbrev walked : Walk (Step World 3) settled (resized 3 settled)
walked = step (core server finished running running server-Quiet core_run) (
    step
      (pod_report server (running_pod settled "db-0") 0 false running running server-Quiet
        takes_claims pod_run)
      (step (Step.resize 3 (omega arith)) here))

Walk-Move_example :
    IsWellFormed (resized 3 settled)
    × Moves 3
        (Cause.pass ∷ Cause.report ∷ Cause.request 3 ∷ [])
        (view settled)
        (view (resized 3 settled))
Walk-Move_example = Walk-Move 3 settled (resized 3 settled) settled-IsWellFormed walked

Walk-IsWithin_example : IsWithin 3 (view (resized 3 settled))
Walk-IsWithin_example =
    Walk-IsWithin 3 settled (resized 3 settled) settled-IsWellFormed (omega arith, omega arith)
      walked
