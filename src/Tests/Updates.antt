-- ===== src/Tests/Updates.antt =====
-- A conflict, a check on the pods, and an event, at an input.
use iapetos.Prelude.{some, ◌≡◌, refl, none, some, arith}
use iapetos.Prelude.Int.{pos}
use iapetos.Prelude.Maps.{insert}
use iapetos.Prelude.Slices.{All}
use iapetos.Services.Resource.{set_pvc_name, default_claim, default_volume}
use iapetos.Tests.Objects.{losing, made_pod, defaulted}
use iapetos.Effect.{done}
use iapetos.Api.{StatefulPod}
use iapetos.Client.Laws.{ReadsOnly, with_version}
use iapetos.Controllers.Pod
use iapetos.Controllers.Pod.Ok.{IsCurrent, pod_is_ok-IsCurrent}
use iapetos.Services.Objects
use iapetos.Services.Pod as PodService
use iapetos.Services.StatefulPod as StatefulPodService
use iapetos.Services.StatefulPod.Settling.{update_overwrites}
use iapetos.Tests.Objects.{growing, changed, settled, running, world}
use iapetos.Tests.Server.{World, server, server-Quiet}
use iapetos.Text.{itoa}

abbrev overwritten : StatefulPod
overwritten = with_version (itoa (pos 2)) growing

abbrev after : World
after = record (world changed) { object = some overwritten; revision = 3 }

update_overwrites_example :
    (StatefulPodService.update server growing (world changed) ≡ done ((none, overwritten), after))
    × (overwritten.spec ≡ growing.spec)
    × (overwritten.status ≡ growing.status)
update_overwrites_example =
    update_overwrites server server-Quiet.echo growing changed overwritten (world changed)
      (world changed) (world changed) after (omega arith) refl refl refl

reads_pods : ReadsOnly server.pods
reads_pods = record { get_keeps = λ n w. refl }

ok_run : Pod.pod_is_ok server settled running ≡ done ((none, settled), running)
unfolding Pod.pod_is_ok Pod.ok_loop PodService.is_exists Objects.is_exists
ok_run = refl

pod_is_ok-IsCurrent_example :
    All (IsCurrent server settled running) settled.status.pod_status_mes
    × (settled ≡ settled)
    × (running ≡ running)
pod_is_ok-IsCurrent_example =
    pod_is_ok-IsCurrent server reads_pods settled running running settled ok_run

template_made : PodService.create_template losing "db-1" (pos 1) ≡ some (made_pod, defaulted)
unfolding PodService.create_template PodService.add_annotations PodService.annotate
    PodService.set_pvc PodService.set_labels PodService.add_missing set_pvc_name default_claim
    default_volume itoa insert
template_made = refl
