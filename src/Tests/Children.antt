-- ===== src/Tests/Children.antt =====
-- The services and the passes over the children, at an input.
use iapetos.Prelude.{
  ℕ, String, ◌≡◌, ◌≢◌, ◌↔◌, refl, Bool, true, false, some, List, [], ◌∷◌, arith, eq_iff,
}
use iapetos.Prelude.Int.{pos}
use iapetos.Prelude.Maps.{insert, lookup, contains, or_empty}
use iapetos.Prelude.Slices.{All}
use iapetos.Effect.{done}
use iapetos.Api.{Pod, Pvc, Volume, StatefulPod, NodeCondition}
use iapetos.Client.{force, failure, ok}
use iapetos.Client.Laws.{ReadsOnly}
use iapetos.Controllers.Pod
use iapetos.Controllers.Pv
use iapetos.Controllers.Pv.Settled.{IsAvailable}
use iapetos.Controllers.Sweep.Absence.{IsMissing}
use iapetos.Controllers.Pvc as PvcCtrl
use iapetos.Controllers.Sweep.Exact.{delete_pod_all_iff, delete_pvc_all_iff, set_pv_available_iff}
use iapetos.Services.Claims.{create_template_mounts, create_template_keeps_volume}
use iapetos.Services.Labels.{or_else, selected, lookup-set_labels}
use iapetos.Services.Nodes.{IsLost, is_node_ready_iff}
use iapetos.Services.Objects
use iapetos.Services.Objects.{key_of}
use iapetos.Services.Pod as PodService
use iapetos.Services.Pvc as PvcService
use iapetos.Services.Names.{set_pvc_name_injective}
use iapetos.Services.Protection.{marked, delete_mandatory_twice}
use iapetos.Services.Resource.{
  set_pvc_name, default_claim, default_volume, is_node_ready, is_pv_can_use, last_condition,
}
use iapetos.Tests.Objects.{
  spec, losing, growing, cleared, made_pod, defaulted, released_volume, world,
}
use iapetos.Tests.Server.{World, server, ready_node, pods_answer, claims_answer}
use iapetos.Text.{itoa}

reads_pods : ReadsOnly server.pods
reads_pods = record { get_keeps = λ n w. refl }

reads_claims : ReadsOnly server.pvcs
reads_claims = record { get_keeps = λ n w. refl }

reads_volumes : ReadsOnly server.pvs
reads_volumes = record { get_keeps = λ n w. refl }

delete_pod_all_iff_example :
    (Pod.delete_pod_all server losing cleared ≡ done (true, cleared))
    ↔ All (λ s. IsMissing server.pods cleared (Pod.pod_key losing s)) losing.status.pod_status_mes
delete_pod_all_iff_example =
    delete_pod_all_iff server reads_pods losing cleared (pods_answer cleared) refl

delete_pvc_all_iff_example :
    (PvcCtrl.delete_pvc_all server losing cleared ≡ done (true, cleared))
    ↔ All
        (λ s. IsMissing server.pvcs cleared (PvcCtrl.pvc_key losing s))
        losing.status.pvc_status_mes
delete_pvc_all_iff_example =
    delete_pvc_all_iff server reads_claims losing cleared (claims_answer cleared)

second_name : set_pvc_name losing (pos 1) ≡ some ("data-db-1", defaulted)
unfolding set_pvc_name default_claim default_volume itoa
second_name = refl

set_pvc_name_injective_example : ◌≡◌ {A = ℕ} 1 1
set_pvc_name_injective_example =
    set_pvc_name_injective losing defaulted defaulted "data-db-1" "data-db-1" 1 1 second_name
      second_name refl

set_pv_available_iff_example :
    (Pv.set_pv_available server losing cleared ≡ done (true, cleared))
    ↔ All (λ s. IsAvailable (server.pvs.get (Pv.pv_key s) cleared).0) losing.status.pvc_status_mes
set_pv_available_iff_example = set_pv_available_iff server reads_volumes losing cleared refl

-- A pod of a database, not marked yet.
abbrev guarded : Pod
guarded = record made_pod {
  meta = record made_pod.meta { annotations = some (("cockrochDB", "true") ∷ []) };
}

is_guarded : contains "cockrochDB" (or_empty guarded.meta.annotations) ≡ true
unfolding lookup
is_guarded = refl

is_unmarked : contains "nodeUnhealthy" (or_empty guarded.meta.annotations) ≡ false
unfolding lookup
is_unmarked = refl

-- The world with `guarded` in it, and the one after it was marked.
abbrev guarding : World
guarding = record cleared { pods = guarded ∷ [] }

guarded_there : server.pods.get (key_of guarded.meta) guarding ≡ (ok guarded, guarding)
guarded_there = refl

mark_taken :
    server.pods.update (marked guarded) guarding
    ≡ (ok (marked guarded), record cleared { pods = marked guarded ∷ [] })
mark_taken = refl

delete_mandatory_twice_example :
    (PodService.delete_mandatory server guarded guarding
      ≡ done (some failure, record cleared { pods = marked guarded ∷ [] }))
    × (PodService.delete_mandatory server (marked guarded) cleared
        ≡ done (server.pods.delete force (marked guarded) cleared))
delete_mandatory_twice_example =
    delete_mandatory_twice server guarded guarded (marked guarded) guarding guarding
      (record cleared { pods = marked guarded ∷ [] }) cleared is_guarded is_unmarked guarded_there
      refl mark_taken refl

abbrev condition : NodeCondition
condition = record { status = "True"; last_transition_time = 0 }

is_named : ◌≢◌ {A = String} "node" ""
is_named = λ e. ground (arith, eq_iff "node" "", e)

is_node_ready_iff_example :
    (b : Bool) × (is_node_ready server (record { namespace = ""; name = "node" }) cleared
      ≡ done (b, cleared))
    × ((b ≡ false) ↔ IsLost 60 condition 0)
is_node_ready_iff_example =
    is_node_ready_iff server 60 (record { namespace = ""; name = "node" }) ready_node condition
      cleared cleared refl (omega arith) is_named refl refl

template_run : PodService.create_template losing "db-1" (pos 1) ≡ some (made_pod, defaulted)
unfolding PodService.create_template PodService.add_annotations PodService.annotate
    PodService.set_pvc PodService.set_labels PodService.add_missing set_pvc_name default_claim
    default_volume itoa insert
template_run = refl

claim_run : PvcService.get_name defaulted (pos 1) ≡ some ("data-db-1", defaulted)
unfolding PvcService.get_name set_pvc_name default_claim default_volume itoa
claim_run = refl

create_template_mounts_example :
    (v : Volume) × (rest : List Volume) × (made_pod.spec.volumes
      ≡ record v { claim_name = some "data-db-1" } ∷ rest)
create_template_mounts_example =
    create_template_mounts losing defaulted defaulted spec made_pod "db-1" "data-db-1" (pos 1) refl
      template_run claim_run

-- An object with one volume listed, for index 0, and that volume.
abbrev listing : StatefulPod
listing = record growing { spec = record growing.spec { pv_names = "volume" ∷ [] } }

abbrev with_volume : World
with_volume = record (world listing) {
  volumes =
      record released_volume {
        meta = record released_volume.meta {
          annotations = some (("kubevirt.io/provisionOnNode", "node") ∷ []);
        };
      }
      ∷ [];
}

volume_run :
    is_pv_can_use server (record { namespace = ""; name = "volume" }) with_volume
    ≡ done (some "node", with_volume)
unfolding is_pv_can_use is_node_ready Objects.is_exists lookup last_condition
volume_run = refl

create_template_keeps_volume_example :
    (claim : Pvc) × (sp1 : StatefulPod) × (PvcService.create_template server listing "data-db-0" 0
        with_volume
      ≡ done ((claim, sp1), with_volume))
    × (claim.spec.volume_name ≡ "volume")
    × ((claim' : Pvc) × (PvcService.create_template server sp1 "data-db-1" 1 with_volume
          ≡ done ((claim', sp1), with_volume))
        × (claim'.spec.volume_name ≡ "volume")
        × (claim'.spec.storage_class_name ≡ some ""))
create_template_keeps_volume_example =
    create_template_keeps_volume server listing spec "volume" "node" "data-db-0" "data-db-1" 0 1
      with_volume with_volume with_volume refl refl refl volume_run

-- The world with one pod, and that pod again.
abbrev with_pod : World
with_pod = record cleared { pods = made_pod ∷ [] }

update_run :
    Objects.update server.pods PodService.pod_meta made_pod with_pod ≡ done (ok made_pod, with_pod)
unfolding Objects.is_exists
update_run = refl

lookup-set_labels_example :
    lookup "app" (PodService.set_labels losing made_pod).meta.labels
    ≡ or_else
        (lookup "app" (selected losing.spec.service_template))
        (lookup "app" (or_empty losing.spec.selector))
lookup-set_labels_example = lookup-set_labels losing made_pod "app"
