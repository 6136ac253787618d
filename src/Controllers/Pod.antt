-- ===== src/Controllers/Pod.antt =====
-- controllers/statefulpod/child_resource_controller/pod_controller/pod.go; `MonitorPodStatus` is in
-- Pod/Monitor.antt.
pub mod Monitor
pub mod Maintain
pub mod Ok
pub mod Creation
use iapetos.Prelude.{
  ℕ, zero, suc, String, Bool, true, false, not, ◌&&◌, Option, none, some, List, [], ◌∷◌,
}
use iapetos.Prelude.Int.{ℤ, pos}
use iapetos.Prelude.Slices.{length, get_elem?}
use iapetos.Effect.{M, pure, or_panic, ◌>>=◌}
use iapetos.Api.{
  PodPhase, PodStatus, StatefulPod, NamespacedName, is_running, is_deleting, is_being_deleted,
}
use iapetos.Client.{Reply, ok, err, Env}
use iapetos.Controllers.Pvc.{kept_status}
use iapetos.Controllers.Sweep.{sweep}
use iapetos.Controllers.Status.{all_counted, with_pods, modify_at, set_pod_phase}
use iapetos.Services.Pod
use iapetos.Tools.{int_to_intr32}

abbrev in_namespace : StatefulPod → String → NamespacedName
in_namespace sp name = record { namespace = sp.meta.namespace; name = name }

-- The status entry of a pod that was just created.
abbrev pub preparing_status : ℕ → String → PodStatus
preparing_status index name = record {
  pod_name = name;
  status = PodPhase.preparing;
  index = int_to_intr32 index;
  node_name = "";
}

-- What `PodIsOk` returns: whether an entry was corrected, and the object with that correction.
abbrev pub corrected : StatefulPod → Option (ℕ × PodPhase) → Option ℕ × StatefulPod
corrected sp none = (none, sp)
corrected sp (some (i, phase)) =
    (some i, with_pods sp (modify_at (pos i) (set_pod_phase phase) sp.status.pod_status_mes))

abbrev pub pod_key : StatefulPod → PodStatus → NamespacedName
pod_key sp s = record { namespace = sp.meta.namespace; name = s.pod_name }

module _ {W : Type 0} (env : Env W) where
  -- `IsPodDeleting`; no code calls it.
  unfoldable pub is_pod_deleting : StatefulPod → ℕ → M W Bool
  is_pod_deleting sp zero = pure false
  is_pod_deleting sp (suc index) = do
    there ← Pod.is_exists env (in_namespace sp (Pod.get_name sp (pos index)))
    pure (elim there [ none ↦ true | some last_pod ↦ is_being_deleted last_pod.meta ])

  -- `ExpansionPod`.
  unfoldable pub expansion_pod : StatefulPod → ℕ → M W (Reply PodStatus × StatefulPod)
  expansion_pod sp index = do
    let name = Pod.get_name sp (pos index)
    there ← Pod.is_exists env (in_namespace sp name)
    elim there [
      | some _ ↦ pure (kept_status (get_elem? sp.status.pod_status_mes index), sp)
      | none ↦ (do
        (pod, sp') ← or_panic (Pod.create_template sp name (pos index))
        created ← Pod.create env pod
        elim created [
          | err e ↦ pure (err e, sp')
          | ok obj ↦ pure (ok (preparing_status index obj.meta.name), sp')
        ])
    ]

  -- `ShrinkPod`: true only where the pod is gone.
  unfoldable pub shrink_pod : StatefulPod → ℤ → M W Bool
  shrink_pod sp index = do
    there ← Pod.is_exists env (in_namespace sp (Pod.get_name sp index))
    elim there [ none ↦ pure true | some pod ↦ (do _ ← Pod.delete env pod; pure false) ]

  -- `DeletePodAll`, which counts against the entries of the claims.
  unfoldable pub delete_pod_all : StatefulPod → M W Bool
  delete_pod_all sp = do
    sum ← sweep env.pods (pod_key sp) sp.status.pod_status_mes 0
    pure (all_counted (length sp.status.pvc_status_mes) sum)

  -- The loop of `MaintainPod` from index `i` on.
  unfoldable pub maintain_loop : List PodStatus → String → ℕ → M W (Option ℕ)
  maintain_loop [] ns i = pure none
  maintain_loop (s ∷ rest) ns i = elim (is_deleting s.status) [
    | false ↦ maintain_loop rest ns (suc i)
    | true ↦ (do
      there ← Pod.is_exists env (record { namespace = ns; name = s.pod_name })
      elim there [ none ↦ pure (some i) | some _ ↦ maintain_loop rest ns (suc i) ])
  ]

  -- `MaintainPod`: the first entry that is "Deleting" and whose pod is gone.
  unfoldable pub maintain_pod : StatefulPod → M W (Option ℕ)
  maintain_pod sp = maintain_loop sp.status.pod_status_mes sp.meta.namespace 0

  -- The loop of `PodIsOk` from index `i` on: the index at which it stops, and the new phase there.
  unfoldable pub ok_loop : List PodStatus → String → ℕ → M W (Option (ℕ × PodPhase))
  ok_loop [] ns i = pure none
  ok_loop (s ∷ rest) ns i = do
    there ← Pod.is_exists env (record { namespace = ns; name = s.pod_name })
    elim there [
      | none ↦ pure (some (i, PodPhase.deleting))
      | some pod ↦ elim (is_running pod.phase && not (is_running s.status)) [
        | true ↦ pure (some (i, PodPhase.running))
        | false ↦ ok_loop rest ns (suc i)
      ]
    ]

  -- `PodIsOk`.
  unfoldable pub pod_is_ok : StatefulPod → M W (Option ℕ × StatefulPod)
  pod_is_ok sp = do
    stop ← ok_loop sp.status.pod_status_mes sp.meta.namespace 0
    pure (corrected sp stop)
