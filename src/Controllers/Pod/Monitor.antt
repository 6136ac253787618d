-- ===== src/Controllers/Pod/Monitor.antt =====
-- `MonitorPodStatus` of
-- controllers/statefulpod/child_resource_controller/pod_controller/pod.go, with `isPodRunning`.
use iapetos.Prelude.{
  ℕ, zero, suc, String, Bool, true, false, not, ◌&&◌, ◌||◌, Option, none, some, List, [], ◌∷◌, ◌==◌,
  if◌then◌else◌,
}
use iapetos.Prelude.Int.{ℤ, pos, ltb_ℤ, eqb_ℤ, sub_ℕ}
use iapetos.Prelude.Slices.{length, at_index, slice_to}
use iapetos.Effect.{M, pure, gets, or_panic, diverge, ◌>>=◌}
use iapetos.Api.{
  NamespacedName, Pod, PodCondition, PodPhase, PodStatus, Pvc, PvcPhase, StatefulPod, is_running,
  is_deleting, is_create_time_out, is_being_deleted,
}
use iapetos.Client.{Env}
use iapetos.Controllers.Status.{with_pods, modify_at, set_pod_phase, set_pvc_phase}
use iapetos.Services.Pod
use iapetos.Services.Pvc
use iapetos.Services.Resource.{has_passed, is_node_ready}

-- `isPodRunning`: running, and no "Ready" condition that is not "True".
abbrev pub all_ready : List PodCondition → Bool
all_ready [] = true
all_ready (c ∷ cs) =
    if c.condition_type == "Ready" && not (c.status == "True") then false else all_ready cs

unfoldable pub is_pod_running : Pod → Bool
is_pod_running pod = if is_running pod.phase then all_ready pod.conditions else false

abbrev pub run_pod : Pod → PodStatus → PodStatus
run_pod pod s = record s {
  pod_name = pod.meta.name;
  status = PodPhase.running;
  node_name = pod.spec.node_name;
}

-- Both entries are set to "Deleting".
abbrev pub mark_deleting : StatefulPod → ℤ → StatefulPod
mark_deleting sp index = record sp {
  status = record {
    pod_status_mes = modify_at index (set_pod_phase PodPhase.deleting) sp.status.pod_status_mes;
    pvc_status_mes = modify_at index (set_pvc_phase PvcPhase.deleting) sp.status.pvc_status_mes;
  };
}

-- `s[:n]` of both lists.
abbrev pub cut_status : StatefulPod → ℤ → Option StatefulPod
cut_status sp n = elim (slice_to sp.status.pod_status_mes n) [
  | none ↦ none
  | some pods ↦ elim (slice_to sp.status.pvc_status_mes n) [
    | none ↦ none
    | some pvcs ↦
        some (record sp { status = record { pod_status_mes = pods; pvc_status_mes = pvcs } })
  ]
]

abbrev in_namespace : String → String → NamespacedName
in_namespace ns name = record { namespace = ns; name = name }

module _ {W : Type 0} (env : Env W) where
  -- The two writes of "Deleting", each with its index check.
  unfoldable pub mark : StatefulPod → ℤ → M W (Bool × StatefulPod)
  mark sp index = do
    _ ← or_panic (at_index sp.status.pod_status_mes index)
    _ ← or_panic (at_index sp.status.pvc_status_mes index)
    pure (true, mark_deleting sp index)

  -- The loop DELETEPVC: the deletion is tried until it gives no error.
  unfoldable pub delete_claim_loop : ℕ → Pvc → M W Unit
  delete_claim_loop zero pvc = diverge
  delete_claim_loop (suc n) pvc = do
    e ← Pvc.delete env pvc
    elim e [ none ↦ pure tt | some _ ↦ delete_claim_loop n pvc ]

  -- The branch for a pod whose node is lost.
  unfoldable pub on_lost_node : StatefulPod → Pod → ℤ → M W (Bool × StatefulPod)
  on_lost_node sp pod index = do
    refused ← Pod.delete_mandatory env pod
    elim refused [
      | some _ ↦ pure (false, sp)
      | none ↦ elim sp.spec.pvc_template [
        | none ↦ mark sp index
        | some _ ↦ (do
          (name, sp') ← or_panic (Pvc.get_name sp index)
          there ← Pvc.is_exists env (in_namespace sp'.meta.namespace name)
          elim there [
            | none ↦ mark sp' index
            | some pvc ↦ (do
              e ← Pvc.delete_mandatory env pvc
              elim e [ some _ ↦ pure (false, sp') | none ↦ mark sp' index ])
          ])
      ]
    ]

  -- The deletion of the claim of a pod whose creation has timed out, waiting for its end.
  unfoldable pub release_claim : StatefulPod → Pod → ℤ → M W StatefulPod
  release_claim sp pod index = elim sp.spec.pvc_template [
    | none ↦ pure sp
    | some _ ↦ (do
      (name, sp') ← or_panic (Pvc.get_name sp index)
      there ← Pvc.is_exists env (in_namespace pod.meta.namespace name)
      elim there [
        | none ↦ pure sp'
        | some pvc ↦ (do _ ← delete_claim_loop env.rounds pvc; pure sp')
      ])
  ]

  -- The branch for a pod whose creation has timed out: the last entry is dropped, any other is set
  -- to "Deleting".
  unfoldable pub on_create_time_out : StatefulPod → Pod → ℤ → M W (Bool × StatefulPod)
  on_create_time_out sp pod index = do
    e ← Pod.delete env pod
    elim e [
      | some _ ↦ pure (false, sp)
      | none ↦ (do
        sp' ← release_claim sp pod index
        elim (eqb_ℤ index (sub_ℕ (length sp'.status.pod_status_mes) 1)) [
          | true ↦ (do cut ← or_panic (cut_status sp' index); pure (true, cut))
          | false ↦ mark sp' index
        ])
    ]

  -- The branch for a pod that is not running: whether its creation has timed out, now or before.
  unfoldable pub on_not_running : StatefulPod → Pod → ℤ → M W (Bool × StatefulPod)
  on_not_running sp pod index = do
    s ← or_panic (at_index sp.status.pod_status_mes index)
    elim (is_create_time_out s.status) [
      | true ↦ on_create_time_out sp pod index
      | false ↦ (do
        now ← gets env.now
        pure (
            if has_passed env.config.pod_timeout pod.meta.creation_timestamp now
            then (
              true,
              with_pods sp (
                  modify_at index (set_pod_phase PodPhase.create_time_out)
                    sp.status.pod_status_mes),
            )
            else (false, sp)))
    ]

  -- The branch for a pod that is running.
  unfoldable pub on_running : StatefulPod → Pod → ℤ → M W (Bool × StatefulPod)
  on_running sp pod index = do
    s ← or_panic (at_index sp.status.pod_status_mes index)
    pure (
        if is_running s.status
        then (false, sp)
        else (true, with_pods sp (modify_at index (run_pod pod) sp.status.pod_status_mes)))

  -- The branch for a pod with a deletion timestamp.
  unfoldable pub on_deleted : StatefulPod → ℤ → M W (Bool × StatefulPod)
  on_deleted sp index = do
    s ← or_panic (at_index sp.status.pod_status_mes index)
    pure (
        if is_deleting s.status || is_create_time_out s.status then (false, sp) else (
          true,
          with_pods sp (modify_at index (set_pod_phase PodPhase.deleting) sp.status.pod_status_mes),
        ))

  -- `MonitorPodStatus`: whether the status has changed, and the changed object.
  unfoldable pub monitor_pod_status : StatefulPod → Pod → ℤ → M W (Bool × StatefulPod)
  monitor_pod_status sp pod index =
      if ltb_ℤ index (pos (length sp.status.pod_status_mes))
      then if is_being_deleted pod.meta then on_deleted sp index else (do
        ready ← is_node_ready env (in_namespace "" pod.spec.node_name)
        elim ready [
          | false ↦ on_lost_node sp pod index
          | true ↦
              if is_pod_running pod then on_running sp pod index else on_not_running sp pod index
        ])
      else pure (false, sp)
