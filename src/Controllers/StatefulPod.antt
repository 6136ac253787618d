-- ===== src/Controllers/StatefulPod.antt =====
-- controllers/statefulpod/stateful_pod.go: the controller of a `StatefulPod`. A handler gets the object
-- and returns the requeue request with the object as it has changed it in memory.
pub mod WellFormed
pub mod Templates
pub mod Children
pub mod Passes
pub mod Resizing
pub mod Growth
pub mod Safety
pub mod Core
pub mod Deletion
pub mod Finalizer
pub mod Shrinking
pub mod Scaling
pub mod Teardown
pub mod Monitoring
pub mod PodMonitoring
pub mod LostNode
pub mod TimeOut
use iapetos.Prelude.{
  ℕ, zero, suc, ◌*◌, Bool, true, false, ◌&&◌, ◌||◌, Option, none, some, [], ◌∷◌, ◌++◌, eqb,
  if◌then◌else◌,
}
use iapetos.Prelude.Int.{ℤ, pos, sub_ℕ, ltb_ℤ, eqb_ℤ}
use iapetos.Prelude.Slices.{length, get_elem?, modify}
use iapetos.Prelude.Maps.{value_at, or_empty}
use iapetos.Effect.{M, pure, or_panic, ◌>>=◌}
use iapetos.Api.{
  ObjectMeta, NamespacedName, Pod, Pvc, PvcPhase, PodStatus, PvcStatus, StatefulPod, is_preparing,
  is_create_time_out, is_claim_pending, is_being_deleted, group_version,
}
use iapetos.Client.{ApiError, Reply, ok, err, Env}
use iapetos.Controllers.Pod
use iapetos.Controllers.Pod.Monitor.{monitor_pod_status, cut_status}
use iapetos.Controllers.Pvc
use iapetos.Controllers.Pv
use iapetos.Controllers.Service
use iapetos.Services.Resource.{second}
use iapetos.Services.StatefulPod
use iapetos.Tools.{match_string_from_array, remove_string, string_to_int, int_to_intr32}
unfoldable pub use iapetos.Controllers.Sizing.{
  get_index, index_at, still_preparing, no_claim_status, record_status,
}

-- `ctrl.Result`; the handlers return it with a nil error.
pub record Result : Type 0 where
  pub requeue : Bool
  pub requeue_after : ℕ

abbrev pub finished : Result
finished = record { requeue = false; requeue_after = 0 }

-- `WaitTime`.
abbrev pub wait_time : ℕ
wait_time = second * 2

abbrev pub wait : Result
wait = record { requeue = false; requeue_after = wait_time }

module _ {W : Type 0} (env : Env W) where
  -- `Update`, and the wait that a failure of it would ask for.
  unfoldable pub save : StatefulPod → M W (Result × StatefulPod)
  save sp = do
    (e, sp') ← StatefulPod.update env sp
    pure (elim e [ none ↦ finished | some _ ↦ wait ], sp')

  -- `deleteStatefulPod`.
  unfoldable pub delete_stateful_pod : StatefulPod → M W (Result × StatefulPod)
  delete_stateful_pod sp = elim (match_string_from_array sp.meta.finalizers group_version) [
    | false ↦ pure (finished, sp)
    | true ↦ (do
      retained ← Pv.set_pv_retain env sp
      elim retained [
        | false ↦ pure (wait, sp)
        | true ↦ (do
          pods_gone ← Pod.delete_pod_all env sp
          elim pods_gone [
            | false ↦ pure (wait, sp)
            | true ↦ (do
              claims_gone ← Pvc.delete_pvc_all env sp
              elim claims_gone [
                | false ↦ pure (wait, sp)
                | true ↦ (do
                  available ← Pv.set_pv_available env sp
                  elim available [
                    | false ↦ pure (wait, sp)
                    | true ↦ save (record sp {
                      meta = record sp.meta {
                        finalizers = remove_string sp.meta.finalizers group_version;
                      };
                    })
                  ])
              ])
          ])
      ])
  ]

  -- The first step of `expansion`: the service, if index 0 needs one.
  unfoldable pub service_ready : StatefulPod → ℕ → M W Bool
  service_ready sp (suc index) = pure true
  service_ready sp zero = elim sp.spec.service_template [
    | none ↦ pure true
    | some _ ↦ Service.create_service env sp
  ]

  -- The claim's entry: from `ExpansionPVC`, or a zero one where there is no template.
  unfoldable pub claim_status : StatefulPod → ℕ → M W (Reply PvcStatus × StatefulPod)
  claim_status sp index = elim sp.spec.pvc_template [
    | none ↦ pure (ok (no_claim_status index), sp)
    | some _ ↦ Pvc.expansion_pvc env sp index
  ]

  -- `expansion`.
  unfoldable pub expansion : StatefulPod → ℕ → M W (Result × StatefulPod)
  expansion sp index = do
    ready ← service_ready sp index
    elim ready [
      | false ↦ pure (wait, sp)
      | true ↦ (do
        (pod_status, sp1) ← Pod.expansion_pod env sp index
        elim pod_status [
          | err _ ↦ pure (record { requeue = true; requeue_after = 0 }, sp1)
          | ok p ↦ (do
            (pvc_status, sp2) ← claim_status sp1 index
            elim pvc_status [
              | err _ ↦ pure (finished, sp2)
              | ok v ↦ (do sp3 ← or_panic (record_status sp2 index p v); save sp3)
            ])
        ])
    ]

  -- The claim's part of `shrink`.
  unfoldable pub claim_shrunk : StatefulPod → ℤ → M W (Bool × StatefulPod)
  claim_shrunk sp index = elim sp.spec.pvc_template [
    | none ↦ pure (true, sp)
    | some _ ↦ Pvc.shrink_pvc env sp index
  ]

  -- `shrink`.
  unfoldable pub shrink : StatefulPod → ℕ → M W (Result × StatefulPod)
  shrink sp index = do
    let last = sub_ℕ index 1
    pod_gone ← Pod.shrink_pod env sp last
    elim pod_gone [
      | false ↦ pure (wait, sp)
      | true ↦ (do
        (claim_gone, sp') ← claim_shrunk sp last
        elim claim_gone [
          | false ↦ pure (wait, sp')
          | true ↦ (do cut ← or_panic (cut_status sp' last); save cut)
        ])
    ]

  -- The second half of `maintain`.
  unfoldable pub restore : StatefulPod → M W (Result × StatefulPod)
  restore sp = do
    index ← Pod.maintain_pod env sp
    elim index [ none ↦ pure (finished, sp) | some i ↦ expansion sp i ]

  -- `maintain`.
  unfoldable pub maintain : StatefulPod → M W (Result × StatefulPod)
  maintain sp = do
    (index, sp1) ← Pod.pod_is_ok env sp
    elim index [
      | none ↦ restore sp1
      | some _ ↦ (do
        (e, sp2) ← StatefulPod.update env sp1
        elim e [ some _ ↦ pure (wait, sp2) | none ↦ restore sp2 ])
    ]

  -- `setFinalizer`; beside the result stands the error.
  unfoldable pub set_finalizer : StatefulPod → M W (Option ApiError × StatefulPod)
  set_finalizer sp =
      if is_being_deleted sp.meta || match_string_from_array sp.meta.finalizers group_version
      then pure (none, sp)
      else StatefulPod.update env (record sp {
        meta = record sp.meta { finalizers = sp.meta.finalizers ++ group_version ∷ [] };
      })

  -- The last branch of `CoreCtrl`.
  unfoldable pub settle : StatefulPod → M W (Result × StatefulPod)
  settle sp = do
    (e, sp') ← set_finalizer sp
    elim e [ some _ ↦ pure (wait, sp') | none ↦ maintain sp' ]

  -- `CoreCtrl`, once the number of children that are up and the size are known.
  unfoldable pub core_branch : StatefulPod → ℕ → ℤ → M W (Result × StatefulPod)
  core_branch sp len_status len_spec =
      if is_being_deleted sp.meta && eqb_ℤ (pos len_status) len_spec
      then delete_stateful_pod sp
      else if ltb_ℤ (pos len_status) len_spec
      then expansion sp len_status
      else if ltb_ℤ len_spec (pos len_status)
      then shrink sp len_status
      else settle sp

  -- `CoreCtrl`.
  unfoldable pub core_ctrl : StatefulPod → M W (Result × StatefulPod)
  core_ctrl sp = do
    len_status ← or_panic (get_index sp)
    len_spec ← or_panic sp.spec.size
    core_branch sp len_status len_spec
