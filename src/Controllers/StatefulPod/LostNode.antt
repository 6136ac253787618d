-- ===== src/Controllers/StatefulPod/LostNode.antt =====
-- `MonitorPodStatus` of controllers/statefulpod/child_resource_controller/pod_controller/pod.go for a
-- pod whose node is lost.
use iapetos.Prelude.{ℕ, ◌<◌, ◌≡◌, refl, ap, Bool, true, false, none, inl, arith}
use iapetos.Prelude.Int.{pos, ltb_ℤ}
use iapetos.Prelude.Slices.{length, get_elem?-lt, modify}
use iapetos.Prelude.Maps.{contains, or_empty}
use iapetos.Effect.Total.{
  returns, Total, Total-bind, Total-pure, Total-if, Total-bool, Total-option, Total-or_panic,
  Anything,
}
use iapetos.Api.{Pod, Pvc, PodPhase, PvcPhase, StatefulPod, is_being_deleted}
use iapetos.Client.{force, Env}
use iapetos.Controllers.Pod.Monitor
use iapetos.Controllers.Status.{set_pod_phase, set_pvc_phase}
use iapetos.Controllers.StatefulPod.Resizing.{pods_of}
use iapetos.Controllers.StatefulPod.WellFormed.{
  IsWellFormed, SameStatus, SameStatus-refl, get_name-SameStatus,
}
use iapetos.Services.Answers.{pvc_exists-Total}
use iapetos.Services.Pod as PodService
use iapetos.Services.Pvc as PvcService
use iapetos.Services.Protection.{delete_mandatory_forces}
use iapetos.Services.Resource.{is_node_ready}

-- The server takes the forced deletion of the pod and of every claim.
pub record TakesForced {W : Type 0} (env : Env W) (pod : Pod) : Type 0 where
  pub pod_taken : (w : W) → (env.pods.delete force pod w).0 ≡ none
  pub claim_taken : (c : Pvc) (w : W) → (env.pvcs.delete force c w).0 ≡ none

-- A change is reported: both entries of the child `i` are "Deleting", and no other has changed.
pub record IsMarked (sp : StatefulPod) (i : ℕ) (r : Bool × StatefulPod) : Type 0 where
  pub reported : r.0 ≡ true
  pub size : r.1.spec.size ≡ sp.spec.size
  pub pods :
      r.1.status.pod_status_mes
      ≡ modify i (set_pod_phase PodPhase.deleting) sp.status.pod_status_mes
  pub pvcs :
      r.1.status.pvc_status_mes
      ≡ modify i (set_pvc_phase PvcPhase.deleting) sp.status.pvc_status_mes

module _ {W : Type 0} (env : Env W) (i : ℕ) where
  pub mark-IsMarked :
      (sp sp' : StatefulPod)
      → IsWellFormed sp
      → i < pods_of sp
      → SameStatus sp sp'
      → Total (IsMarked sp i) (Monitor.mark env sp' (pos i))
  unfolding Monitor.mark
  mark-IsMarked sp sp' wf low same =
      let (p, ep) = get_elem?-lt sp'.status.pod_status_mes i (rw same.status low) in
      let (v, ev) =
        get_elem?-lt sp'.status.pvc_status_mes i (rw same.status (omega (arith, wf.aligned))) in
      Total-bind {P = Anything} _ _ (Total-or_panic _ p ep tt) λ _ _.
        Total-bind {P = Anything} _ _ (Total-or_panic _ v ev tt) λ _ _. Total-pure _ (record {
          reported = refl;
          size = same.size;
          pods =
              ap (λ st. modify i (set_pod_phase PodPhase.deleting) st.pod_status_mes) same.status;
          pvcs =
              ap (λ st. modify i (set_pvc_phase PvcPhase.deleting) st.pvc_status_mes) same.status;
        })

  module _ (pod : Pod) (takes : TakesForced env pod) where
    pod_delete-none :
        contains "cockrochDB" (or_empty pod.meta.annotations) ≡ false
        → Total (λ e. e ≡ none) (PodService.delete_mandatory env pod)
    pod_delete-none free = record {
      at = λ w. rw (delete_mandatory_forces env pod w (inl free)) (returns _ _ (takes.pod_taken w));
    }

    claim_delete-none : (c : Pvc) → Total (λ e. e ≡ none) (PvcService.delete_mandatory env c)
    unfolding PvcService.delete_mandatory
    claim_delete-none c = record { at = λ w. returns _ _ (takes.claim_taken c w) }

    on_lost_node-IsMarked :
        (sp : StatefulPod)
        → IsWellFormed sp
        → i < pods_of sp
        → contains "cockrochDB" (or_empty pod.meta.annotations) ≡ false
        → Total (IsMarked sp i) (Monitor.on_lost_node env sp pod (pos i))
    unfolding Monitor.on_lost_node
    on_lost_node-IsMarked sp wf low free = Total-bind _ _ (pod_delete-none free) λ refused er.
        Total-option refused _ _
          (λ _.
            Total-option sp.spec.pvc_template _ _
              (λ _. mark-IsMarked sp sp wf low (SameStatus-refl wf))
              (λ t et.
                let (name, sp', en, same) = get_name-SameStatus sp (pos i) wf (rw et tt) in
                Total-bind {P = λ q. SameStatus sp q.1} _ _ (Total-or_panic _ (name, sp') en same)
                  λ q kept. Total-bind _ _ (pvc_exists-Total env _) λ there _.
                    Total-option there _ _ (λ _. mark-IsMarked sp q.1 wf low kept)
                      (λ c _. Total-bind _ _ (claim_delete-none c) λ e ee.
                        Total-option e _ _ (λ _. mark-IsMarked sp q.1 wf low kept)
                          (λ x ex. absurd (ground (arith, ee, ex))))))
          (λ x ex. absurd (ground (arith, er, ex)))

    -- `MonitorPodStatus` of a well-formed object for a pod of an entry that is there, when the pod is
    -- not being deleted, its node is not ready, it is not annotated "cockrochDB", and the server takes
    -- the forced deletions of the pod and of any claim: it returns from every world and reports a
    -- change, both entries of the child are "Deleting", all other entries and the size stay.
    pub monitor_pod_status-IsMarked :
        (sp : StatefulPod)
        → IsWellFormed sp
        → i < pods_of sp
        → is_being_deleted pod.meta ≡ false
        → contains "cockrochDB" (or_empty pod.meta.annotations) ≡ false
        → Total
            (λ b. b ≡ false)
            (is_node_ready env (record { namespace = ""; name = pod.spec.node_name }))
        → Total (IsMarked sp i) (Monitor.monitor_pod_status env sp pod (pos i))
    unfolding Monitor.monitor_pod_status
    monitor_pod_status-IsMarked sp wf low stays free node_lost =
        Total-if (ltb_ℤ (pos i) (pos (length sp.status.pod_status_mes))) _ _
          (λ _.
            Total-if (is_being_deleted pod.meta) _ _ (λ gone. absurd (ground (arith, gone, stays)))
              (λ _. Total-bind _ _ node_lost λ ready no_r.
                Total-bool ready _ _ (λ _. on_lost_node-IsMarked sp wf low free)
                  (λ yes_r. absurd (ground (arith, yes_r, no_r)))))
          (λ past. absurd (ground (arith, past, low)))
