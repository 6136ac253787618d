-- ===== src/Controllers/StatefulPod/PodMonitoring.antt =====
-- `MonitorPodStatus` of controllers/statefulpod/child_resource_controller/pod_controller/pod.go, on an
-- entry that is there.
use iapetos.Prelude.{
  ℕ, zero, suc, ◌≤◌, ◌<◌, ◌≡◌, refl, inl, inr, Bool, true, false, ◌||◌, none, some, ap, ◌∙◌, sym,
  arith,
}
use iapetos.Prelude.Int.{pos, sub_ℕ, ltb_ℤ, eqb_ℤ}
use iapetos.Prelude.Slices.{length, get_elem?-lt, length-modify}
use iapetos.Effect.Total.{
  returns, Total, Total-bind, Total-pure, Total-if, Total-bool, Total-option, Total-or_panic,
  Total-weaken, Anything,
}
use iapetos.Api.{
  Pod, Pvc, PodPhase, PvcPhase, StatefulPod, is_being_deleted, is_create_time_out, is_deleting,
  is_running,
}
use iapetos.Client.{plain, Store, Env}
use iapetos.Client.Laws.{NodesReport}
use iapetos.Controllers.Pod.Monitor
use iapetos.Controllers.Status.{set_pod_phase, set_pvc_phase}
use iapetos.Controllers.StatefulPod.Passes.{with_pods-SameLength}
use iapetos.Controllers.StatefulPod.Resizing.{pods_of, cut_status-Resized, sub_ℕ-one}
use iapetos.Controllers.StatefulPod.WellFormed.{
  IsWellFormed, SameStatus, SameStatus-refl, SameStatus-IsWellFormed, get_name-SameStatus,
}
use iapetos.Services.Answers.{
  pvc_exists-Total, pod_delete-Total, pod_delete_mandatory-Total, pvc_delete_mandatory-Total,
  is_node_ready-Total,
}
use iapetos.Services.Objects.{ignore_not_found}
use iapetos.Services.Objects
use iapetos.Services.Resource.{has_passed}
use iapetos.Services.Pvc as PvcService
use iapetos.Controllers.StatefulPod.Monitoring.{Kept, same-Kept, pure_if-Kept}

-- The server takes every deletion, or says that the object is gone.
pub record TakesDeletes {W A : Type 0} (store : Store W A) : Type 0 where
  pub taken : (obj : A) (w : W) → ignore_not_found (store.delete plain obj w).0 ≡ none

-- What was found of the defaulted object holds of the object itself.
through :
    {sp sp' : StatefulPod} → SameStatus sp sp' → (r : Bool × StatefulPod) → Kept sp' r → Kept sp r
through same r (wf, size, n) = (wf, size ∙ same.size, rw (← same.status) n)

module _ {W : Type 0} (env : Env W) (i : ℕ) where
  mark-Kept :
      (sp : StatefulPod)
      → IsWellFormed sp
      → i < pods_of sp
      → Total (Kept sp) (Monitor.mark env sp (pos i))
  unfolding Monitor.mark
  mark-Kept sp wf h =
      let (p, ep) = get_elem?-lt sp.status.pod_status_mes i h in
      let (v, ev) = get_elem?-lt sp.status.pvc_status_mes i (omega (arith, wf.aligned)) in
      let kp = length-modify i (set_pod_phase PodPhase.deleting) sp.status.pod_status_mes in
      let kv = length-modify i (set_pvc_phase PvcPhase.deleting) sp.status.pvc_status_mes in
      Total-bind {P = Anything} _ _ (Total-or_panic _ p ep tt) λ _ _.
        Total-bind {P = Anything} _ _ (Total-or_panic _ v ev tt) λ _ _. Total-pure _ (
          record { aligned = kp ∙ wf.aligned ∙ sym kv; sized = wf.sized; mountable = wf.mountable },
          refl,
          inl kp,
        )

  on_deleted-Kept :
      (sp : StatefulPod)
      → IsWellFormed sp
      → i < pods_of sp
      → Total (Kept sp) (Monitor.on_deleted env sp (pos i))
  unfolding Monitor.on_deleted
  on_deleted-Kept sp wf h =
      let (p, ep) = get_elem?-lt sp.status.pod_status_mes i h in
      Total-bind {P = Anything} _ _ (Total-or_panic _ p ep tt) λ s _.
        pure_if-Kept sp (is_deleting s.status || is_create_time_out s.status) _ _
          (wf, refl, inl refl) (same-Kept sp true _ (with_pods-SameLength sp (pos i) _ wf))

  on_running-Kept :
      (sp : StatefulPod) (pod : Pod)
      → IsWellFormed sp
      → i < pods_of sp
      → Total (Kept sp) (Monitor.on_running env sp pod (pos i))
  unfolding Monitor.on_running
  on_running-Kept sp pod wf h =
      let (p, ep) = get_elem?-lt sp.status.pod_status_mes i h in
      Total-bind {P = Anything} _ _ (Total-or_panic _ p ep tt) λ s _.
        pure_if-Kept sp (is_running s.status) _ _ (wf, refl, inl refl)
          (same-Kept sp true _ (with_pods-SameLength sp (pos i) _ wf))

  -- The branch for a lost node, with the pod's deletion accepted or refused.
  on_lost_node-Kept :
      (sp : StatefulPod) (pod : Pod)
      → IsWellFormed sp
      → i < pods_of sp
      → Total (Kept sp) (Monitor.on_lost_node env sp pod (pos i))
  unfolding Monitor.on_lost_node
  on_lost_node-Kept sp pod wf h =
      Total-bind {P = Anything} _ _ (pod_delete_mandatory-Total env pod) λ refused _.
        Total-option refused _ _
          (λ _.
            Total-option sp.spec.pvc_template _ _ (λ _. mark-Kept sp wf h)
              (λ t e.
                let (name, sp', en, same) = get_name-SameStatus sp (pos i) wf (rw e tt) in
                let wf' = SameStatus-IsWellFormed wf same in
                let h' : i < pods_of sp' = rw same.status h in
                let marked = Total-weaken (mark-Kept sp' wf' h') (through same) in
                Total-bind {P = λ q. q ≡ (name, sp')} _ _ (Total-or_panic _ (name, sp') en refl)
                  λ q eq. Total-bind _ _ (pvc_exists-Total env _) λ there _.
                    Total-option there _ _ (λ _. rw eq marked)
                      (λ pvc _.
                        Total-bind {P = Anything} _ _ (pvc_delete_mandatory-Total env pvc) λ x _.
                          Total-option x _ _ (λ _. rw eq marked)
                            (λ _ _.
                              Total-pure _
                                (rw eq (through same (false, sp') (wf', refl, inl refl)))))))
          (λ _ _. Total-pure _ (wf, refl, inl refl))

  module _ (takes : TakesDeletes env.pvcs) where
    -- The first deletion of the claim is taken.
    delete_claim_loop-Total :
        (n : ℕ) (pvc : Pvc) → 1 ≤ n → Total Anything (Monitor.delete_claim_loop env n pvc)
    unfolding Monitor.delete_claim_loop PvcService.delete Objects.delete
    delete_claim_loop-Total zero pvc h = absurd (omega arith)
    delete_claim_loop-Total (suc n) pvc h = record {
      at = λ w. rw (takes.taken pvc w) (returns tt (env.pvcs.delete plain pvc w).1 tt);
    }

    module _ (rounds : 1 ≤ env.rounds) where
      pub release_claim-SameStatus :
          (sp : StatefulPod) (pod : Pod)
          → IsWellFormed sp
          → Total (SameStatus sp) (Monitor.release_claim env sp pod (pos i))
      unfolding Monitor.release_claim
      release_claim-SameStatus sp pod wf =
          Total-option sp.spec.pvc_template _ _ (λ _. Total-pure _ (SameStatus-refl wf))
            (λ t e.
              let (name, sp', en, same) = get_name-SameStatus sp (pos i) wf (rw e tt) in
              Total-bind {P = λ q. q ≡ (name, sp')} _ _ (Total-or_panic _ (name, sp') en refl)
                λ q eq. Total-bind _ _ (pvc_exists-Total env _) λ there _.
                  Total-option there _ _ (λ _. Total-pure _ (rw eq same))
                    (λ pvc _.
                      Total-bind _ _ (delete_claim_loop-Total env.rounds pvc rounds)
                        λ _ _. Total-pure _ (rw eq same)))

      -- The last entry goes.
      cut_last :
          (sp : StatefulPod)
          → IsWellFormed sp
          → eqb_ℤ (pos i) (sub_ℕ (pods_of sp) 1) ≡ true
          → (sp' : StatefulPod) × (Monitor.cut_status sp (pos i) ≡ some sp') × Kept sp (true, sp')
      cut_last sp wf last = by_length (pods_of sp) refl
        where
          by_length :
              (len : ℕ)
              → pods_of sp ≡ len
              → (sp' : StatefulPod) × (Monitor.cut_status sp (pos i) ≡ some sp')
                × Kept sp (true, sp')
          by_length zero e = absurd (ground (arith, last, e))
          by_length (suc k) e =
              let one = sub_ℕ-one k in
              let ik : i ≡ k = ground (arith, last, e, one) in
              let (sp', cut, kept) = cut_status-Resized sp k wf (omega arith) in
              (
                sp',
                ap (λ j. Monitor.cut_status sp j) (ap pos ik ∙ sym one) ∙ cut,
                (kept.0, kept.1, inr (omega (arith, kept.2, e))),
              )

      on_create_time_out-Kept :
          (sp : StatefulPod) (pod : Pod)
          → IsWellFormed sp
          → i < pods_of sp
          → Total (Kept sp) (Monitor.on_create_time_out env sp pod (pos i))
      unfolding Monitor.on_create_time_out
      on_create_time_out-Kept sp pod wf h = Total-bind _ _ (pod_delete-Total env pod) λ x _.
          Total-option x _ _
            (λ _. Total-bind _ _ (release_claim-SameStatus sp pod wf) λ sp' same.
              let wf' = SameStatus-IsWellFormed wf same in
              Total-weaken
                (Total-bool (eqb_ℤ (pos i) (sub_ℕ (pods_of sp') 1)) _ _
                  (λ _. mark-Kept sp' wf' (rw same.status h))
                  (λ last.
                    let (cut, e, kept) = cut_last sp' wf' last in
                    Total-bind {P = λ c. c ≡ cut} _ _ (Total-or_panic _ cut e refl)
                      λ c ec. Total-pure _ (rw ec kept)))
                (through same))
            (λ _ _. Total-pure _ (wf, refl, inl refl))

      on_not_running-Kept :
          (sp : StatefulPod) (pod : Pod)
          → IsWellFormed sp
          → i < pods_of sp
          → Total (Kept sp) (Monitor.on_not_running env sp pod (pos i))
      unfolding Monitor.on_not_running
      on_not_running-Kept sp pod wf h =
          let (p, ep) = get_elem?-lt sp.status.pod_status_mes i h in
          Total-bind {P = Anything} _ _ (Total-or_panic _ p ep tt) λ s _.
            Total-bool (is_create_time_out s.status) _ _
              (λ _. record {
                at = λ w.
                    (pure_if-Kept sp
                        (has_passed env.config.pod_timeout pod.meta.creation_timestamp (env.now w))
                        (true, _) (false, sp)
                        (same-Kept sp true _ (
                          with_pods-SameLength sp (pos i) (set_pod_phase PodPhase.create_time_out)
                            wf))
                        (wf, refl, inl refl)).at
                      w;
              })
              (λ _. on_create_time_out-Kept sp pod wf h)

      -- `MonitorPodStatus` of a well-formed object for a pod of an index that is not negative returns
      -- from every world, if nodes report conditions, the server takes deletions of claims, and the
      -- deletion loop is given a round. The object is well-formed afterwards, its size is the same,
      -- and at most one entry has gone.
      pub monitor_pod_status-Kept :
          NodesReport env
          → (sp : StatefulPod) (pod : Pod) → IsWellFormed sp
          → Total (Kept sp) (Monitor.monitor_pod_status env sp pod (pos i))
      unfolding Monitor.monitor_pod_status
      monitor_pod_status-Kept nodes sp pod wf =
          Total-if (ltb_ℤ (pos i) (pos (length sp.status.pod_status_mes))) _ _
            (λ low.
              let h : i < pods_of sp = ground (arith, low) in
              Total-if (is_being_deleted pod.meta) _ _ (λ _. on_deleted-Kept sp wf h)
                (λ _. Total-bind _ _ (is_node_ready-Total nodes _) λ ready _.
                  Total-bool ready _ _ (λ _. on_lost_node-Kept sp pod wf h)
                    (λ _.
                      Total-if (Monitor.is_pod_running pod) _ _ (λ _. on_running-Kept sp pod wf h)
                        (λ _. on_not_running-Kept sp pod wf h))))
            (λ _. Total-pure _ (wf, refl, inl refl))
