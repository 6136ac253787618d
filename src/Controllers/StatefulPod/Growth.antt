-- ===== src/Controllers/StatefulPod/Growth.antt =====
-- `expansion` and `shrink` of controllers/statefulpod/stateful_pod.go return.
use iapetos.Prelude.{ℕ, zero, suc, ◌≤◌, ◌<◌, ◌≡◌, refl, ◌∙◌, inl, inr, true, none, arith, ap}
use iapetos.Prelude.Int.{ℤ, sub_ℕ}
use iapetos.Prelude.Slices.{length}
use iapetos.Effect.{or_panic, ◌>>=◌}
use iapetos.Effect.Total.{
  Total, Total-bind, Total-pure, Total-option, Total-bool, Total-or_panic, Total-weaken, Anything,
}
use iapetos.Api.{StatefulPod, PodStatus, PvcStatus}
use iapetos.Client.{Env}
use iapetos.Client.Laws.{Total-reply}
use iapetos.Controllers.Pod.Monitor.{cut_status}
use iapetos.Controllers.StatefulPod
use iapetos.Controllers.StatefulPod.Children.{
  expansion_pod-SameStatus, expansion_pvc-SameStatus, shrink_pod-Total, shrink_pvc-SameStatus,
}
use iapetos.Controllers.StatefulPod.Passes.{create_service-Total}
use iapetos.Controllers.StatefulPod.WellFormed.{
  IsWellFormed, SameStatus, SameStatus-refl, SameStatus-trans, SameStatus-IsWellFormed, Resized,
}
use iapetos.Services.StatefulPod as StatefulPodService
use iapetos.Services.StatefulPod.Settling.{SameButVersion, update_settles}
use iapetos.Controllers.StatefulPod.Resizing.{
  Quiet, pods_of, SameButVersion-Resized, Resized-trans, GrowsAt, record_status-GrowsAt,
  cut_status-Resized, ShrinksAt,
}

module _ {W : Type 0} {env : Env W} (quiet : Quiet env) where
  pub update-SameButVersion :
      (sp : StatefulPod)
      → Total (λ r. (r.0 ≡ none) × SameButVersion sp r.1) (StatefulPodService.update env sp)
  update-SameButVersion sp = update_settles quiet.echo quiet.current sp quiet.rounds

  pub save-Total : (sp : StatefulPod) → Total (λ r. SameButVersion sp r.1) (StatefulPod.save env sp)
  unfolding StatefulPod.save
  save-Total sp = Total-bind _ _ (update-SameButVersion sp) (λ r h. Total-pure _ h.1)

  service_ready-Total :
      (sp : StatefulPod) (i : ℕ) → Total Anything (StatefulPod.service_ready env sp i)
  unfolding StatefulPod.service_ready
  service_ready-Total sp (suc i) = Total-pure true tt
  service_ready-Total sp zero =
      Total-option sp.spec.service_template _ _ (λ _. Total-pure true tt)
        (λ t e. create_service-Total env sp (rw e tt))

  claim_status-SameStatus :
      (sp : StatefulPod) (i : ℕ)
      → IsWellFormed sp
      → Total (λ r. SameStatus sp r.1) (StatefulPod.claim_status env sp i)
  unfolding StatefulPod.claim_status
  claim_status-SameStatus sp i wf =
      Total-option sp.spec.pvc_template _ _ (λ _. Total-pure _ (SameStatus-refl wf))
        (λ t e. expansion_pvc-SameStatus quiet.nodes sp i wf (rw e tt))

  pub save-Resized :
      (P : ℕ → Type 0) (sp : StatefulPod)
      → IsWellFormed sp
      → P (pods_of sp)
      → Total (λ r. Resized P sp r.1) (StatefulPod.save env sp)
  save-Resized P sp wf p =
      Total-weaken (save-Total sp) (λ r same. SameButVersion-Resized P wf p same)

  -- `expansion` of a well-formed object at an index up to its length.
  pub expansion-Total :
      (sp : StatefulPod) (i : ℕ)
      → IsWellFormed sp
      → i ≤ pods_of sp
      → Total (λ r. Resized (GrowsAt i (pods_of sp)) sp r.1) (StatefulPod.expansion env sp i)
  unfolding StatefulPod.expansion
  expansion-Total sp i wf h = Total-bind _ _ (service_ready-Total sp i) λ ready _.
      Total-bool ready _ _ (λ _. Total-pure _ (wf, refl, inl refl))
        (λ _. Total-bind _ _ (expansion_pod-SameStatus env sp i wf) λ q same1.
          Total-reply q.0 _ _
            (λ p _.
              Total-bind _ _ (claim_status-SameStatus q.1 i (SameStatus-IsWellFormed wf same1))
                λ q' same2.
                  let same = SameStatus-trans same1 same2 in
                  Total-reply q'.0 _ _ (λ v _. recorded q'.1 p v same)
                    (λ _ _. Total-pure _ (unchanged q'.1 same)))
            (λ _ _. Total-pure _ (unchanged q.1 same1)))
    where
      unchanged : (sp' : StatefulPod) → SameStatus sp sp' → Resized (GrowsAt i (pods_of sp)) sp sp'
      unchanged sp' same = (
        SameStatus-IsWellFormed wf same,
        same.size,
        inl (ap (λ s. length s.pod_status_mes) same.status),
      )

      recorded :
          (sp' : StatefulPod) (p : PodStatus) (v : PvcStatus)
          → SameStatus sp sp'
          → Total
              (λ r. Resized (GrowsAt i (pods_of sp)) sp r.1)
              (or_panic {W = W} (StatefulPod.record_status sp' i p v) >>= StatefulPod.save env)
      recorded sp' p v same =
          let len : pods_of sp' ≡ pods_of sp = ap (λ s. length s.pod_status_mes) same.status in
          let grows = GrowsAt i (pods_of sp) in
          let (sp3, e, r3) =
            record_status-GrowsAt sp' i p v (SameStatus-IsWellFormed wf same) (rw len h) in
          Total-bind _ _
            (Total-or_panic {P = Resized grows sp} _ sp3 e
              (r3.0, r3.1 ∙ same.size, rw (← len) r3.2))
            λ s r.
              Total-weaken (save-Resized grows s r.0 r.2)
                (λ q g. Resized-trans grows sp s q.1 r.1 g)

  claim_shrunk-SameStatus :
      (sp : StatefulPod) (i : ℤ)
      → IsWellFormed sp
      → Total (λ r. SameStatus sp r.1) (StatefulPod.claim_shrunk env sp i)
  unfolding StatefulPod.claim_shrunk
  claim_shrunk-SameStatus sp i wf =
      Total-option sp.spec.pvc_template _ _ (λ _. Total-pure _ (SameStatus-refl wf))
        (λ t e. shrink_pvc-SameStatus env sp i wf (rw e tt))

  -- `shrink` of a well-formed object at a positive index up to its length.
  pub shrink-Total :
      (sp : StatefulPod) (k : ℕ)
      → IsWellFormed sp
      → k < pods_of sp
      → Total
          (λ r. Resized (ShrinksAt (suc k) (pods_of sp)) sp r.1)
          (StatefulPod.shrink env sp (suc k))
  unfolding StatefulPod.shrink
  shrink-Total sp k wf h = Total-bind _ _ (shrink_pod-Total env sp _) λ gone _.
      Total-bool gone _ _ (λ _. Total-pure _ (wf, refl, inl refl))
        (λ _.
          Total-bind _ _ (claim_shrunk-SameStatus sp _ wf) λ q same.
            Total-bool q.0 _ _ (λ _. Total-pure _ (unchanged q.1 same)) (λ _. cut q.1 same))
    where
      shrinks : ℕ → Type 0
      shrinks = ShrinksAt (suc k) (pods_of sp)

      unchanged : (sp' : StatefulPod) → SameStatus sp sp' → Resized shrinks sp sp'
      unchanged sp' same = (
        SameStatus-IsWellFormed wf same,
        same.size,
        inl (ap (λ s. length s.pod_status_mes) same.status),
      )

      cut :
          (sp' : StatefulPod)
          → SameStatus sp sp'
          → Total
              (λ r. Resized shrinks sp r.1)
              (or_panic {W = W} (cut_status sp' (sub_ℕ (suc k) 1)) >>= StatefulPod.save env)
      cut sp' same =
          let len : pods_of sp' ≡ pods_of sp = ap (λ s. length s.pod_status_mes) same.status in
          let (sp3, e, r3) =
            cut_status-Resized sp' k (SameStatus-IsWellFormed wf same) (rw len (omega arith)) in
          Total-bind _ _
            (Total-or_panic {P = Resized shrinks sp} _ sp3 e
              (r3.0, r3.1 ∙ same.size, inr (ap suc r3.2)))
            λ s r.
              Total-weaken (save-Resized shrinks s r.0 r.2)
                (λ q g. Resized-trans shrinks sp s q.1 r.1 g)
