-- ===== src/Controllers/StatefulPod/Children.antt =====
-- The parts of `expansion` and `shrink` that look up, create and delete children return from every
-- world, on a well-formed object.
use iapetos.Prelude.{ℕ, String, ◌≡◌, refl, inl, inr, Option, none, some, List, arith, Option-cases}
use iapetos.Prelude.Int.{ℤ, pos}
use iapetos.Prelude.Slices.{get_elem?}
use iapetos.Effect.Total.{Total, Total-bind, Total-pure, Total-or_panic, Total-option, Anything}
use iapetos.Api.{StatefulPod, PvcSpec, PvcStatus, Volume}
use iapetos.Client.{Env}
use iapetos.Client.Laws.{Total-reply, NodesReport}
use iapetos.Controllers.Pod
use iapetos.Controllers.Pvc
use iapetos.Controllers.StatefulPod.Templates.{create_template-SameStatus}
use iapetos.Controllers.StatefulPod.WellFormed.{
  IsSome, HasClaim, IsMountable, IsWellFormed, SameStatus, SameStatus-refl, SameStatus-trans,
  SameStatus-IsWellFormed, get_name-SameStatus,
}
use iapetos.Services.Answers.{
  pod_exists-Total, pod_create-Total, pod_delete-Total, pvc_exists-Total, pvc_create-Total,
  pvc_delete-Total, is_pv_can_use-Total,
}
use iapetos.Services.Pvc as PvcService

module _ {W : Type 0} (env : Env W) where
  pub expansion_pod-SameStatus :
      (sp : StatefulPod) (index : ℕ)
      → IsWellFormed sp
      → Total (λ r. SameStatus sp r.1) (Pod.expansion_pod env sp index)
  unfolding Pod.expansion_pod
  expansion_pod-SameStatus sp index wf =
      let (pod, sp', e, same) = create_template-SameStatus sp _ (pos index) wf in
      Total-bind _ _ (pod_exists-Total env _) λ there _.
        Total-option there _ _
          (λ _. Total-bind _ _ (Total-or_panic _ (pod, sp') e same) λ p same'.
            Total-bind _ _ (pod_create-Total env p.0) λ created _.
              Total-reply created _ _ (λ _ _. Total-pure _ same') (λ _ _. Total-pure _ same'))
          (λ _ _. Total-pure _ (SameStatus-refl wf))

  pub shrink_pod-Total :
      (sp : StatefulPod) (index : ℤ) → Total Anything (Pod.shrink_pod env sp index)
  unfolding Pod.shrink_pod
  shrink_pod-Total sp index = Total-bind _ _ (pod_exists-Total env _) λ there _.
      Total-option there _ _ (λ _. Total-pure _ tt)
        (λ pod _. Total-bind _ _ (pod_delete-Total env pod) (λ _ _. Total-pure _ tt))

  pub shrink_pvc-SameStatus :
      (sp : StatefulPod) (index : ℤ)
      → IsWellFormed sp
      → IsSome sp.spec.pvc_template
      → Total (λ r. SameStatus sp r.1) (Pvc.shrink_pvc env sp index)
  unfolding Pvc.shrink_pvc
  shrink_pvc-SameStatus sp index wf has =
      let (name, sp', e, same) = get_name-SameStatus sp index wf has in
      Total-bind _ _ (Total-or_panic _ (name, sp') e same) λ p same'.
        Total-bind _ _ (pvc_exists-Total env _) λ there _.
          Total-option there _ _ (λ _. Total-pure _ same')
            (λ pvc _. Total-bind _ _ (pvc_delete-Total env pvc) (λ _ _. Total-pure _ same'))

chosen_spec-IsSome :
    (volume : String) (spec : PvcSpec) (node : Option String)
    → IsSome spec.storage_class_name
    → IsSome (PvcService.chosen_spec volume spec node).storage_class_name
chosen_spec-IsSome volume spec none class = class
chosen_spec-IsSome volume spec (some _) class = tt

pub pending_status-IsSome :
    (index : ℕ) (name : String) (spec : PvcSpec)
    → IsSome spec.storage_class_name
    → (s : PvcStatus) × (Pvc.pending_status index name spec ≡ some s)
pending_status-IsSome index name spec class = elim (Option-cases spec.storage_class_name) [
  | inl e ↦ absurd (rw e at class)
  | inr (c, e) ↦ (Pvc.pending_with index name spec c, ground (arith, e))
]

-- The template of a mountable object, and its class.
pub template-class :
    (sp : StatefulPod) (t : Option PvcSpec) (vs : List Volume)
    → IsSome t
    → IsMountable t vs
    → (spec : PvcSpec) × (t ≡ some spec) × HasClaim vs × IsSome spec.storage_class_name
template-class sp none vs has m = absurd has
template-class sp (some spec) vs has m = (spec, refl, m.0, m.1)

module _ {W : Type 0} {env : Env W} (nodes : NodesReport env) where
  pub choose_volume-IsSome :
      (sp : StatefulPod) (index : ℕ) (spec : PvcSpec)
      → IsSome spec.storage_class_name
      → Total (λ s. IsSome s.storage_class_name) (PvcService.choose_volume env sp index spec)
  unfolding PvcService.choose_volume
  choose_volume-IsSome sp index spec class =
      Total-option (get_elem? sp.spec.pv_names index) _ _ (λ _. Total-pure spec class)
        (λ volume _.
          Total-bind _ _ (is_pv_can_use-Total nodes _)
            (λ node _. Total-pure _ (chosen_spec-IsSome volume spec node class)))

  claim_template-SameStatus :
      (sp : StatefulPod) (name : String) (index : ℕ)
      → IsWellFormed sp
      → IsSome sp.spec.pvc_template
      → Total (λ r. SameStatus sp r.1) (PvcService.create_template env sp name index)
  unfolding PvcService.create_template
  claim_template-SameStatus sp name index wf has =
      let (spec, e, claim, class) = template-class sp _ _ has wf.mountable in
      Total-bind _ _ (Total-or_panic {P = λ s. IsSome s.storage_class_name} _ spec e class) λ s c.
        Total-bind _ _ (choose_volume-IsSome sp index s c) λ s' c'.
          Total-pure _
            (record { status = refl; size = refl; mountable = (claim, c'); template = λ _. tt })

  created_claim-SameStatus :
      {sp : StatefulPod} (sp' : StatefulPod) (name : String) (index : ℕ)
      → IsSome sp.spec.pvc_template
      → SameStatus sp sp'
      → Total (λ r. SameStatus sp r.1) (Pvc.created_claim env index name sp')
  unfolding Pvc.created_claim
  created_claim-SameStatus sp' name index has same =
      let (spec, e, claim, class) = template-class sp' _ _ (same.template has) same.mountable in
      Total-bind _ _ (Total-or_panic {P = λ s. IsSome s.storage_class_name} _ spec e class)
        λ spec' class'.
          let (s, e') = pending_status-IsSome index name spec' class' in
          Total-bind _ _ (Total-or_panic {P = Anything} _ s e' tt) (λ _ _. Total-pure _ same)

  pub expansion_pvc-SameStatus :
      (sp : StatefulPod) (index : ℕ)
      → IsWellFormed sp
      → IsSome sp.spec.pvc_template
      → Total (λ r. SameStatus sp r.1) (Pvc.expansion_pvc env sp index)
  unfolding Pvc.expansion_pvc
  expansion_pvc-SameStatus sp index wf has =
      let (name, sp1, e, same1) = get_name-SameStatus sp (pos index) wf has in
      Total-bind _ _ (Total-or_panic _ (name, sp1) e same1) λ p same.
        Total-bind _ _ (pvc_exists-Total env _) λ there _.
          Total-option there _ _
            (λ _.
              Total-bind _ _
                (claim_template-SameStatus p.1 p.0 index (SameStatus-IsWellFormed wf same)
                  (same.template has))
                λ q same'. Total-bind _ _ (pvc_create-Total env q.0) λ created _.
                  Total-reply created _ _
                    (λ _ _.
                      created_claim-SameStatus q.1 p.0 index has (SameStatus-trans same same'))
                    (λ _ _. Total-pure _ (SameStatus-trans same same')))
            (λ _ _. Total-pure _ same)
