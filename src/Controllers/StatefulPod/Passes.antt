-- ===== src/Controllers/StatefulPod/Passes.antt =====
-- The passes over the children of a `StatefulPod` return from every world.
use iapetos.Prelude.{
  ℕ, suc, ◌+◌, ◌≤◌, ◌<◌, String, ◌≡◌, refl, sym, ◌∙◌, inl, inr, List, [], ◌∷◌, Option, none, some,
  arith, not, ◌&&◌, Option-cases,
}
use iapetos.Prelude.Int.{ℤ, pos, negsuc}
use iapetos.Prelude.Slices.{length, length-modify}
use iapetos.Effect.Total.{
  Total, Total-bind, Total-pure, Total-option, Total-bool, Total-or_panic, Total-weaken, Anything,
}
use iapetos.Api.{StatefulPod, PodStatus, PodPhase, PvcStatus, Svc, is_deleting, is_running}
use iapetos.Client.{Env}
use iapetos.Controllers.Pod
use iapetos.Controllers.Pvc
use iapetos.Controllers.Service
use iapetos.Controllers.Sweep.Absence.{sweep-Total}
use iapetos.Controllers.Status.{with_pods, with_pvcs, modify_at, set_pod_phase}
use iapetos.Controllers.StatefulPod.WellFormed.{IsSome, IsWellFormed, SameLength}
use iapetos.Services.Answers.{pod_exists-Total, service_exists-Total, service_create-Total}
use iapetos.Services.Service as ServiceService

-- An index, if there is one, lies from `i` on below `n`.
abbrev pub InRange : ℕ → ℕ → Option ℕ → Type 0
InRange i n none = Unit
InRange i n (some j) = (i ≤ j) × (j < n)

InRange-suc : (i n : ℕ) (o : Option ℕ) → InRange (suc i) (suc i + n) o → InRange i (i + suc n) o
InRange-suc i n none h = tt
InRange-suc i n (some j) h = (omega arith, omega arith)

InRange-zero : (n : ℕ) (o : Option ℕ) → InRange 0 (0 + n) o → InRange 0 n o
InRange-zero n none h = tt
InRange-zero n (some j) h = (h.0, omega arith)

service_template-IsSome :
    (sp : StatefulPod)
    → IsSome sp.spec.service_template
    → (svc : Svc) × (ServiceService.create_template sp ≡ some svc)
unfolding ServiceService.create_template
service_template-IsSome sp has = elim (Option-cases sp.spec.service_template) [
  | inl e ↦ absurd (rw e at has)
  | inr (spec, e) ↦ (ServiceService.service_for sp spec, ground (arith, e))
]

-- Writing one entry keeps the object well-formed.
pub with_pods-SameLength :
    (sp : StatefulPod) (i : ℤ) (f : PodStatus → PodStatus)
    → IsWellFormed sp
    → SameLength sp (with_pods sp (modify_at i f sp.status.pod_status_mes))
with_pods-SameLength sp (pos i) f wf =
    let e = length-modify i f sp.status.pod_status_mes in
    (record { aligned = e ∙ wf.aligned; sized = wf.sized; mountable = wf.mountable }, refl, e)
with_pods-SameLength sp (negsuc i) f wf = (wf, refl, refl)

pub with_pvcs-SameLength :
    (sp : StatefulPod) (i : ℤ) (f : PvcStatus → PvcStatus)
    → IsWellFormed sp
    → SameLength sp (with_pvcs sp (modify_at i f sp.status.pvc_status_mes))
with_pvcs-SameLength sp (pos i) f wf =
    let e = length-modify i f sp.status.pvc_status_mes in
    (
      record { aligned = wf.aligned ∙ sym e; sized = wf.sized; mountable = wf.mountable },
      refl,
      refl,
    )
with_pvcs-SameLength sp (negsuc i) f wf = (wf, refl, refl)

corrected-SameLength :
    (sp : StatefulPod) (stop : Option (ℕ × PodPhase))
    → IsWellFormed sp
    → SameLength sp (Pod.corrected sp stop).1
corrected-SameLength sp none wf = (wf, refl, refl)
corrected-SameLength sp (some (i, phase)) wf =
    with_pods-SameLength sp (pos i) (set_pod_phase phase) wf

module _ {W : Type 0} (env : Env W) where
  pub delete_pod_all-Total : (sp : StatefulPod) → Total Anything (Pod.delete_pod_all env sp)
  unfolding Pod.delete_pod_all
  delete_pod_all-Total sp = Total-bind _ _ (sweep-Total _ _ _ 0) (λ _ _. Total-pure _ tt)

  pub delete_pvc_all-Total : (sp : StatefulPod) → Total Anything (Pvc.delete_pvc_all env sp)
  unfolding Pvc.delete_pvc_all
  delete_pvc_all-Total sp = Total-bind _ _ (sweep-Total _ _ _ 0) (λ _ _. Total-pure _ tt)

  -- The first entry from index `i` on that is "Deleting" and whose pod is gone is an entry.
  maintain_loop-InRange :
      (l : List PodStatus) (ns : String) (i : ℕ)
      → Total (InRange i (i + length l)) (Pod.maintain_loop env l ns i)
  unfolding Pod.maintain_loop
  maintain_loop-InRange [] ns i = Total-pure _ tt
  maintain_loop-InRange (s ∷ rest) ns i =
      let later =
        Total-weaken (maintain_loop-InRange rest ns (suc i)) (InRange-suc i (length rest)) in
      Total-bool (is_deleting s.status) _ _ (λ _. later)
        (λ _.
          Total-bind _ _ (pod_exists-Total env _) λ there _.
            Total-option there _ _ (λ _. Total-pure (some i) (omega arith)) (λ _ _. later))

  pub maintain_pod-InRange :
      (sp : StatefulPod)
      → Total (InRange 0 (length sp.status.pod_status_mes)) (Pod.maintain_pod env sp)
  unfolding Pod.maintain_pod
  maintain_pod-InRange sp =
      Total-weaken (maintain_loop-InRange sp.status.pod_status_mes sp.meta.namespace 0)
        (InRange-zero (length sp.status.pod_status_mes))

  ok_loop-Total :
      (l : List PodStatus) (ns : String) (i : ℕ) → Total Anything (Pod.ok_loop env l ns i)
  unfolding Pod.ok_loop
  ok_loop-Total [] ns i = Total-pure _ tt
  ok_loop-Total (s ∷ rest) ns i = Total-bind _ _ (pod_exists-Total env _) λ there _.
      Total-option there _ _ (λ _. Total-pure _ tt)
        (λ pod _.
          Total-bool (is_running pod.phase && not (is_running s.status)) _ _
            (λ _. ok_loop-Total rest ns (suc i)) (λ _. Total-pure _ tt))

  -- `PodIsOk` corrects at most entries; none comes or goes.
  pub pod_is_ok-SameLength :
      (sp : StatefulPod) → IsWellFormed sp → Total (λ r. SameLength sp r.1) (Pod.pod_is_ok env sp)
  unfolding Pod.pod_is_ok
  pod_is_ok-SameLength sp wf =
      Total-bind _ _ (ok_loop-Total _ _ 0)
        (λ stop _. Total-pure _ (corrected-SameLength sp stop wf))

  -- `CreateService` returns on an object with a service template.
  pub create_service-Total :
      (sp : StatefulPod)
      → IsSome sp.spec.service_template
      → Total Anything (Service.create_service env sp)
  unfolding Service.create_service
  create_service-Total sp has =
      let (svc, e) = service_template-IsSome sp has in
      Total-bind _ _ (service_exists-Total env _) λ there _.
        Total-option there _ _
          (λ _.
            Total-bind _ _ (Total-or_panic {P = Anything} _ svc e tt)
              λ svc' _. Total-bind _ _ (service_create-Total env svc') (λ _ _. Total-pure _ tt))
          (λ _ _. Total-pure _ tt)
