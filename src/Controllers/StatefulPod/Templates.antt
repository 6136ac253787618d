-- ===== src/Controllers/StatefulPod/Templates.antt =====
-- On a well-formed object the parts of `expansion` and `shrink` that make and look up children return,
-- and write nothing but template defaults and annotations into the object.
use iapetos.Prelude.{String, ◌≡◌, refl, inl, inr, some, arith, Option-cases}
use iapetos.Prelude.Int.{ℤ}
use iapetos.Api.{Pod, StatefulPod}
use iapetos.Controllers.StatefulPod.WellFormed.{
  IsWellFormed, SameStatus, SameStatus-refl, SameStatus-trans, SameStatus-IsWellFormed,
  set_pvc_name-SameStatus,
}
use iapetos.Services.Pod

module _ (sp : StatefulPod) (wf : IsWellFormed sp) where
  add_annotations-SameStatus :
      (pod : Pod) (index : ℤ) → SameStatus sp (Pod.add_annotations sp pod index).1
  unfolding Pod.add_annotations
  add_annotations-SameStatus pod index = elim (Option-cases sp.meta.annotations) [
    | inl e ↦ simp e (SameStatus-refl wf)
    | inr (m, e) ↦
        simp e (record { status = refl; size = refl; mountable = wf.mountable; template = λ t. t })
  ]

  set_pvc-SameStatus :
      (pod : Pod) (index : ℤ)
      → (pod' : Pod) × (sp' : StatefulPod) × (Pod.set_pvc sp pod index ≡ some (pod', sp'))
        × SameStatus sp sp'
  unfolding Pod.set_pvc
  set_pvc-SameStatus pod index = elim (Option-cases sp.spec.pvc_template) [
    | inl e ↦ (pod, sp, ground (arith, e), SameStatus-refl wf)
    | inr (spec, e) ↦
        let (name, sp', e', same) = set_pvc_name-SameStatus sp index wf (rw e tt) in
        (
          record pod {
            spec = record pod.spec { volumes = Pod.claim_volumes name pod.spec.volumes };
          },
          sp',
          ground (arith, e, e'),
          same,
        )
  ]

-- `CreateTemplate` of a pod does not panic on a well-formed object.
pub create_template-SameStatus :
    (sp : StatefulPod) (name : String) (index : ℤ)
    → IsWellFormed sp
    → (pod : Pod) × (sp' : StatefulPod) × (Pod.create_template sp name index ≡ some (pod, sp'))
      × SameStatus sp sp'
unfolding Pod.create_template
create_template-SameStatus sp name index wf =
    let (pod, sp1) = Pod.add_annotations sp (Pod.bare_pod sp name) index in
    let same1 = add_annotations-SameStatus sp wf (Pod.bare_pod sp name) index in
    let (pod', sp2, e, same2) =
      set_pvc-SameStatus sp1 (SameStatus-IsWellFormed wf same1) pod index in
    (Pod.set_labels sp2 pod', sp2, rw (e, Pod.create_template), SameStatus-trans same1 same2)
