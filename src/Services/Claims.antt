-- ===== src/Services/Claims.antt =====
-- The claims of services/pvc/pvc.go: which pod mounts one, and how the choice of a volume outlives it.
use iapetos.Prelude.{
  ℕ, String, ◌≡◌, refl, inl, inr, none, some, List, [], ◌∷◌, arith, ◌==◌, Option-cases, Bool-cases,
}
use iapetos.Prelude.Int.{ℤ}
use iapetos.Prelude.Slices.{get_elem?}
use iapetos.Effect.{done}
use iapetos.Api.{Pod, Pvc, PvcSpec, Volume, StatefulPod}
use iapetos.Client.{Env}
use iapetos.Services.Pod as PodService
use iapetos.Services.Pvc as PvcService
use iapetos.Services.Resource.{default_volume, default_claim, set_pvc_name, is_pv_can_use}

-- The default claim name, once written, stays.
default_volume_again :
    (v v' : Volume) (claim : String)
    → default_volume v ≡ some (claim, v')
    → default_volume v' ≡ some (claim, v')
unfolding default_volume
default_volume_again v v' claim h = elim (Option-cases v.claim_name) [
  | inl e ↦ absurd (ground (arith, h, e))
  | inr (c, e) ↦ elim (Bool-cases (c == "")) [
    | inl empty ↦ ground (arith, h, e, empty)
    | inr named ↦ ground (arith, h, e, named)
  ]
]

default_claim_again :
    (vs vs' : List Volume) (claim : String)
    → default_claim vs ≡ some (claim, vs')
    → default_claim vs' ≡ some (claim, vs')
unfolding default_claim
default_claim_again [] vs' claim h = absurd (ground (arith, h))
default_claim_again (v ∷ vs) vs' claim h = elim (Option-cases (default_volume v)) [
  | inl e ↦ absurd (ground (arith, h, e))
  | inr ((c, v'), e) ↦ ground (arith, h, e, default_volume_again v v' c e)
]

-- A claim name is written into the first volume, and only there.
claim_volumes-cons :
    (vs vs' : List Volume) (c name : String)
    → default_claim vs ≡ some (c, vs')
    → (v : Volume) × (rest : List Volume) × (PodService.claim_volumes name vs
        ≡ record v { claim_name = some name } ∷ rest)
unfolding default_claim
claim_volumes-cons [] vs' c name h = absurd (ground (arith, h))
claim_volumes-cons (v ∷ vs) vs' c name h = (v, vs, refl)

-- The first volume of a pod that `CreateTemplate` makes for an index is the claim whose name
-- `GetName` of the claims gives for that index afterwards, if there is a claim template.
pub create_template_mounts :
    (sp sp1 sp2 : StatefulPod) (spec : PvcSpec) (pod : Pod) (name claim : String) (index : ℤ)
    → sp.spec.pvc_template ≡ some spec
    → PodService.create_template sp name index ≡ some (pod, sp1)
    → PvcService.get_name sp1 index ≡ some (claim, sp2)
    → (v : Volume) × (rest : List Volume) × (pod.spec.volumes
        ≡ record v { claim_name = some claim } ∷ rest)
unfolding PodService.create_template PodService.add_annotations PodService.set_pvc
    PodService.set_labels PvcService.get_name set_pvc_name
create_template_mounts sp sp1 sp2 spec pod name claim index has made named =
    elim (Option-cases (default_claim sp.spec.pod_template.volumes)) [
      | inl e ↦ absurd (ground (arith, has, made, e))
      | inr ((c, vs), e) ↦
          let again = default_claim_again sp.spec.pod_template.volumes vs c e in
          let (v, rest, shape) = claim_volumes-cons sp.spec.pod_template.volumes vs c claim e in
          (v, rest, ground (arith, has, made, named, e, again, shape))
    ]

module _ {W : Type 0} (env : Env W) where
  -- Once a listed volume could be used for a claim, the volume and the empty class stand in the
  -- template of the `StatefulPod`: the claim of any later index without a listed volume, made from
  -- that specification, names the same volume.
  pub create_template_keeps_volume :
      (sp : StatefulPod) (template : PvcSpec) (volume node name name' : String) (i j : ℕ)
      (w w1 w2 : W)
      → sp.spec.pvc_template ≡ some template
      → get_elem? sp.spec.pv_names i ≡ some volume
      → get_elem? sp.spec.pv_names j ≡ none
      → is_pv_can_use env (record { namespace = ""; name = volume }) w ≡ done (some node, w1)
      → (claim : Pvc) × (sp1 : StatefulPod) × (PvcService.create_template env sp name i w
          ≡ done ((claim, sp1), w1))
        × (claim.spec.volume_name ≡ volume)
        × ((claim' : Pvc) × (PvcService.create_template env sp1 name' j w2
              ≡ done ((claim', sp1), w2))
            × (claim'.spec.volume_name ≡ volume)
            × (claim'.spec.storage_class_name ≡ some ""))
  unfolding PvcService.create_template PvcService.choose_volume
  create_template_keeps_volume sp template volume node name name' i j w w1 w2 has listed past
        usable =
      let spec = PvcService.use_volume volume template in
      let sp' = PvcService.with_template sp spec in
      (
        PvcService.claim_of sp' name i spec,
        sp',
        ground (arith, has, listed, usable),
        refl,
        (PvcService.claim_of sp' name' j spec, ground (arith, past), refl, refl),
      )
