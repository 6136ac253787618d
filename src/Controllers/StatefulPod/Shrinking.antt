-- ===== src/Controllers/StatefulPod/Shrinking.antt =====
-- A pass of `CoreCtrl` of controllers/statefulpod/stateful_pod.go over a `StatefulPod` that is above its
-- size, once its last child is gone.
use iapetos.Prelude.{
  ℕ, suc, String, ◌≤◌, ◌≡◌, refl, ap, ◌∙◌, true, some, inl, inr, arith, Option-cases,
}
use iapetos.Prelude.Int.{pos}
use iapetos.Prelude.Slices.{length, take}
use iapetos.Effect.{done}
use iapetos.Api.{NamespacedName, StatefulPod}
use iapetos.Client.{Env}
use iapetos.Client.Laws.{name_of, EchoesUpdates, ReadsOnly}
use iapetos.Controllers.Pod
use iapetos.Controllers.Pod.Monitor.{cut_status}
use iapetos.Controllers.Pvc
use iapetos.Controllers.StatefulPod
use iapetos.Controllers.StatefulPod.Core.{get_index-bounds}
use iapetos.Controllers.StatefulPod.Resizing.{pods_of, sub_ℕ-one, slice_to-take}
use iapetos.Controllers.StatefulPod.WellFormed.{
  IsSome, IsWellFormed, SameStatus, SameStatus-refl, get_name-SameStatus,
}
use iapetos.Controllers.Sweep.Absence.{IsMissing}
use iapetos.Services.Objects
use iapetos.Services.Pod as PodService
use iapetos.Services.Pvc as PvcService
use iapetos.Services.Resource.{set_pvc_name, default_claim}
use iapetos.Services.StatefulPod.Overlapping.Bound.{Optimistic}
use iapetos.Services.StatefulPod.Overlapping.Storing.{update-stores}
use iapetos.Text.{itoa, dashed}

-- In the world `w` the server says that the child `i` of the object named `owner` has neither a pod nor a
-- claim, whatever the claims are called.
pub record IsVacant {W : Type 0} (env : Env W) (owner : NamespacedName) (i : ℕ) (w : W)
    : Type 0 where
  pub no_pod :
      IsMissing env.pods w
        (record { namespace = owner.namespace; name = dashed owner.name (itoa (pos i)) })
  pub no_claim :
      (prefix : String)
      → IsMissing env.pvcs w (record {
        namespace = owner.namespace;
        name = dashed prefix (dashed owner.name (itoa (pos i)));
      })

get_name-shape :
    (sp sp' : StatefulPod) (name : String) (i : ℕ)
    → PvcService.get_name sp (pos i) ≡ some (name, sp')
    → (prefix : String) × (name ≡ dashed prefix (dashed sp.meta.name (itoa (pos i))))
      × (name_of sp' ≡ name_of sp)
unfolding PvcService.get_name set_pvc_name
get_name-shape sp sp' name i h = elim (Option-cases (default_claim sp.spec.pod_template.volumes)) [
  | inl e ↦ absurd (ground (arith, h, e))
  | inr ((prefix, vs), e) ↦ (prefix, ground (arith, h, e), ground (arith, h, e))
]

-- The object with the first `k` entries.
abbrev cut : StatefulPod → ℕ → StatefulPod
cut sp k = record sp {
  status = record {
    pod_status_mes = take k sp.status.pod_status_mes;
    pvc_status_mes = take k sp.status.pvc_status_mes;
  };
}

cut_status-cut :
    (sp sp' : StatefulPod) (k : ℕ)
    → IsWellFormed sp
    → sp'.status ≡ sp.status
    → k ≤ pods_of sp
    → cut_status sp' (pos k) ≡ some (cut sp' k)
cut_status-cut sp sp' k wf same h =
    let pods = sp'.status.pod_status_mes in
    let pvcs = sp'.status.pvc_status_mes in
    let low : k ≤ length pods = rw same h in
    let aligned : length pods ≡ length pvcs = rw same wf.aligned in
    ground (arith, slice_to-take pods k low, slice_to-take pvcs k (omega (arith, aligned, low)))

module _ {W : Type 0} {env : Env W} (k : ℕ) (w : W) where
  shrink_pod-gone :
      (sp : StatefulPod)
      → ReadsOnly env.pods
      → IsVacant env (name_of sp) k w
      → Pod.shrink_pod env sp (pos k) w ≡ done (true, w)
  unfolding Pod.shrink_pod PodService.is_exists PodService.get_name Objects.is_exists
  shrink_pod-gone sp reads vacant =
      let key : NamespacedName = record {
        namespace = sp.meta.namespace;
        name = dashed sp.meta.name (itoa (pos k));
      } in
      ground (arith, vacant.no_pod, reads.get_keeps key w)

  shrink_pvc-gone :
      (sp : StatefulPod)
      → ReadsOnly env.pvcs
      → IsVacant env (name_of sp) k w
      → IsWellFormed sp
      → IsSome sp.spec.pvc_template
      → (sp' : StatefulPod) × (Pvc.shrink_pvc env sp (pos k) w ≡ done ((true, sp'), w))
        × SameStatus sp sp'
        × (name_of sp' ≡ name_of sp)
  unfolding Pvc.shrink_pvc PvcService.is_exists Objects.is_exists
  shrink_pvc-gone sp reads vacant wf has =
      let (name, sp', e, same) = get_name-SameStatus sp (pos k) wf has in
      let (prefix, shape, named) = get_name-shape sp sp' name k e in
      let space : sp'.meta.namespace ≡ sp.meta.namespace = ap (λ n. n.namespace) named in
      let key : NamespacedName = record { namespace = sp'.meta.namespace; name = name } in
      let gone : IsMissing env.pvcs w key = rw (shape, space) (vacant.no_claim prefix) in
      (sp', ground (arith, e, gone, reads.get_keeps key w), same, named)

  claim_shrunk-gone :
      (sp : StatefulPod)
      → ReadsOnly env.pvcs
      → IsVacant env (name_of sp) k w
      → IsWellFormed sp
      → (sp' : StatefulPod) × (StatefulPod.claim_shrunk env sp (pos k) w ≡ done ((true, sp'), w))
        × SameStatus sp sp'
        × (name_of sp' ≡ name_of sp)
  unfolding StatefulPod.claim_shrunk
  claim_shrunk-gone sp reads vacant wf = elim (Option-cases sp.spec.pvc_template) [
    | inl e ↦ (sp, ground (arith, e), SameStatus-refl wf, refl)
    | inr (t, e) ↦
        let (sp', run, same, named) = shrink_pvc-gone sp reads vacant wf (rw e tt) in
        (sp', ground (arith, e, run), same, named)
  ]

-- What the server stores is the object with the first `k` entries, of the size that it had.
pub record IsCutTo (sp : StatefulPod) (k : ℕ) (sp' : StatefulPod) : Type 0 where
  pub pods : sp'.status.pod_status_mes ≡ take k sp.status.pod_status_mes
  pub claims : sp'.status.pvc_status_mes ≡ take k sp.status.pvc_status_mes
  pub size : sp'.spec.size ≡ sp.spec.size

module _ {W : Type 0} {env : Env W} (echo : EchoesUpdates env) (two : 2 ≤ env.rounds)
    (reads_pods : ReadsOnly env.pods) (reads_pvcs : ReadsOnly env.pvcs) where
  shrink-stores :
      (k : ℕ) (sp current : StatefulPod) (w : W) (server : Optimistic env (name_of sp))
      → server.stored w ≡ some current
      → IsWellFormed sp
      → k ≤ pods_of sp
      → IsVacant env (name_of sp) k w
      → (sp' : StatefulPod) × (w' : W) × (StatefulPod.shrink env sp (suc k) w
          ≡ done ((StatefulPod.finished, sp'), w'))
        × (server.stored w' ≡ some sp')
        × IsCutTo sp k sp'
  unfolding StatefulPod.shrink StatefulPod.save
  shrink-stores k sp current w server there wf low vacant =
      let one = sub_ℕ-one k in
      let pod_gone = shrink_pod-gone k w sp reads_pods vacant in
      let (sp1, claim_gone, same, named) = claim_shrunk-gone k w sp reads_pvcs vacant wf in
      let cut_ok = cut_status-cut sp sp1 k wf same.status low in
      let (sp', w', saved, kept, now) =
        update-stores echo two server (cut sp1 k) current w named there in
      (
        sp',
        w',
        ground (arith, one, pod_gone, claim_gone, cut_ok, saved),
        now,
        record {
          pods =
              ap (λ o. o.status.pod_status_mes) kept
              ∙ ap (λ s. take k s.pod_status_mes) same.status;
          claims =
              ap (λ o. o.status.pvc_status_mes) kept
              ∙ ap (λ s. take k s.pvc_status_mes) same.status;
          size = ap (λ o. o.spec.size) kept ∙ same.size;
        },
      )

  -- Of a well-formed object of the size n that the server stores, k + 1 of whose children count, with k
  -- not below n: once the server says that the child k has neither a pod nor a claim, a pass of
  -- `CoreCtrl` returns and asks for no other one, and what the server stores then is the object with
  -- its first k entries of pods and of claims, of the same size. The server is under optimistic
  -- concurrency and echoes the updates that it takes, `Update` has two rounds or more, and reading
  -- pods and claims changes nothing.
  pub core_ctrl-cuts :
      (n k : ℕ) (sp current : StatefulPod) (w : W) (server : Optimistic env (name_of sp))
      → server.stored w ≡ some current
      → IsWellFormed sp
      → sp.spec.size ≡ some (pos n)
      → StatefulPod.get_index sp ≡ some (suc k)
      → n ≤ k
      → IsVacant env (name_of sp) k w
      → (sp' : StatefulPod) × (w' : W) × (StatefulPod.core_ctrl env sp w
          ≡ done ((StatefulPod.finished, sp'), w'))
        × (server.stored w' ≡ some sp')
        × IsCutTo sp k sp'
  unfolding StatefulPod.core_ctrl StatefulPod.core_branch
  core_ctrl-cuts n k sp current w server there wf size counts past vacant =
      let (i, ei, lower, _) = get_index-bounds sp n wf size in
      let same : i ≡ suc k = ground (arith, ei, counts) in
      let (sp', w', run, now, is_cut) =
        shrink-stores k sp current w server there wf (omega (arith, same, lower)) vacant in
      (sp', w', ground (arith, size, counts, past, run), now, is_cut)
