-- ===== src/Controllers/Pod/Creation.antt =====
-- `ExpansionPod` of controllers/statefulpod/child_resource_controller/pod_controller/pod.go: which pod
-- it makes, and when.
use iapetos.Prelude.{ℕ, ◌≤◌, ◌≡◌, refl, ◌⊎◌, inl, inr, some, arith}
use iapetos.Prelude.Int.{pos}
use iapetos.Prelude.Slices.{get_elem?}
use iapetos.Effect.{done}
use iapetos.Api.{NamespacedName, Pod, PodStatus, StatefulPod}
use iapetos.Client.{ApiError, Reply, ok, err, Env}
use iapetos.Client.Laws.{ReadsOnly}
use iapetos.Controllers.Pod
use iapetos.Controllers.Pod.{kept_status, preparing_status}
use iapetos.Controllers.Routing.{LeadsTo, create_template-LeadsTo}
use iapetos.Controllers.StatefulPod.Templates.{create_template-SameStatus}
use iapetos.Controllers.StatefulPod.WellFormed.{IsWellFormed}
use iapetos.Services.Objects
use iapetos.Services.Pod as PodService
use iapetos.Text.{max_int}

-- The entry of a pod whose creation had this reply.
abbrev pub entered : ℕ → Reply Pod → Reply PodStatus
entered i (ok obj) = ok (preparing_status i obj.meta.name)
entered i (err e) = err e

abbrev pub child_key : StatefulPod → ℕ → NamespacedName
child_key sp i = record { namespace = sp.meta.namespace; name = PodService.get_name sp (pos i) }

answer : {A : Type 0} (r : Reply A) → ((a : A) × (r ≡ ok a)) ⊎ ((e : ApiError) × (r ≡ err e))
answer (ok a) = inl (a, refl)
answer (err e) = inr (e, refl)

module _ {W : Type 0} (env : Env W) (reads : ReadsOnly env.pods) where
  -- `ExpansionPod` of a well-formed object for an index that fits an `int`, where reading pods changes
  -- nothing. If the look-up gives a pod of the child's name, it changes neither the object nor the
  -- world, and gives the entry that is there. If the look-up fails, it calls `Create` once, and the
  -- world is as that call leaves it; the pod that is sent has the child's name, is marked for the event
  -- handler, and leads back to the object and the index; and what it gives is an entry "Preparing" of
  -- the index under the name that the server replies with, or the error of the reply.
  pub expansion_pod-creates :
      (sp : StatefulPod) (i : ℕ) (w : W)
      → IsWellFormed sp
      → i ≤ max_int
      → ((p : Pod) × ((env.pods.get (child_key sp i) w).0 ≡ ok p)
          × (Pod.expansion_pod env sp i w
              ≡ done ((kept_status (get_elem? sp.status.pod_status_mes i), sp), w)))
        ⊎ ((e : ApiError) × ((env.pods.get (child_key sp i) w).0 ≡ err e)
            × (pod : Pod) × (sp' : StatefulPod) × (Pod.expansion_pod env sp i w
                ≡ done ((entered i (env.pods.create pod w).0, sp'), (env.pods.create pod w).1))
            × (pod.meta.name ≡ PodService.get_name sp (pos i))
            × LeadsTo pod.meta sp i)
  unfolding Pod.expansion_pod PodService.is_exists Objects.is_exists PodService.create
  expansion_pod-creates sp i w wf fits =
      let key = child_key sp i in
      let k = reads.get_keeps key w in
      elim (answer (env.pods.get key w).0) [
        | inl (p, there) ↦ inl (p, there, ground (arith, there, k))
        | inr (e, gone) ↦
            let (pod, sp', made, _) = create_template-SameStatus sp key.name (pos i) wf in
            let (named, leads) = create_template-LeadsTo sp sp' key.name i pod fits made in
            inr (e, gone, pod, sp', created pod sp' made gone k, named, leads)
      ]
    where
      created :
          (pod : Pod) (sp' : StatefulPod) {e : ApiError}
          → PodService.create_template sp (PodService.get_name sp (pos i)) (pos i) ≡ some (pod, sp')
          → (env.pods.get (child_key sp i) w).0 ≡ err e
          → (env.pods.get (child_key sp i) w).1 ≡ w
          → Pod.expansion_pod env sp i w
            ≡ done ((entered i (env.pods.create pod w).0, sp'), (env.pods.create pod w).1)
      created pod sp' made gone k = elim (answer (env.pods.create pod w).0) [
        | inl (o, e) ↦ ground (arith, made, gone, k, e)
        | inr (x, e) ↦ ground (arith, made, gone, k, e)
      ]
