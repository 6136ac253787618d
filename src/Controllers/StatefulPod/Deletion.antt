-- ===== src/Controllers/StatefulPod/Deletion.antt =====
-- `deleteStatefulPod` of controllers/statefulpod/stateful_pod.go: what the passes over the children have
-- found when the finalizer goes.
use iapetos.Prelude.{◌≡◌, refl, ◌⊎◌, inl, inr, true, false, arith, Bool-cases, ◌==◌}
use iapetos.Prelude.Slices.{length, All}
use iapetos.Effect.{done}
use iapetos.Effect.Total.{Returns-done}
use iapetos.Api.{StatefulPod, group_version}
use iapetos.Client.{Env}
use iapetos.Client.Laws.{ReadsOnly}
use iapetos.Controllers.Pod
use iapetos.Controllers.Pod.{pod_key}
use iapetos.Controllers.Pv.{pv_key}
use iapetos.Controllers.Pv.Passes.{set_pv_retain-Total, set_pv_available-Total}
use iapetos.Controllers.Pv.Settled.{
  IsRetained, IsAvailable, set_pv_retain-IsRetained, set_pv_available-IsAvailable,
}
use iapetos.Controllers.Pvc
use iapetos.Controllers.Pvc.{pvc_key}
use iapetos.Controllers.StatefulPod
use iapetos.Controllers.StatefulPod.{Result, wait}
use iapetos.Controllers.StatefulPod.Passes.{delete_pod_all-Total, delete_pvc_all-Total}
use iapetos.Controllers.Sweep.Absence.{IsAbsent, IsMissing, Answers, all-IsMissing, sweep-IsAbsent}
use iapetos.Tools.{match_string_from_array, remove_string}

-- The object once its finalizer is taken off.
abbrev pub without_finalizer : StatefulPod → StatefulPod
without_finalizer sp = record sp {
  meta = record sp.meta { finalizers = remove_string sp.meta.finalizers group_version };
}

-- In the world `w` nothing of the object is left: the server says that there is no pod and no claim
-- of the status, and where the policy keeps volumes,
-- each is gone, or retained and free again.
pub record IsReleased {W : Type 0} (env : Env W) (sp : StatefulPod) (w : W) : Type 0 where
  pub pods : All (λ s. IsMissing env.pods w (pod_key sp s)) sp.status.pod_status_mes
  pub claims : All (λ s. IsMissing env.pvcs w (pvc_key sp s)) sp.status.pvc_status_mes
  pub retained :
      ((sp.spec.pv_recycle_policy == "Retain") ≡ false)
      ⊎ All (λ s. IsRetained (env.pvs.get (pv_key s) w).0) sp.status.pvc_status_mes
  pub available :
      ((sp.spec.pv_recycle_policy == "Retain") ≡ false)
      ⊎ All (λ s. IsAvailable (env.pvs.get (pv_key s) w).0) sp.status.pvc_status_mes

module _ {W : Type 0} (env : Env W) where
  -- With as many pod entries as claim entries, `DeletePodAll` says true only if the pod of no entry is
  -- there, and then it has changed nothing. Reading pods is assumed to change nothing.
  pub delete_pod_all-IsAbsent :
      ReadsOnly env.pods
      → (sp : StatefulPod) (w w' : W)
      → length sp.status.pod_status_mes ≡ length sp.status.pvc_status_mes
      → Pod.delete_pod_all env sp w ≡ done (true, w')
      → All (λ s. IsAbsent env.pods w (pod_key sp s)) sp.status.pod_status_mes × (w' ≡ w)
  unfolding Pod.delete_pod_all
  delete_pod_all-IsAbsent reads sp w w' aligned h =
      sweep-IsAbsent env.pods (pod_key sp) reads sp.status.pod_status_mes
        (length sp.status.pvc_status_mes) w w' aligned h

  -- `DeletePvcAll` says true only if the claim of no entry is there, and then has changed nothing.
  pub delete_pvc_all-IsAbsent :
      ReadsOnly env.pvcs
      → (sp : StatefulPod) (w w' : W) → Pvc.delete_pvc_all env sp w ≡ done (true, w')
      → All (λ s. IsAbsent env.pvcs w (pvc_key sp s)) sp.status.pvc_status_mes × (w' ≡ w)
  unfolding Pvc.delete_pvc_all
  delete_pvc_all-IsAbsent reads sp w w' h =
      sweep-IsAbsent env.pvcs (pvc_key sp) reads sp.status.pvc_status_mes
        (length sp.status.pvc_status_mes) w w' refl h

  -- Of an object that carries the finalizer, `deleteStatefulPod` either asks to wait and leaves the
  -- object as it is, or writes it without the finalizer from the world that it began in, where the
  -- server says that there is no pod and no claim of the status, and every volume that the policy
  -- keeps is gone, or retained and available. It assumes that reading pods, claims and volumes
  -- changes nothing, that every look-up of a pod or a claim in that world is answered (with the object
  -- or "not found", not with another error), and as many pod entries as claim entries.
  pub delete_stateful_pod-IsReleased :
      ReadsOnly env.pods
      → ReadsOnly env.pvcs
      → ReadsOnly env.pvs
      → (sp sp' : StatefulPod) (r : Result) (w w' : W) → Answers env.pods w
      → Answers env.pvcs w
      → length sp.status.pod_status_mes ≡ length sp.status.pvc_status_mes
      → match_string_from_array sp.meta.finalizers group_version ≡ true
      → StatefulPod.delete_stateful_pod env sp w ≡ done ((r, sp'), w')
      → ((r ≡ wait) × (sp' ≡ sp))
        ⊎ (IsReleased env sp w
            × (StatefulPod.save env (without_finalizer sp) w ≡ done ((r, sp'), w')))
  unfolding StatefulPod.delete_stateful_pod
  delete_stateful_pod-IsReleased reads_pods reads_pvcs reads_pvs sp sp' r w w' pods_answer
        pvcs_answer aligned marked h =
      let (b1, w1, e1, _) = Returns-done ((set_pv_retain-Total env sp).at w) in
      elim (Bool-cases b1) [
        | inr f1 ↦ inl (ground (arith, h, marked, e1, f1))
        | inl t1 ↦
            let (kept, s1) =
              set_pv_retain-IsRetained env reads_pvs sp w w1 (ground (arith, e1, t1)) in
            let (b2, w2, e2, _) = Returns-done ((delete_pod_all-Total env sp).at w) in
            elim (Bool-cases b2) [
              | inr f2 ↦ inl (ground (arith, h, marked, e1, t1, s1, e2, f2))
              | inl t2 ↦
                  let (no_pod, s2) =
                    delete_pod_all-IsAbsent reads_pods sp w w2 aligned (ground (arith, e2, t2)) in
                  let (b3, w3, e3, _) = Returns-done ((delete_pvc_all-Total env sp).at w) in
                  elim (Bool-cases b3) [
                    | inr f3 ↦ inl (ground (arith, h, marked, e1, t1, s1, e2, t2, s2, e3, f3))
                    | inl t3 ↦
                        let (no_claim, s3) =
                          delete_pvc_all-IsAbsent reads_pvcs sp w w3 (ground (arith, e3, t3)) in
                        let (b4, w4, e4, _) = Returns-done ((set_pv_available-Total env sp).at w) in
                        elim (Bool-cases b4) [
                          | inr f4 ↦ inl (
                              ground (arith, h, marked, e1, t1, s1, e2, t2, s2, e3, t3, s3, e4, f4))
                          | inl t4 ↦
                              let (free, s4) =
                                set_pv_available-IsAvailable env reads_pvs sp w w4
                                  (ground (arith, e4, t4)) in
                              inr (
                                record {
                                  pods =
                                      all-IsMissing env.pods w (pod_key sp) pods_answer
                                        sp.status.pod_status_mes no_pod;
                                  claims =
                                      all-IsMissing env.pvcs w (pvc_key sp) pvcs_answer
                                        sp.status.pvc_status_mes no_claim;
                                  retained = kept;
                                  available = free;
                                },
                                ground (
                                  arith, h, marked, e1, t1, s1, e2, t2, s2, e3, t3, s3, e4, t4, s4,
                                ),
                              )
                        ]
                  ]
            ]
      ]
