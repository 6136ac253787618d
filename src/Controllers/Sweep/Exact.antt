-- ===== src/Controllers/Sweep/Exact.antt =====
-- The passes over the children say true exactly if nothing is left to do.
use iapetos.Prelude.{
  ℕ, suc, ◌+◌, ◌≡◌, ◌↔◌, ◌⊎◌, inl, inr, true, false, some, Bool-cases, List, [], ◌∷◌, arith, ◌==◌,
}
use iapetos.Prelude.Slices.{length, All}
use iapetos.Effect.{done}
use iapetos.Api.{NamespacedName, Pv, PvcStatus, StatefulPod}
use iapetos.Client.{ok, Store, Env}
use iapetos.Client.Laws.{ReadsOnly, Reply-cases}
use iapetos.Controllers.Pod
use iapetos.Controllers.Pod.{pod_key}
use iapetos.Controllers.Pvc
use iapetos.Controllers.Pvc.{pvc_key}
use iapetos.Controllers.Pv
use iapetos.Controllers.Pv.{pv_key, is_redis_slave}
use iapetos.Controllers.Pv.Settled.{IsRetained, IsAvailable, set_pv_available-IsAvailable}
use iapetos.Controllers.Sweep.{sweep}
use iapetos.Controllers.Sweep.Absence.{IsAbsent, IsMissing, Answers, all-IsMissing, all-IsAbsent}
use iapetos.Controllers.StatefulPod.Deletion.{delete_pod_all-IsAbsent, delete_pvc_all-IsAbsent}
use iapetos.Services.Objects
use iapetos.Services.Pv as PvService

module _ {W A S : Type 0} (store : Store W A) (key : S → NamespacedName)
    (reads : ReadsOnly store) where
  -- Where nothing is there, every entry is counted.
  sweep_all :
      (l : List S) (sum : ℕ) (w : W)
      → All (λ s. IsAbsent store w (key s)) l
      → sweep store key l sum w ≡ done (some (sum + length l), w)
  unfolding sweep Objects.is_exists
  sweep_all [] sum w all = ground arith
  sweep_all (s ∷ rest) sum w all =
      let k = reads.get_keeps (key s) w in
      ground (arith, all.0, k, sweep_all rest (suc sum) w all.1)

module _ {W : Type 0} (env : Env W) where
  -- Where there is no pod any more, `DeletePodAll` says so.
  pub delete_pod_all-true :
      ReadsOnly env.pods
      → (sp : StatefulPod) (w : W)
      → length sp.status.pod_status_mes ≡ length sp.status.pvc_status_mes
      → All (λ s. IsMissing env.pods w (pod_key sp s)) sp.status.pod_status_mes
      → Pod.delete_pod_all env sp w ≡ done (true, w)
  unfolding Pod.delete_pod_all
  delete_pod_all-true reads sp w aligned all =
      let gone = all-IsAbsent env.pods w (pod_key sp) sp.status.pod_status_mes all in
      ground
        (arith, aligned, sweep_all env.pods (pod_key sp) reads sp.status.pod_status_mes 0 w gone)

  -- With as many pod entries as claim entries, and where every look-up of a pod is answered (with the
  -- pod or "not found", not with another error): `DeletePodAll` says true, in the world it began in,
  -- exactly if the server says of every entry that there is no such pod. Reading pods is assumed to
  -- change nothing.
  pub delete_pod_all_iff :
      ReadsOnly env.pods
      → (sp : StatefulPod) (w : W) → Answers env.pods w
      → length sp.status.pod_status_mes ≡ length sp.status.pvc_status_mes
      → (Pod.delete_pod_all env sp w ≡ done (true, w))
        ↔ All (λ s. IsMissing env.pods w (pod_key sp s)) sp.status.pod_status_mes
  unfolding Pod.delete_pod_all
  delete_pod_all_iff reads sp w answers aligned = (
    λ h.
        all-IsMissing env.pods w (pod_key sp) answers sp.status.pod_status_mes
          (delete_pod_all-IsAbsent env reads sp w w aligned h).0,
    λ all. delete_pod_all-true reads sp w aligned all,
  )

  -- Where there is no claim any more, `DeletePvcAll` says so.
  pub delete_pvc_all-true :
      ReadsOnly env.pvcs
      → (sp : StatefulPod) (w : W)
      → All (λ s. IsMissing env.pvcs w (pvc_key sp s)) sp.status.pvc_status_mes
      → Pvc.delete_pvc_all env sp w ≡ done (true, w)
  unfolding Pvc.delete_pvc_all
  delete_pvc_all-true reads sp w all =
      let gone = all-IsAbsent env.pvcs w (pvc_key sp) sp.status.pvc_status_mes all in
      ground (arith, sweep_all env.pvcs (pvc_key sp) reads sp.status.pvc_status_mes 0 w gone)

  -- Where every look-up of a claim is answered (with the claim or "not found", not with another
  -- error): `DeletePvcAll` says true, in the world it began in, exactly if the server says of every
  -- entry that there is no such claim. Reading claims is assumed to change nothing.
  pub delete_pvc_all_iff :
      ReadsOnly env.pvcs
      → (sp : StatefulPod) (w : W) → Answers env.pvcs w
      → (Pvc.delete_pvc_all env sp w ≡ done (true, w))
        ↔ All (λ s. IsMissing env.pvcs w (pvc_key sp s)) sp.status.pvc_status_mes
  unfolding Pvc.delete_pvc_all
  delete_pvc_all_iff reads sp w answers = (
    λ h.
        all-IsMissing env.pvcs w (pvc_key sp) answers sp.status.pvc_status_mes
          (delete_pvc_all-IsAbsent env reads sp w w h).0,
    λ all. delete_pvc_all-true reads sp w all,
  )

  module _ (reads : ReadsOnly env.pvs) where
    retain_all :
        (l : List PvcStatus) (sum : ℕ) (w : W)
        → All (λ s. IsRetained (env.pvs.get (pv_key s) w).0) l
        → Pv.retain_loop env l sum w ≡ done (some (sum + length l), w)
    unfolding Pv.retain_loop PvService.get
    retain_all [] sum w all = ground arith
    retain_all (s ∷ rest) sum w all =
        let k = reads.get_keeps (pv_key s) w in
        let ih = retain_all rest (suc sum) w all.1 in
        elim (Reply-cases (env.pvs.get (pv_key s) w).0) [
          | inl (pv, e) ↦
              let kept : IsRetained (ok pv) = rw e at (all.0) in retain_one pv e k ih kept
          | inr (inl e) ↦ ground (arith, e, k, ih)
          | inr (inr e) ↦ absurd (rw e at (all.0))
        ]
      where
        retain_one :
            (pv : Pv)
            → (env.pvs.get (pv_key s) w).0 ≡ ok pv
            → (env.pvs.get (pv_key s) w).1 ≡ w
            → Pv.retain_loop env rest (suc sum) w ≡ done (some (suc sum + length rest), w)
            → IsRetained (ok pv)
            → Pv.retain_loop env (s ∷ rest) sum w ≡ done (some (sum + suc (length rest)), w)
        retain_one pv e k ih (inl slave) = ground (arith, e, k, ih, slave)
        retain_one pv e k ih (inr kept) = elim (Bool-cases (is_redis_slave pv)) [
          | inl slave ↦ ground (arith, e, k, ih, slave)
          | inr master ↦ ground (arith, e, k, ih, kept, master)
        ]

    -- What `SetPVRetain` has nothing to do for.
    pub set_pv_retain-true :
        (sp : StatefulPod) (w : W)
        → ((sp.spec.pv_recycle_policy == "Retain") ≡ false)
          ⊎ All (λ s. IsRetained (env.pvs.get (pv_key s) w).0) sp.status.pvc_status_mes
        → Pv.set_pv_retain env sp w ≡ done (true, w)
    unfolding Pv.set_pv_retain
    set_pv_retain-true sp w (inl no_policy) = ground (arith, no_policy)
    set_pv_retain-true sp w (inr all) = elim (Bool-cases (sp.spec.pv_recycle_policy == "Retain")) [
      | inr no_policy ↦ ground (arith, no_policy)
      | inl policy ↦ ground (arith, policy, retain_all sp.status.pvc_status_mes 0 w all)
    ]

    available_all :
        (l : List PvcStatus) (sum : ℕ) (w : W)
        → All (λ s. IsAvailable (env.pvs.get (pv_key s) w).0) l
        → Pv.available_loop env l sum w ≡ done (some (sum + length l), w)
    unfolding Pv.available_loop PvService.get
    available_all [] sum w all = ground arith
    available_all (s ∷ rest) sum w all =
        let k = reads.get_keeps (pv_key s) w in
        let ih = available_all rest (suc sum) w all.1 in
        elim (Reply-cases (env.pvs.get (pv_key s) w).0) [
          | inl (pv, e) ↦
              let free : IsAvailable (ok pv) = rw e at (all.0) in
              ground (arith, e, k, ih, free.0, free.1)
          | inr (inl e) ↦ ground (arith, e, k, ih)
          | inr (inr e) ↦ absurd (rw e at (all.0))
        ]

    -- Where volumes are to be kept, `SetPVAvailable` says true, in the world it began in, exactly if
    -- every volume of the status is gone, or available and not of a redis slave. Reading volumes is
    -- assumed to change nothing.
    pub set_pv_available_iff :
        (sp : StatefulPod) (w : W)
        → (sp.spec.pv_recycle_policy == "Retain") ≡ true
        → (Pv.set_pv_available env sp w ≡ done (true, w))
          ↔ All (λ s. IsAvailable (env.pvs.get (pv_key s) w).0) sp.status.pvc_status_mes
    unfolding Pv.set_pv_available
    set_pv_available_iff sp w policy = (
      λ h. elim (set_pv_available-IsAvailable env reads sp w w h).0 [
        | inl no_policy ↦ absurd (ground (arith, policy, no_policy))
        | inr all ↦ all
      ],
      λ all. ground (arith, policy, available_all sp.status.pvc_status_mes 0 w all),
    )

    -- What `SetPVAvailable` has nothing to do for.
    pub set_pv_available-true :
        (sp : StatefulPod) (w : W)
        → ((sp.spec.pv_recycle_policy == "Retain") ≡ false)
          ⊎ All (λ s. IsAvailable (env.pvs.get (pv_key s) w).0) sp.status.pvc_status_mes
        → Pv.set_pv_available env sp w ≡ done (true, w)
    unfolding Pv.set_pv_available
    set_pv_available-true sp w (inl no_policy) = ground (arith, no_policy)
    set_pv_available-true sp w (inr all) =
        elim (Bool-cases (sp.spec.pv_recycle_policy == "Retain")) [
          | inr no_policy ↦ ground (arith, no_policy)
          | inl policy ↦ (set_pv_available_iff sp w policy).1 all
        ]
