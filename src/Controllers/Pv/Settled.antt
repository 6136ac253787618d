-- ===== src/Controllers/Pv/Settled.antt =====
-- What `SetPVRetain` and `SetPVAvailable` of controllers/statefulpod/child_resource_controller/
-- pv_controller/pv.go have found when they say true.
use iapetos.Prelude.{
  ℕ, suc, ◌≡◌, ◌⊎◌, inl, inr, true, false, some, List, [], ◌∷◌, arith, Bool-cases, Option-cases,
  ◌==◌,
}
use iapetos.Prelude.Slices.{All}
use iapetos.Effect.{done}
use iapetos.Effect.Total.{Returns-done}
use iapetos.Api.{PvcStatus, Pv, StatefulPod}
use iapetos.Client.{not_found, failure, Reply, ok, err, Env}
use iapetos.Client.Laws.{ReadsOnly, Reply-cases}
use iapetos.Controllers.Pv.{
  pv_key, is_redis_slave, retained, available, retain_loop, available_loop, set_pv_retain,
  set_pv_available,
}
use iapetos.Controllers.Sweep.Absence.{Counted, Counted-nil, Counted-settled, Counted-short}
use iapetos.Services.Answers.{pv_update-Total}
use iapetos.Controllers.Pv.Passes.{retain_loop-Total, available_loop-Total}
use iapetos.Services.Pv as PvService

-- Nothing is left to do for the retention of a volume.
abbrev pub IsRetained : Reply Pv → Type 0
IsRetained (ok pv) = (is_redis_slave pv ≡ true) ⊎ ((pv.reclaim_policy == "Retain") ≡ true)
IsRetained (err not_found) = Unit
IsRetained (err failure) = ⊥

-- The volume was looked up and is available; one of a redis slave is waited for.
abbrev pub IsAvailable : Reply Pv → Type 0
IsAvailable (ok pv) = (is_redis_slave pv ≡ false) × ((pv.phase == "Available") ≡ true)
IsAvailable (err not_found) = Unit
IsAvailable (err failure) = ⊥

module _ {W : Type 0} (env : Env W) (reads : ReadsOnly env.pvs) where
  retain_counts :
      (l : List PvcStatus) (sum t : ℕ) (w w' : W)
      → retain_loop env l sum w ≡ done (some t, w')
      → Counted (λ s. IsRetained (env.pvs.get (pv_key s) w).0) l w w' sum t
  unfolding retain_loop PvService.get
  retain_counts [] sum t w w' h = Counted-nil h
  retain_counts (s ∷ rest) sum t w w' h =
      let w1 = (env.pvs.get (pv_key s) w).1 in
      let k = reads.get_keeps (pv_key s) w in
      elim (Reply-cases (env.pvs.get (pv_key s) w).0) [
        | inr (inl e) ↦
            Counted-settled (rw e tt)
              (retain_counts rest (suc sum) t w w' (ground (arith, h, e, k)))
        | inr (inr e) ↦
            Counted-short _ (retain_counts rest sum t w1 w' (ground (arith, h, e))).bound
        | inl (pv, e) ↦ elim (Bool-cases (is_redis_slave pv)) [
          | inl slave ↦
              Counted-settled (rw e (inl slave))
                (retain_counts rest (suc sum) t w w' (ground (arith, h, e, k, slave)))
          | inr master ↦ elim (Bool-cases (pv.reclaim_policy == "Retain")) [
            | inl kept ↦
                Counted-settled (rw e (inr kept))
                  (retain_counts rest (suc sum) t w w' (ground (arith, h, e, k, master, kept)))
            | inr dropped ↦
                let (u, w2, eu, _) = Returns-done ((pv_update-Total env (retained pv)).at w1) in
                elim (Reply-cases u) [
                  | inl (x, ex) ↦
                      Counted-short _
                        (retain_counts rest sum t w2 w'
                          (ground (arith, h, e, master, dropped, eu, ex))).bound
                  | inr (inl ex) ↦ absurd (ground (arith, h, e, master, dropped, eu, ex))
                  | inr (inr ex) ↦ absurd (ground (arith, h, e, master, dropped, eu, ex))
                ]
          ]
        ]
      ]

  available_counts :
      (l : List PvcStatus) (sum t : ℕ) (w w' : W)
      → available_loop env l sum w ≡ done (some t, w')
      → Counted (λ s. IsAvailable (env.pvs.get (pv_key s) w).0) l w w' sum t
  unfolding available_loop PvService.get
  available_counts [] sum t w w' h = Counted-nil h
  available_counts (s ∷ rest) sum t w w' h =
      let w1 = (env.pvs.get (pv_key s) w).1 in
      let k = reads.get_keeps (pv_key s) w in
      elim (Reply-cases (env.pvs.get (pv_key s) w).0) [
        | inr (inl e) ↦
            Counted-settled (rw e tt)
              (available_counts rest (suc sum) t w w' (ground (arith, h, e, k)))
        | inr (inr e) ↦
            Counted-short _ (available_counts rest sum t w1 w' (ground (arith, h, e))).bound
        | inl (pv, e) ↦ elim (Bool-cases (is_redis_slave pv)) [
          | inl slave ↦ Counted-short _ (ground (arith, h, e, slave))
          | inr master ↦ elim (Bool-cases (pv.phase == "Available")) [
            | inl free ↦
                Counted-settled (rw e (master, free))
                  (available_counts rest (suc sum) t w w' (ground (arith, h, e, k, master, free)))
            | inr taken ↦
                let (u, w2, eu, _) = Returns-done ((pv_update-Total env (available pv)).at w1) in
                elim (Reply-cases u) [
                  | inl (x, ex) ↦
                      Counted-short _
                        (available_counts rest sum t w2 w'
                          (ground (arith, h, e, master, taken, eu, ex))).bound
                  | inr (inl ex) ↦ absurd (ground (arith, h, e, master, taken, eu, ex))
                  | inr (inr ex) ↦ absurd (ground (arith, h, e, master, taken, eu, ex))
                ]
          ]
        ]
      ]

  -- `SetPVRetain` says true only if the policy is not "Retain" or every volume of the status is gone,
  -- of a redis slave, or retained already; and then it has changed nothing. Reading volumes is assumed
  -- to change nothing.
  pub set_pv_retain-IsRetained :
      (sp : StatefulPod) (w w' : W)
      → set_pv_retain env sp w ≡ done (true, w')
      → (((sp.spec.pv_recycle_policy == "Retain") ≡ false)
          ⊎ All (λ s. IsRetained (env.pvs.get (pv_key s) w).0) sp.status.pvc_status_mes)
        × (w' ≡ w)
  unfolding set_pv_retain
  set_pv_retain-IsRetained sp w w' h = elim (Bool-cases (sp.spec.pv_recycle_policy == "Retain")) [
    | inr no_policy ↦ (inl no_policy, ground (arith, h, no_policy))
    | inl policy ↦
        let l = sp.status.pvc_status_mes in
        let (o, w1, eo, _) = Returns-done ((retain_loop-Total env l 0).at w) in
        elim (Option-cases o) [
          | inl e ↦ absurd (ground (arith, h, policy, eo, e))
          | inr (t, e) ↦
              let c = retain_counts l 0 t w w1 (ground (arith, eo, e)) in
              let (all, same) = c.full (ground (arith, h, policy, eo, e)) in
              (inr all, ground (arith, h, policy, eo, e, same))
        ]
  ]

  -- `SetPVAvailable` says true only if the policy is not "Retain" or every volume of the status is gone,
  -- or available and not of a redis slave; and then it has changed nothing. Reading volumes is assumed
  -- to change nothing.
  pub set_pv_available-IsAvailable :
      (sp : StatefulPod) (w w' : W)
      → set_pv_available env sp w ≡ done (true, w')
      → (((sp.spec.pv_recycle_policy == "Retain") ≡ false)
          ⊎ All (λ s. IsAvailable (env.pvs.get (pv_key s) w).0) sp.status.pvc_status_mes)
        × (w' ≡ w)
  unfolding set_pv_available
  set_pv_available-IsAvailable sp w w' h =
      elim (Bool-cases (sp.spec.pv_recycle_policy == "Retain")) [
        | inr no_policy ↦ (inl no_policy, ground (arith, h, no_policy))
        | inl policy ↦
            let l = sp.status.pvc_status_mes in
            let (o, w1, eo, _) = Returns-done ((available_loop-Total env l 0).at w) in
            elim (Option-cases o) [
              | inl e ↦ absurd (ground (arith, h, policy, eo, e))
              | inr (t, e) ↦
                  let c = available_counts l 0 t w w1 (ground (arith, eo, e)) in
                  let (all, same) = c.full (ground (arith, h, policy, eo, e)) in
                  (inr all, ground (arith, h, policy, eo, e, same))
            ]
      ]
