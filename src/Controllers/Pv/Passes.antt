-- ===== src/Controllers/Pv/Passes.antt =====
-- The two passes over the volumes return from every world.
use iapetos.Prelude.{ℕ, suc, List, [], ◌∷◌, ◌==◌}
use iapetos.Effect.Total.{Total, Total-bind, Total-pure, Total-if, Total-bool, Anything}
use iapetos.Api.{StatefulPod, PvcStatus}
use iapetos.Client.{Env}
use iapetos.Client.Laws.{Total-reply, Total-error}
use iapetos.Controllers.Pv
use iapetos.Services.Answers.{pv_get-Total, pv_update-Total}

module _ {W : Type 0} (env : Env W) where
  pub retain_loop-Total : (l : List PvcStatus) (sum : ℕ) → Total Anything (Pv.retain_loop env l sum)
  unfolding Pv.retain_loop
  retain_loop-Total [] sum = Total-pure _ tt
  retain_loop-Total (s ∷ rest) sum =
      let counted = retain_loop-Total rest (suc sum) in
      let skipped = retain_loop-Total rest sum in
      Total-bind _ _ (pv_get-Total env _) λ r _.
        Total-reply r _ _
          (λ pv _.
            Total-bool (Pv.is_redis_slave pv) _ _
              (λ _.
                Total-bool (pv.reclaim_policy == "Retain") _ _
                  (λ _.
                    Total-bind _ _ (pv_update-Total env _)
                      λ u _. Total-reply u _ _ (λ _ _. skipped) (λ _ _. Total-pure _ tt))
                  (λ _. counted))
              (λ _. counted))
          (λ e _. Total-error e _ _ counted skipped)

  pub set_pv_retain-Total : (sp : StatefulPod) → Total Anything (Pv.set_pv_retain env sp)
  unfolding Pv.set_pv_retain
  set_pv_retain-Total sp =
      Total-if (sp.spec.pv_recycle_policy == "Retain") _ _
        (λ _. Total-bind _ _ (retain_loop-Total _ 0) (λ _ _. Total-pure _ tt))
        (λ _. Total-pure _ tt)

  pub available_loop-Total :
      (l : List PvcStatus) (sum : ℕ) → Total Anything (Pv.available_loop env l sum)
  unfolding Pv.available_loop
  available_loop-Total [] sum = Total-pure _ tt
  available_loop-Total (s ∷ rest) sum =
      let counted = available_loop-Total rest (suc sum) in
      let skipped = available_loop-Total rest sum in
      Total-bind _ _ (pv_get-Total env _) λ r _.
        Total-reply r _ _
          (λ pv _.
            Total-bool (Pv.is_redis_slave pv) _ _
              (λ _.
                Total-bool (pv.phase == "Available") _ _
                  (λ _.
                    Total-bind _ _ (pv_update-Total env _)
                      λ u _. Total-reply u _ _ (λ _ _. skipped) (λ _ _. Total-pure _ tt))
                  (λ _. counted))
              (λ _. Total-pure _ tt))
          (λ e _. Total-error e _ _ counted skipped)

  pub set_pv_available-Total : (sp : StatefulPod) → Total Anything (Pv.set_pv_available env sp)
  unfolding Pv.set_pv_available
  set_pv_available-Total sp =
      Total-if (sp.spec.pv_recycle_policy == "Retain") _ _
        (λ _. Total-bind _ _ (available_loop-Total _ 0) (λ _ _. Total-pure _ tt))
        (λ _. Total-pure _ tt)
