-- ===== src/Controllers/StatefulPod/Monitoring.antt =====
-- `MonitorPVCStatus` of controllers/statefulpod/child_resource_controller/pvc_controller/pvc.go, on an
-- entry that is there, and what both monitors keep.
use iapetos.Prelude.{ℕ, suc, ◌≡◌, refl, ◌⊎◌, inl, Bool, true, false, arith, if◌then◌else◌}
use iapetos.Prelude.Int.{pos, ltb_ℤ}
use iapetos.Prelude.Slices.{length, get_elem?-lt}
use iapetos.Effect.{pure}
use iapetos.Effect.Total.{
  Total, Total-bind, Total-pure, Total-if, Total-bool, Total-or_panic, Anything,
}
use iapetos.Api.{
  Pvc, StatefulPod, is_being_deleted, is_claim_bound, is_claim_deleting, is_create_time_out,
}
use iapetos.Client.{Env}
use iapetos.Controllers.Pvc
use iapetos.Controllers.StatefulPod.Passes.{with_pvcs-SameLength}
use iapetos.Controllers.StatefulPod.Resizing.{pods_of}
use iapetos.Controllers.StatefulPod.WellFormed.{IsWellFormed, Resized, SameLength}

-- The same number of entries, or one less.
abbrev pub AtMostOneLess : ℕ → ℕ → Type 0
AtMostOneLess len n = (n ≡ len) ⊎ (suc n ≡ len)

-- Well-formed, and the size as before; at most the last entry has gone.
abbrev pub Kept : StatefulPod → Bool × StatefulPod → Type 0
Kept sp r = Resized (AtMostOneLess (pods_of sp)) sp r.1

pub same-Kept :
    (sp : StatefulPod) (b : Bool) (sp' : StatefulPod) → SameLength sp sp' → Kept sp (b, sp')
same-Kept sp b sp' (wf, size, n) = (wf, size, inl n)

pub pure_if-Kept :
    {W : Type 0} (sp : StatefulPod) (b : Bool) (x y : Bool × StatefulPod)
    → Kept sp x
    → Kept sp y
    → Total {W = W} (Kept sp) (pure (if b then x else y))
pure_if-Kept sp true x y p q = Total-pure x p
pure_if-Kept sp false x y p q = Total-pure y q

module _ {W : Type 0} (env : Env W) (i : ℕ) where
  -- `MonitorPVCStatus` of a well-formed object for a claim of an index that is not negative returns
  -- from every world; the object is well-formed afterwards, its size is the same, and at most one
  -- entry has gone.
  pub monitor_pvc_status-Kept :
      (sp : StatefulPod) (pvc : Pvc)
      → IsWellFormed sp
      → Total (Kept sp) (Pvc.monitor_pvc_status env sp pvc (pos i))
  unfolding Pvc.monitor_pvc_status
  monitor_pvc_status-Kept sp pvc wf =
      Total-if (ltb_ℤ (pos i) (pos (length sp.status.pvc_status_mes))) _ _
        (λ low.
          let (s, e) = get_elem?-lt sp.status.pvc_status_mes i (ground (arith, low)) in
          let (p, ep) = get_elem?-lt sp.status.pod_status_mes i (ground (arith, low, wf.aligned)) in
          Total-if (is_being_deleted pvc.meta) _ _
            (λ _. Total-bind {P = Anything} _ _ (Total-or_panic _ s e tt) λ s' _.
              Total-bool (is_claim_deleting s'.status) _ _
                (λ _. Total-bind {P = Anything} _ _ (Total-or_panic _ p ep tt) λ p' _.
                  pure_if-Kept sp (is_create_time_out p'.status) _ _ same
                    (same-Kept sp true _ (with_pvcs-SameLength sp (pos i) _ wf)))
                (λ _. Total-pure _ same))
            (λ _.
              Total-if (is_claim_bound pvc.phase) _ _
                (λ _. Total-bind {P = Anything} _ _ (Total-or_panic _ s e tt) λ s' _.
                  pure_if-Kept sp (is_claim_bound s'.status) _ _ same
                    (same-Kept sp true _ (with_pvcs-SameLength sp (pos i) _ wf)))
                (λ _. Total-pure _ same)))
        (λ _. Total-pure _ same)
    where
      same : Kept sp (false, sp)
      same = (wf, refl, inl refl)
