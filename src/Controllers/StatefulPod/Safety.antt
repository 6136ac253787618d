-- ===== src/Controllers/StatefulPod/Safety.antt =====
-- `setFinalizer` with `maintain`, and `deleteStatefulPod`, of controllers/statefulpod/stateful_pod.go
-- return.
use iapetos.Prelude.{ℕ, ◌≡◌, refl, ◌∙◌, some, arith, [], ◌∷◌, ◌++◌, ◌||◌}
use iapetos.Effect.Total.{
  Total, Total-bind, Total-pure, Total-if, Total-option, Total-bool, Total-weaken,
}
use iapetos.Api.{StatefulPod, is_being_deleted, group_version}
use iapetos.Client.{Env}
use iapetos.Controllers.StatefulPod
use iapetos.Controllers.Pv.Passes.{set_pv_retain-Total, set_pv_available-Total}
use iapetos.Controllers.StatefulPod.Passes.{
  InRange, delete_pod_all-Total, delete_pvc_all-Total, maintain_pod-InRange, pod_is_ok-SameLength,
}
use iapetos.Controllers.StatefulPod.WellFormed.{IsWellFormed, SameLength}
use iapetos.Services.StatefulPod.Settling.{SameButVersion}
use iapetos.Tools.{match_string_from_array}
use iapetos.Controllers.StatefulPod.Resizing.{Quiet, pods_of, SameButVersion-Resized, Resized-trans}
use iapetos.Controllers.StatefulPod.Growth.{update-SameButVersion, save-Resized, expansion-Total}

module _ {W : Type 0} {env : Env W} (quiet : Quiet env) where
  -- `restore` works on an entry that is there, so their number stays.
  restore-Total :
      (sp : StatefulPod)
      → IsWellFormed sp
      → Total (λ r. SameLength sp r.1) (StatefulPod.restore env sp)
  unfolding StatefulPod.restore
  restore-Total sp wf =
      Total-bind _ _ (maintain_pod-InRange env sp) λ o h.
        Total-option o _ _ (λ _. Total-pure _ (wf, refl, refl)) (λ i e. at_index i (rw e at h))
    where
      at_index :
          (i : ℕ)
          → InRange 0 (pods_of sp) (some i)
          → Total (λ r. SameLength sp r.1) (StatefulPod.expansion env sp i)
      at_index i h =
          Total-weaken (expansion-Total quiet sp i wf (omega arith))
            (λ r g. (g.0, g.1, omega (arith, g.2)))

  maintain-Total :
      (sp : StatefulPod)
      → IsWellFormed sp
      → Total (λ r. SameLength sp r.1) (StatefulPod.maintain env sp)
  unfolding StatefulPod.maintain
  maintain-Total sp wf = Total-bind _ _ (pod_is_ok-SameLength env sp wf) λ q g.
      Total-option q.0 _ _ (λ _. restored q.1 g)
        (λ _ _. Total-bind _ _ (update-SameButVersion quiet q.1) λ u same.
          let g' = SameButVersion-Resized (λ n. n ≡ pods_of sp) g.0 g.2 same.1 in
          let g'' = Resized-trans (λ n. n ≡ pods_of sp) sp q.1 u.1 g.1 g' in
          Total-option u.0 _ _ (λ _. restored u.1 g'') (λ _ _. Total-pure _ g''))
    where
      restored :
          (sp' : StatefulPod)
          → SameLength sp sp'
          → Total (λ r. SameLength sp r.1) (StatefulPod.restore env sp')
      restored sp' g = Total-weaken (restore-Total sp' g.0) (λ r g'. (g'.0, g'.1 ∙ g.1, g'.2 ∙ g.2))

  set_finalizer-Total :
      (sp : StatefulPod)
      → IsWellFormed sp
      → Total (λ r. SameLength sp r.1) (StatefulPod.set_finalizer env sp)
  unfolding StatefulPod.set_finalizer
  set_finalizer-Total sp wf =
      Total-if
        (is_being_deleted sp.meta || match_string_from_array sp.meta.finalizers group_version) _ _
        (λ _. Total-pure _ (wf, refl, refl))
        (λ _. Total-weaken (update-SameButVersion quiet _) (λ r h. marked r.1 h.1))
    where
      marked :
          (sp' : StatefulPod)
          → SameButVersion
              (record sp {
                meta = record sp.meta { finalizers = sp.meta.finalizers ++ group_version ∷ [] };
              })
              sp'
          → SameLength sp sp'
      marked sp' same =
          SameButVersion-Resized (λ n. n ≡ pods_of sp)
            {sp = record sp {
              meta = record sp.meta { finalizers = sp.meta.finalizers ++ group_version ∷ [] };
            }}
            (record { aligned = wf.aligned; sized = wf.sized; mountable = wf.mountable }) refl same

  pub settle-Total :
      (sp : StatefulPod)
      → IsWellFormed sp
      → Total (λ r. SameLength sp r.1) (StatefulPod.settle env sp)
  unfolding StatefulPod.settle
  settle-Total sp wf = Total-bind _ _ (set_finalizer-Total sp wf) λ q g.
      Total-option q.0 _ _
        (λ _. Total-weaken (maintain-Total q.1 g.0) (λ r g'. (g'.0, g'.1 ∙ g.1, g'.2 ∙ g.2)))
        (λ _ _. Total-pure _ g)

  pub delete-Total :
      (sp : StatefulPod)
      → IsWellFormed sp
      → Total (λ r. SameLength sp r.1) (StatefulPod.delete_stateful_pod env sp)
  unfolding StatefulPod.delete_stateful_pod
  delete-Total sp wf =
      Total-bool (match_string_from_array sp.meta.finalizers group_version) _ _
        (λ _. Total-pure _ same)
        (λ _. Total-bind _ _ (set_pv_retain-Total env sp) λ a _.
          Total-bool a _ _ (λ _. Total-pure _ same)
            (λ _. Total-bind _ _ (delete_pod_all-Total env sp) λ b _.
              Total-bool b _ _ (λ _. Total-pure _ same)
                (λ _. Total-bind _ _ (delete_pvc_all-Total env sp) λ c _.
                  Total-bool c _ _ (λ _. Total-pure _ same)
                    (λ _. Total-bind _ _ (set_pv_available-Total env sp) λ d _.
                      Total-bool d _ _ (λ _. Total-pure _ same)
                        (λ _.
                          save-Resized quiet (λ n. n ≡ pods_of sp) _
                            (record {
                              aligned = wf.aligned;
                              sized = wf.sized;
                              mountable = wf.mountable;
                            })
                            refl)))))
    where
      same : SameLength sp sp
      same = (wf, refl, refl)
