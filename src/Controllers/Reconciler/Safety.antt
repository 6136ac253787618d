-- ===== src/Controllers/Reconciler/Safety.antt =====
-- `Reconcile` of controllers/statefulpod_controller.go as a whole.
use iapetos.Prelude.{ℕ, ◌≡◌, refl, ◌⊎◌, inl, inr, Bool, true, false, Option, none, some, arith}
use iapetos.Prelude.Int.{ℤ, pos, negsuc}
use iapetos.Effect.{done, M, pure, ◌>>=◌}
use iapetos.Effect.Total.{
  Total, Total-bind, Total-pure, Total-option, Returns, Returns-done, Returns-bind_at, returns,
  Anything,
}
use iapetos.Api.{NamespacedName, Pod, Pvc, StatefulPod}
use iapetos.Client.{ApiError, Reply, ok, err, Store, Env}
use iapetos.Client.Laws.{ReadsOnly}
use iapetos.Controllers.Reconciler.{Fetched, get_type, dispatch, reconcile}
use iapetos.Controllers.Pod.Monitor.{monitor_pod_status}
use iapetos.Controllers.Pvc as PvcController
use iapetos.Controllers.StatefulPod
use iapetos.Controllers.Reports
use iapetos.Controllers.Reports.{parent_key, child_index}
use iapetos.Controllers.StatefulPod.Core.{core_ctrl-Total}
use iapetos.Controllers.StatefulPod.PodMonitoring.{TakesDeletes, monitor_pod_status-Kept}
use iapetos.Controllers.StatefulPod.Monitoring.{monitor_pvc_status-Kept}
use iapetos.Controllers.StatefulPod.Resizing.{Quiet}
use iapetos.Controllers.StatefulPod.WellFormed.{IsSized, IsWellFormed}
use iapetos.Services.Objects
use iapetos.Services.Objects.{found}
use iapetos.Services.StatefulPod as StatefulPodService
use iapetos.Services.StatefulPod.Settling.{update_settles}

-- Every object that the store has in the world `w` has a property.
abbrev Serves : {W A : Type 0} → (A → Type 0) → Store W A → W → Type 0
Serves {A = A} P store w = (n : NamespacedName) (a : A) → (store.get n w).0 ≡ ok a → P a

-- An index that is not negative.
abbrev pub IsIndex : ℤ → Type 0
IsIndex z = (i : ℕ) × (z ≡ pos i)

-- What is stored in the world `w`: each `StatefulPod` is well-formed, and each child names an index.
pub record Validated {W : Type 0} (env : Env W) (w : W) : Type 0 where
  pub objects : Serves IsWellFormed env.stateful_pods w
  pub pods : Serves (λ p. IsIndex (child_index env p.meta)) env.pods w
  pub claims : Serves (λ p. IsIndex (child_index env p.meta)) env.pvcs w

-- Reading an object, a pod or a claim changes nothing.
pub record ReadsAll {W : Type 0} (env : Env W) : Type 0 where
  pub objects : ReadsOnly env.stateful_pods
  pub pods : ReadsOnly env.pods
  pub claims : ReadsOnly env.pvcs

abbrev ForSome : {A : Type 0} → (A → Type 0) → Option A → Type 0
ForSome P none = Unit
ForSome P (some a) = P a

reply_or_error :
    {A : Type 0} (r : Reply A) → ((a : A) × (r ≡ ok a)) ⊎ ((e : ApiError) × (r ≡ err e))
reply_or_error (ok a) = inl (a, refl)
reply_or_error (err e) = inr (e, refl)

found_some :
    {A : Type 0} {P : A → Type 0} (r : Reply A) → ((a : A) → r ≡ ok a → P a) → ForSome P (found r)
found_some (ok a) p = p a refl
found_some (err _) p = tt

size_of : (o : Option ℤ) → IsSized o → (n : ℕ) × (o ≡ some (pos n))
size_of none s = absurd s
size_of (some (pos n)) s = (n, refl)
size_of (some (negsuc n)) s = absurd s

module _ {W : Type 0} {env : Env W} (quiet : Quiet env) where
  save-Total : (sp : StatefulPod) → Total Anything (StatefulPod.save env sp)
  unfolding StatefulPod.save
  save-Total sp =
      Total-bind _ _ (update_settles quiet.echo quiet.current sp quiet.rounds)
        λ _ _. Total-pure _ tt

  save_if-Total : (r : Bool × StatefulPod) → Total Anything (Reports.save_if env r)
  save_if-Total (false, sp) = Total-pure _ tt
  save_if-Total (true, sp) = Total-bind _ _ (save-Total sp) λ _ _. Total-pure _ tt

  module _ (takes : TakesDeletes env.pvcs) (reads : ReadsAll env) (w : W)
      (valid : Validated env w) where
    -- The kind that `getType` finds, with what is known of such an object.
    abbrev IsValid : Fetched → Type 0
    IsValid (Fetched.stateful_pod sp) = IsWellFormed sp
    IsValid (Fetched.pod p) = IsIndex (child_index env p.meta)
    IsValid (Fetched.pvc p) = IsIndex (child_index env p.meta)
    IsValid Fetched.unknown = Unit

    get_type-IsValid :
        (req : NamespacedName) → (f : Fetched) × (get_type env req w ≡ done (f, w)) × IsValid f
    unfolding get_type
    get_type-IsValid req =
        let k1 = reads.objects.get_keeps req w in
        let k2 = reads.pods.get_keeps req w in
        let k3 = reads.claims.get_keeps req w in
        elim (reply_or_error (env.stateful_pods.get req w).0) [
          | inl (sp, e) ↦ (Fetched.stateful_pod sp, ground (arith, e, k1), valid.objects req sp e)
          | inr (_, no_object) ↦ elim (reply_or_error (env.pods.get req w).0) [
            | inl (p, e) ↦ (Fetched.pod p, ground (arith, no_object, e, k1, k2), valid.pods req p e)
            | inr (_, no_pod) ↦ elim (reply_or_error (env.pvcs.get req w).0) [
              | inl (p, e) ↦ (
                Fetched.pvc p,
                ground (arith, no_object, no_pod, e, k1, k2, k3),
                valid.claims req p e,
              )
              | inr (_, no_claim) ↦
                  (Fetched.unknown, ground (arith, no_object, no_pod, no_claim, k1, k2, k3), tt)
            ]
          ]
        ]

    parent_at :
        (n : NamespacedName)
        → (o : Option StatefulPod) × (StatefulPodService.is_exists env n w ≡ done (o, w))
          × ForSome IsWellFormed o
    unfolding StatefulPodService.is_exists Objects.is_exists
    parent_at n =
        let r = (env.stateful_pods.get n w).0 in
        let k = reads.objects.get_keeps n w in
        (found r, ground (arith, k), found_some r (valid.objects n))

    -- What is done with the parent of a child, if it is there.
    parent-Returns :
        (n : NamespacedName) (f : StatefulPod → M W StatefulPod.Result)
        → ((sp : StatefulPod) → IsWellFormed sp → Total Anything (f sp))
        → Returns Anything (
            (StatefulPodService.is_exists env n >>= λ parent. elim parent [
              | none ↦ pure StatefulPod.finished
              | some sp ↦ f sp
            ])
              w)
    parent-Returns n f k =
        let (o, e, p) = parent_at n in
        let after : Total {A = StatefulPod.Result} Anything
            (elim o [ none ↦ pure StatefulPod.finished | some sp ↦ f sp ]) =
          Total-option o _ _ (λ _. Total-pure _ tt) (λ sp there. k sp (rw there at p)) in
        Returns-bind_at (StatefulPodService.is_exists env n) _ o w w e (after.at w)

    pod_reported-Total :
        (pod : Pod)
        → IsIndex (child_index env pod.meta)
        → (sp : StatefulPod) → IsWellFormed sp
        → Total Anything
            (monitor_pod_status env sp pod (child_index env pod.meta) >>= Reports.save_if env)
    pod_reported-Total pod (i, ei) sp wf = rw ei (
        Total-bind _ _
          (monitor_pod_status-Kept env i takes (omega (arith, quiet.rounds)) quiet.nodes sp pod wf)
          λ r _. save_if-Total r)

    claim_reported-Total :
        (pvc : Pvc)
        → IsIndex (child_index env pvc.meta)
        → (sp : StatefulPod) → IsWellFormed sp
        → Total Anything (
            PvcController.monitor_pvc_status env sp pvc (child_index env pvc.meta)
            >>= Reports.save_if env)
    claim_reported-Total pvc (i, ei) sp wf =
        rw ei (Total-bind _ _ (monitor_pvc_status-Kept env i sp pvc wf) λ r _. save_if-Total r)

    monitor_pod-Returns :
        (pod : Pod)
        → IsIndex (child_index env pod.meta)
        → Returns Anything (Reports.monitor_pod env pod w)
    unfolding Reports.monitor_pod
    monitor_pod-Returns pod index =
        parent-Returns (parent_key env pod.meta)
          (λ sp. monitor_pod_status env sp pod (child_index env pod.meta) >>= Reports.save_if env)
          (pod_reported-Total pod index)

    monitor_pvc-Returns :
        (pvc : Pvc)
        → IsIndex (child_index env pvc.meta)
        → Returns Anything (Reports.monitor_pvc env pvc w)
    unfolding Reports.monitor_pvc
    monitor_pvc-Returns pvc index =
        parent-Returns (parent_key env pvc.meta)
          (λ sp.
            PvcController.monitor_pvc_status env sp pvc (child_index env pvc.meta)
            >>= Reports.save_if env)
          (claim_reported-Total pvc index)

    dispatch-Returns : (f : Fetched) → IsValid f → Returns Anything (dispatch env f w)
    unfolding dispatch
    dispatch-Returns (Fetched.stateful_pod sp) wf =
        let (n, e) = size_of sp.spec.size wf.sized in
        let (i, _, total) = core_ctrl-Total quiet sp n wf e in
        (Total-bind _ _ total λ _ _. Total-pure _ tt).at w
    dispatch-Returns (Fetched.pod p) index = monitor_pod-Returns p index
    dispatch-Returns (Fetched.pvc p) index = monitor_pvc-Returns p index
    dispatch-Returns Fetched.unknown _ = returns _ w tt

    -- On a quiet server that takes the deletions of claims, and for which reading changes nothing,
    -- `Reconcile` of any request returns from each world in which every stored `StatefulPod` is
    -- well-formed and every stored pod and claim names an index that is not negative: it neither
    -- panics nor runs out of rounds.
    pub reconcile-Total :
        (req : NamespacedName)
        → (r : StatefulPod.Result) × (w' : W) × (reconcile env req w ≡ done (r, w'))
    unfolding reconcile
    reconcile-Total req =
        let (f, e, v) = get_type-IsValid req in
        let (r, w', run, _) =
          Returns-done
            (Returns-bind_at (get_type env req) (dispatch env) f w w e (dispatch-Returns f v)) in
        (r, w', run)
