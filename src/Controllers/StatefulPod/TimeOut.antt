-- ===== src/Controllers/StatefulPod/TimeOut.antt =====
-- `MonitorPodStatus` of controllers/statefulpod/child_resource_controller/pod_controller/pod.go for a
-- pod whose creation has timed out.
use iapetos.Prelude.{
  ℕ, zero, suc, ◌≤◌, ◌<◌, ◌≡◌, ◌⊎◌, refl, ap, ◌∙◌, inl, inr, Bool, true, false, none, some, arith,
  if◌then◌else◌,
}
use iapetos.Prelude.Int.{pos, sub_ℕ, eqb_ℤ, ltb_ℤ}
use iapetos.Prelude.Slices.{length, get_elem?, lt_of_get_elem?, take}
use iapetos.Effect.Total.{
  returns, Total, Total-bind, Total-pure, Total-if, Total-bool, Total-option, Total-or_panic,
  Total-weaken,
}
use iapetos.Api.{Pod, PodStatus, StatefulPod, is_being_deleted, is_create_time_out}
use iapetos.Client.{Env}
use iapetos.Controllers.Pod.Monitor
use iapetos.Controllers.StatefulPod.LostNode.{IsMarked, mark-IsMarked}
use iapetos.Controllers.StatefulPod.PodMonitoring.{TakesDeletes, release_claim-SameStatus}
use iapetos.Controllers.StatefulPod.Resizing.{pods_of, sub_ℕ-one, slice_to-take}
use iapetos.Controllers.StatefulPod.WellFormed.{IsWellFormed, SameStatus, SameStatus-IsWellFormed}
use iapetos.Services.Objects
use iapetos.Services.Pod as PodService
use iapetos.Services.Resource.{is_node_ready}

-- A change is reported: the entries from the child `i` on are gone, and no other has changed.
pub record IsDropped (sp : StatefulPod) (i : ℕ) (r : Bool × StatefulPod) : Type 0 where
  pub reported : r.0 ≡ true
  pub size : r.1.spec.size ≡ sp.spec.size
  pub pods : r.1.status.pod_status_mes ≡ take i sp.status.pod_status_mes
  pub pvcs : r.1.status.pvc_status_mes ≡ take i sp.status.pvc_status_mes

-- The last child is dropped, any other is marked to be made anew.
abbrev pub IsReplaced : StatefulPod → ℕ → Bool × StatefulPod → Type 0
IsReplaced sp i r =
    ((suc i ≡ pods_of sp) × IsDropped sp i r) ⊎ ((suc i < pods_of sp) × IsMarked sp i r)

cut_at : StatefulPod → ℕ → StatefulPod
cut_at sp i = record sp {
  status = record {
    pod_status_mes = take i sp.status.pod_status_mes;
    pvc_status_mes = take i sp.status.pvc_status_mes;
  };
}

cut_status-take :
    (sp : StatefulPod) (i : ℕ)
    → IsWellFormed sp
    → i ≤ pods_of sp
    → Monitor.cut_status sp (pos i) ≡ some (cut_at sp i)
unfolding cut_at
cut_status-take sp i wf h =
    let aligned : i ≤ length sp.status.pvc_status_mes = omega (arith, h, wf.aligned) in
    ground (
      arith,
      slice_to-take sp.status.pod_status_mes i h,
      slice_to-take sp.status.pvc_status_mes i aligned,
    )

cut-IsDropped :
    (sp sp' : StatefulPod) (i : ℕ) (c : StatefulPod)
    → SameStatus sp sp'
    → c ≡ cut_at sp' i
    → IsDropped sp i (true, c)
unfolding cut_at
cut-IsDropped sp sp' i c same is_cut = record {
  reported = refl;
  size = ap (λ c. c.spec.size) is_cut ∙ same.size;
  pods = ap (λ c. c.status.pod_status_mes) is_cut ∙ ap (λ st. take i st.pod_status_mes) same.status;
  pvcs = ap (λ c. c.status.pvc_status_mes) is_cut ∙ ap (λ st. take i st.pvc_status_mes) same.status;
}

eqb_ℤ-last :
    (i n : ℕ) (b : Bool)
    → i < n
    → eqb_ℤ (pos i) (sub_ℕ n 1) ≡ b
    → if b then suc i ≡ n else suc i < n
eqb_ℤ-last i zero b h e = absurd (omega arith)
eqb_ℤ-last i (suc k) true h e = ground (arith, e, sub_ℕ-one k)
eqb_ℤ-last i (suc k) false h e =
    let ne : eqb_ℤ (pos i) (pos k) ≡ false = ground (arith, e, sub_ℕ-one k) in ground (arith, ne, h)

module _ {W : Type 0} (env : Env W) (i : ℕ) (pods : TakesDeletes env.pods)
    (claims : TakesDeletes env.pvcs) (rounds : 1 ≤ env.rounds) where
  pod_delete-none : (pod : Pod) → Total (λ e. e ≡ none) (PodService.delete env pod)
  unfolding PodService.delete Objects.delete
  pod_delete-none pod = record { at = λ w. returns _ _ (pods.taken pod w) }

  on_create_time_out-IsReplaced :
      (sp : StatefulPod) (pod : Pod)
      → IsWellFormed sp
      → i < pods_of sp
      → Total (IsReplaced sp i) (Monitor.on_create_time_out env sp pod (pos i))
  unfolding Monitor.on_create_time_out
  on_create_time_out-IsReplaced sp pod wf low = Total-bind _ _ (pod_delete-none pod) λ e no_error.
      Total-option e _ _
        (λ _. Total-bind _ _ (release_claim-SameStatus env i claims rounds sp pod wf) λ sp' same.
          let low' : i < pods_of sp' = rw same.status low in
          let wf' = SameStatus-IsWellFormed wf same in
          let sizes : pods_of sp' ≡ pods_of sp = ap (λ st. length st.pod_status_mes) same.status in
          Total-bool (eqb_ℤ (pos i) (sub_ℕ (pods_of sp') 1)) _ _
            (λ other.
              Total-weaken (mark-IsMarked env i sp sp' wf low same)
                (λ r m. inr (omega (arith, sizes, eqb_ℤ-last i (pods_of sp') false low' other), m)))
            (λ last.
              Total-bind {P = λ c. c ≡ cut_at sp' i} _ _
                (Total-or_panic _ (cut_at sp' i) (cut_status-take sp' i wf' (omega (arith, low')))
                  refl)
                λ c is_cut. Total-pure _ (
                  inl (
                    omega (arith, sizes, eqb_ℤ-last i (pods_of sp') true low' last),
                    cut-IsDropped sp sp' i c same is_cut,
                  ))))
        (λ x some_error. absurd (ground (arith, no_error, some_error)))

  on_not_running-IsReplaced :
      (sp : StatefulPod) (pod : Pod) (s : PodStatus)
      → IsWellFormed sp
      → get_elem? sp.status.pod_status_mes i ≡ some s
      → is_create_time_out s.status ≡ true
      → Total (IsReplaced sp i) (Monitor.on_not_running env sp pod (pos i))
  unfolding Monitor.on_not_running
  on_not_running-IsReplaced sp pod s wf here late =
      let low : i < pods_of sp = lt_of_get_elem? sp.status.pod_status_mes i here in
      Total-bind {P = λ t. t ≡ s} _ _ (Total-or_panic _ s here refl) λ t is_s.
        Total-bool (is_create_time_out t.status) _ _
          (λ early.
            let also : is_create_time_out t.status ≡ true =
              ap (λ t. is_create_time_out t.status) is_s ∙ late in
            absurd (ground (arith, early, also)))
          (λ _. on_create_time_out-IsReplaced sp pod wf low)

  -- `MonitorPodStatus` of a well-formed object for a pod that is not running, of an entry that is
  -- CreateTimeOut, when the pod is not being deleted, its node is ready, and the server takes the
  -- deletions of pods and of claims, returns from every world and reports a change: if the child is the
  -- last one, its two entries are dropped, and else both are "Deleting"; no other entry changes, and
  -- the size stays.
  pub monitor_pod_status-IsReplaced :
      (sp : StatefulPod) (pod : Pod) (s : PodStatus)
      → IsWellFormed sp
      → get_elem? sp.status.pod_status_mes i ≡ some s
      → is_create_time_out s.status ≡ true
      → is_being_deleted pod.meta ≡ false
      → Monitor.is_pod_running pod ≡ false
      → Total
          (λ b. b ≡ true)
          (is_node_ready env (record { namespace = ""; name = pod.spec.node_name }))
      → Total (IsReplaced sp i) (Monitor.monitor_pod_status env sp pod (pos i))
  unfolding Monitor.monitor_pod_status
  monitor_pod_status-IsReplaced sp pod s wf here late stays down node_ready =
      let low : i < pods_of sp = lt_of_get_elem? sp.status.pod_status_mes i here in
      Total-if (ltb_ℤ (pos i) (pos (length sp.status.pod_status_mes))) _ _
        (λ _.
          Total-if (is_being_deleted pod.meta) _ _ (λ gone. absurd (ground (arith, gone, stays)))
            (λ _. Total-bind _ _ node_ready λ ready is_ready.
              Total-bool ready _ _ (λ lost. absurd (ground (arith, lost, is_ready)))
                (λ _.
                  Total-if (Monitor.is_pod_running pod) _ _
                    (λ up. absurd (ground (arith, up, down)))
                    (λ _. on_not_running-IsReplaced sp pod s wf here late))))
        (λ past. absurd (ground (arith, past, low)))
