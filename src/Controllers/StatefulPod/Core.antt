-- ===== src/Controllers/StatefulPod/Core.antt =====
-- `CoreCtrl` of controllers/statefulpod/stateful_pod.go as a whole.
use iapetos.Prelude.{
  ℕ, zero, suc, ◌≤◌, ◌<◌, ◌≡◌, refl, ◌⊎◌, inl, inr, some, arith, ◌&&◌, Option-cases, Bool-cases,
}
use iapetos.Prelude.Int.{pos, ltb_ℤ, eqb_ℤ}
use iapetos.Prelude.Slices.{get_elem?-lt}
use iapetos.Effect.Total.{Total, Total-bind, Total-if, Total-or_panic, Total-weaken}
use iapetos.Api.{
  StatefulPod, PodStatus, PvcStatus, is_create_time_out, is_claim_pending, is_being_deleted,
}
use iapetos.Client.{Env}
use iapetos.Controllers.StatefulPod
use iapetos.Controllers.StatefulPod.Resizing.{Quiet, pods_of, GrowsAt}
use iapetos.Controllers.StatefulPod.Growth.{expansion-Total, shrink-Total}
use iapetos.Controllers.StatefulPod.Safety.{settle-Total, delete-Total}
use iapetos.Controllers.StatefulPod.WellFormed.{IsWellFormed, Resized}

index_at-bounds :
    (index n : ℕ) (p : PodStatus) (v : PvcStatus)
    → (i : ℕ) × (StatefulPod.index_at index (some (pos n)) p (some v) ≡ some i)
      × (index ≤ i)
      × (i ≤ suc index)
unfolding StatefulPod.index_at
index_at-bounds index n p v = elim (Bool-cases (is_create_time_out p.status)) [
  | inl late ↦ (index, ground (arith, late), omega arith, omega arith)
  | inr other ↦ elim (Option-cases (StatefulPod.still_preparing (some (pos n)) p index)) [
    | inl e ↦ absurd (ground (arith, e))
    | inr (preparing, e) ↦ elim (Bool-cases preparing) [
      | inl yes_p ↦ (index, ground (arith, other, e, yes_p), omega arith, omega arith)
      | inr no_p ↦ elim (Bool-cases (is_claim_pending v.status)) [
        | inl pend ↦ (index, ground (arith, other, e, no_p, pend), omega arith, omega arith)
        | inr bound ↦ (suc index, ground (arith, other, e, no_p, bound), omega arith, omega arith)
      ]
    ]
  ]
]

-- On a well-formed object with a size, `getIndex` does not panic, and gives the number of pod entries
-- or one less than that.
pub get_index-bounds :
    (sp : StatefulPod) (n : ℕ)
    → IsWellFormed sp
    → sp.spec.size ≡ some (pos n)
    → (i : ℕ) × (StatefulPod.get_index sp ≡ some i) × (i ≤ pods_of sp) × (pods_of sp ≤ suc i)
unfolding StatefulPod.get_index
get_index-bounds sp n wf size = by_length (pods_of sp) refl
  where
    by_length :
        (len : ℕ)
        → pods_of sp ≡ len
        → (i : ℕ) × (StatefulPod.get_index sp ≡ some i) × (i ≤ pods_of sp) × (pods_of sp ≤ suc i)
    by_length zero e = (0, ground (arith, e), omega arith, omega arith)
    by_length (suc index) e =
        let (p, ep) = get_elem?-lt sp.status.pod_status_mes index (omega arith) in
        let (v, ev) = get_elem?-lt sp.status.pvc_status_mes index (omega (arith, wf.aligned)) in
        let (i, ei, lower, upper) = index_at-bounds index n p v in
        (i, ground (arith, e, ep, ev, size, ei), omega arith, omega arith)

-- The number of entries after `CoreCtrl`, by how the index that it finds compares with the size.
abbrev pub CoreLength : ℕ → ℕ → ℕ → ℕ → Type 0
CoreLength index size len n =
    (n ≡ len)
    ⊎ ((index < size) × (len ≡ index) × (n ≡ suc len))
    ⊎ ((size < index) × (suc n ≡ index))

module _ {W : Type 0} {env : Env W} (quiet : Quiet env) where
  core_branch-Total :
      (sp : StatefulPod) (i n : ℕ)
      → IsWellFormed sp
      → i ≤ pods_of sp
      → Total
          (λ r. Resized (CoreLength i n (pods_of sp)) sp r.1)
          (StatefulPod.core_branch env sp i (pos n))
  unfolding StatefulPod.core_branch
  core_branch-Total sp i n wf h =
      Total-if (is_being_deleted sp.meta && eqb_ℤ (pos i) (pos n)) _ _
        (λ _. Total-weaken (delete-Total quiet sp wf) (λ r g. (g.0, g.1, inl g.2)))
        (λ _.
          Total-if (ltb_ℤ (pos i) (pos n)) _ _
            (λ low.
              Total-weaken (expansion-Total quiet sp i wf h)
                (λ r g. (g.0, g.1, grown (ground arith) g.2)))
            (λ _.
              Total-if (ltb_ℤ (pos n) (pos i)) _ _ (λ high. shrunk i h (ground arith))
                (λ _. Total-weaken (settle-Total quiet sp wf) (λ r g. (g.0, g.1, inl g.2)))))
    where
      grown : {m : ℕ} → i < n → GrowsAt i (pods_of sp) m → CoreLength i n (pods_of sp) m
      grown low (inl same) = inl same
      grown low (inr (at_end, more)) = inr (inl (low, at_end, more))

      shrunk :
          (j : ℕ)
          → j ≤ pods_of sp
          → n < j
          → Total (λ r. Resized (CoreLength j n (pods_of sp)) sp r.1) (StatefulPod.shrink env sp j)
      shrunk zero below high = absurd (omega arith)
      shrunk (suc k) below high =
          Total-weaken (shrink-Total quiet sp k wf below) (λ r g. (g.0, g.1, ground (arith, g.2)))

  -- On a quiet server, `CoreCtrl` of a well-formed object with the size n returns from every world,
  -- without a panic. The object is well-formed afterwards and its desired size is the same. With i
  -- the index of `getIndex`, the number of entries has stayed, or i was below n and all entries
  -- counted and there is one more, or i was above n and i - 1 are left.
  pub core_ctrl-Total :
      (sp : StatefulPod) (n : ℕ)
      → IsWellFormed sp
      → sp.spec.size ≡ some (pos n)
      → (i : ℕ) × (StatefulPod.get_index sp ≡ some i)
        × Total (λ r. Resized (CoreLength i n (pods_of sp)) sp r.1) (StatefulPod.core_ctrl env sp)
  unfolding StatefulPod.core_ctrl
  core_ctrl-Total sp n wf size =
      let (i, e, lower, upper) = get_index-bounds sp n wf size in
      (
        i,
        e,
        Total-bind _ _ (Total-or_panic {P = λ j. j ≡ i} _ i e refl) λ j ej.
            Total-bind _ _ (Total-or_panic {P = λ s. s ≡ pos n} _ (pos n) size refl)
              λ s es. rw (ej, es) (core_branch-Total sp i n wf lower),
      )
