-- ===== src/Memory/Monitor.antt =====
-- `MonitorPVCStatus` of controllers/statefulpod/child_resource_controller/pvc_controller/pvc.go over the
-- memory, each assignment through the pointer where the code has it. (Of an index that is not negative.)
pub mod Branches
pub mod Refines
use iapetos.Prelude.{ℕ, Bool, true, false, Option, none, some, ltb, if◌then◌else◌}
use iapetos.Prelude.Slices.{get_elem?}
use iapetos.Effect.{M, pure, gets, or_panic, ◌>>=◌}
use iapetos.Api.{
  Pvc, PvcPhase, is_being_deleted, is_claim_bound, is_claim_deleting, is_create_time_out,
}
use iapetos.Memory.{
  Library, Slice, PodStatus, PvcStatus, StatefulPod, Memory, Region, pod_statuses, pvc_statuses,
}
use iapetos.Memory.Writes.{assign, assign_pvc_phase}

-- `len(s)`.
abbrev pub len_of : Option Slice → ℕ
len_of none = 0
len_of (some s) = s.len

abbrev pub set_capacity : Pvc → PvcStatus → PvcStatus
set_capacity pvc s = record s { capacity = pvc.spec.storage_request }

abbrev pub set_pv_name : Pvc → PvcStatus → PvcStatus
set_pv_name pvc s = record s { pv_name = pvc.spec.volume_name }

module _ {lib : Library} where
  -- `s[i]`: a panic at an index out of range.
  unfoldable pub element : {A : Type 0} → Region lib A → Option Slice → ℕ → M (Memory lib) A
  element region none i = or_panic none
  element region (some s) i =
      if ltb i s.len
      then (do
        o ← gets (λ m. get_elem? (region.arrays m) s.array)
        xs ← or_panic o
        or_panic (get_elem? xs i))
      else or_panic none

  -- The branch for a claim with a deletion timestamp.
  unfoldable pub on_deleted : StatefulPod lib → ℕ → M (Memory lib) Bool
  on_deleted sp i = do
    s ← element pvc_statuses sp.status.pvc_status_mes i
    elim (is_claim_deleting s.status) [
      | true ↦ pure false
      | false ↦ (do
        p ← element pod_statuses sp.status.pod_status_mes i
        elim (is_create_time_out p.status) [
          | true ↦ pure false
          | false ↦ (do _ ← assign_pvc_phase sp i PvcPhase.deleting; pure true)
        ])
    ]

  -- The branch for a claim that is bound.
  unfoldable pub on_bound : StatefulPod lib → Pvc → ℕ → M (Memory lib) Bool
  on_bound sp pvc i = do
    s ← element pvc_statuses sp.status.pvc_status_mes i
    elim (is_claim_bound s.status) [
      | true ↦ pure false
      | false ↦ (do
        _ ← assign_pvc_phase sp i PvcPhase.bound
        _ ← assign pvc_statuses sp.status.pvc_status_mes i (set_capacity pvc)
        _ ← assign pvc_statuses sp.status.pvc_status_mes i (set_pv_name pvc)
        pure true)
    ]

  unfoldable pub monitor_pvc_status : StatefulPod lib → Pvc → ℕ → M (Memory lib) Bool
  monitor_pvc_status sp pvc i =
      if ltb i (len_of sp.status.pvc_status_mes)
      then if is_being_deleted pvc.meta
        then on_deleted sp i
        else if is_claim_bound pvc.phase
        then on_bound sp pvc i
        else pure false
      else pure false
