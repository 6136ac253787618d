-- ===== src/Memory/Writes.antt =====
-- Assignments to a field of an entry of the status, `statefulPod.Status.PVCStatusMes[i].Status = …` and the
-- like, as the child controllers write them through the pointer that they are given.
use iapetos.Prelude.{ℕ, Option, none, some, ltb, if◌then◌else◌}
use iapetos.Prelude.Slices.{modify}
use iapetos.Effect.{M, call, or_panic}
use iapetos.Api.{PodPhase, PvcPhase}
use iapetos.Memory.{Library, Slice, StatefulPod, Memory, Region, pod_statuses, pvc_statuses}

module _ {lib : Library} where
  -- `s[i].f = v`, where `f` writes the field: a panic at an index out of range.
  unfoldable pub assign :
      {A : Type 0} → Region lib A → Option Slice → ℕ → (A → A) → M (Memory lib) Unit
  assign region none i f = or_panic none
  assign region (some s) i f =
      if ltb i s.len
      then call (λ m. (tt, region.put (modify s.array (modify i f) (region.arrays m)) m))
      else or_panic none

  abbrev pub assign_pod_phase : StatefulPod lib → ℕ → PodPhase → M (Memory lib) Unit
  assign_pod_phase sp i phase =
      assign pod_statuses sp.status.pod_status_mes i (λ s. record s { status = phase })

  abbrev pub assign_pvc_phase : StatefulPod lib → ℕ → PvcPhase → M (Memory lib) Unit
  assign_pvc_phase sp i phase =
      assign pvc_statuses sp.status.pvc_status_mes i (λ s. record s { status = phase })
