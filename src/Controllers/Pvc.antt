-- ===== src/Controllers/Pvc.antt =====
-- controllers/statefulpod/child_resource_controller/pvc_controller/pvc.go.
use iapetos.Prelude.{ℕ, String, Bool, true, false, Option, none, some, if◌then◌else◌}
use iapetos.Prelude.Int.{ℤ, pos, ltb_ℤ}
use iapetos.Prelude.Slices.{length, get_elem?, at_index}
use iapetos.Effect.{M, pure, or_panic, ◌>>=◌}
use iapetos.Api.{
  Pvc, PvcPhase, PvcSpec, PvcStatus, StatefulPod, NamespacedName, is_claim_bound, is_claim_deleting,
  is_create_time_out, is_being_deleted,
}
use iapetos.Client.{failure, Reply, ok, err, Env}
use iapetos.Controllers.Sweep.{sweep}
use iapetos.Controllers.Status.{all_counted, with_pvcs, modify_at, set_pvc_phase}
use iapetos.Services.Pvc
use iapetos.Tools.{int_to_intr32}

abbrev pub pending_with : ℕ → String → PvcSpec → String → PvcStatus
pending_with index name spec class = record {
  index = int_to_intr32 index;
  pvc_name = name;
  status = PvcPhase.pending;
  capacity = "";
  access_modes = spec.access_modes;
  storage_class = class;
  pv_name = "";
}

-- The status entry of a claim that was just created; the class name is dereferenced, `none` is the
-- panic at a nil one.
abbrev pub pending_status : ℕ → String → PvcSpec → Option PvcStatus
pending_status index name spec = elim spec.storage_class_name [
  | none ↦ none
  | some class ↦ some (pending_with index name spec class)
]

-- The entry of a claim that is there already, with an error past the end.
abbrev pub kept_status : {A : Type 0} → Option A → Reply A
kept_status none = err failure
kept_status (some s) = ok s

abbrev pub bind_claim : Pvc → PvcStatus → PvcStatus
bind_claim pvc s = record s {
  status = PvcPhase.bound;
  capacity = pvc.spec.storage_request;
  pv_name = pvc.spec.volume_name;
}

abbrev pub pvc_key : StatefulPod → PvcStatus → NamespacedName
pvc_key sp s = record { namespace = sp.meta.namespace; name = s.pvc_name }

module _ {W : Type 0} (env : Env W) where
  abbrev in_namespace : StatefulPod → String → NamespacedName
  in_namespace sp name = record { namespace = sp.meta.namespace; name = name }

  -- `IsCreationPvcTimeout`; no code calls it.
  unfoldable pub is_creation_pvc_timeout : StatefulPod → ℕ → M W (Bool × StatefulPod)
  is_creation_pvc_timeout sp index = elim sp.spec.pvc_template [
    | none ↦ pure (true, sp)
    | some _ ↦ (do
      (name, sp') ← or_panic (Pvc.get_name sp (pos index))
      there ← Pvc.is_exists env (in_namespace sp' name)
      elim there [
        | none ↦ pure (true, sp')
        | some pvc ↦ (do _ ← Pvc.delete env pvc; pure (false, sp'))
      ])
  ]

  -- `DeletePvcAll`.
  unfoldable pub delete_pvc_all : StatefulPod → M W Bool
  delete_pvc_all sp = do
    sum ← sweep env.pvcs (pvc_key sp) sp.status.pvc_status_mes 0
    pure (all_counted (length sp.status.pvc_status_mes) sum)

  -- The end of `ExpansionPVC`, after the claim was created.
  unfoldable pub created_claim : ℕ → String → StatefulPod → M W (Reply PvcStatus × StatefulPod)
  created_claim index name sp = do
    spec ← or_panic sp.spec.pvc_template
    s ← or_panic (pending_status index name spec)
    pure (ok s, sp)

  -- `ExpansionPVC`.
  unfoldable pub expansion_pvc : StatefulPod → ℕ → M W (Reply PvcStatus × StatefulPod)
  expansion_pvc sp index = do
    (name, sp1) ← or_panic (Pvc.get_name sp (pos index))
    there ← Pvc.is_exists env (in_namespace sp1 name)
    elim there [
      | some _ ↦ pure (kept_status (get_elem? sp1.status.pvc_status_mes index), sp1)
      | none ↦ (do
        (claim, sp2) ← Pvc.create_template env sp1 name index
        created ← Pvc.create env claim
        elim created [ err e ↦ pure (err e, sp2) | ok _ ↦ created_claim index name sp2 ])
    ]

  -- `ShrinkPVC`: true only where the claim is gone.
  unfoldable pub shrink_pvc : StatefulPod → ℤ → M W (Bool × StatefulPod)
  shrink_pvc sp index = do
    (name, sp') ← or_panic (Pvc.get_name sp index)
    there ← Pvc.is_exists env (in_namespace sp' name)
    elim there [
      | none ↦ pure (true, sp')
      | some pvc ↦ (do _ ← Pvc.delete env pvc; pure (false, sp'))
    ]

  -- `MonitorPVCStatus`: whether the status has changed, and the changed object.
  unfoldable pub monitor_pvc_status : StatefulPod → Pvc → ℤ → M W (Bool × StatefulPod)
  monitor_pvc_status sp pvc index =
      let pvcs = sp.status.pvc_status_mes in
      if ltb_ℤ index (pos (length pvcs))
      then if is_being_deleted pvc.meta
        then (do
          s ← or_panic (at_index pvcs index)
          elim (is_claim_deleting s.status) [
            | true ↦ pure (false, sp)
            | false ↦ (do
              p ← or_panic (at_index sp.status.pod_status_mes index)
              pure (
                  if is_create_time_out p.status then (false, sp) else (
                    true,
                    with_pvcs sp (modify_at index (set_pvc_phase PvcPhase.deleting) pvcs),
                  )))
          ])
        else if is_claim_bound pvc.phase
        then (do
          s ← or_panic (at_index pvcs index)
          pure (
              if is_claim_bound s.status
              then (false, sp)
              else (true, with_pvcs sp (modify_at index (bind_claim pvc) pvcs))))
        else pure (false, sp)
      else pure (false, sp)
