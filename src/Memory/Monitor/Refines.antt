-- ===== src/Memory/Monitor/Refines.antt =====
-- `MonitorPVCStatus` over the memory does what it does to a `StatefulPod` as a value.
use iapetos.Prelude.{
  ℕ, ◌<◌, ◌≡◌, ap, ◌∙◌, inl, inr, Bool, true, false, some, arith, ltb, Bool-cases, Option-cases,
}
use iapetos.Prelude.Int.{pos}
use iapetos.Prelude.Slices.{length, get_elem?, lt_of_get_elem?}
use iapetos.Effect.{done}
use iapetos.Api
use iapetos.Api.{PvcPhase, is_claim_bound, is_claim_deleting, is_create_time_out, is_being_deleted}
use iapetos.Memory.{Library, PvcStatus, StatefulPod, Memory, pod_statuses, pvc_statuses}
use iapetos.Memory.Reading.{read_pod_status, read_pvc_status, read_stateful_pod}
use iapetos.Client.{Env}
use iapetos.Controllers.Pvc
use iapetos.Controllers.Pvc.{bind_claim}
use iapetos.Memory.Monitor.{len_of, element, monitor_pvc_status}
use iapetos.Memory.Monitor.Branches.{
  element-reads, pvc_status-reads, pod_status-reads, slices-read, bind-reads, delete-reads,
  on_deleted-already, on_deleted-late, on_bound-already,
}

-- The slices of the status are as long as what is read of them.
pub record IsWhole {lib : Library} (sp : StatefulPod lib) (v : Api.StatefulPod) : Type 0 where
  pub pods : len_of sp.status.pod_status_mes ≡ length v.status.pod_status_mes
  pub pvcs : len_of sp.status.pvc_status_mes ≡ length v.status.pvc_status_mes

-- What a run over the memory has come to: the same answer, and an object that reads as the changed one.
abbrev Answers :
    {lib : Library} → StatefulPod lib → Api.Pvc → ℕ → Memory lib → Bool → Api.StatefulPod → Type 0
Answers sp pvc i m b v' =
    (m' : Memory _) × (monitor_pvc_status sp pvc i m ≡ done (b, m'))
    × (read_stateful_pod m' sp ≡ some v')

module _ {lib : Library} {W : Type 0} (env : Env W) (m : Memory lib) (sp : StatefulPod lib)
    (v v' : Api.StatefulPod) (pvc : Api.Pvc) (i : ℕ) (b : Bool) (w w' : W)
    (e : read_stateful_pod m sp ≡ some v) (whole : IsWhole sp v)
    (h : Pvc.monitor_pvc_status env v pvc (pos i) w ≡ done ((b, v'), w'))
    (inside : ltb i (len_of sp.status.pvc_status_mes) ≡ true) (x : PvcStatus) (s : Api.PvcStatus)
    (at : element pvc_statuses sp.status.pvc_status_mes i m ≡ done (x, m))
    (es : get_elem? v.status.pvc_status_mes i ≡ some s) (phase : x.status ≡ s.status) where
  still : v ≡ v' → read_stateful_pod m sp ≡ some v'
  still same = e ∙ ap some same

  deleted-refines : is_being_deleted pvc.meta ≡ true → Answers sp pvc i m b v'
  unfolding Pvc.monitor_pvc_status monitor_pvc_status
  deleted-refines deleted =
      let low : i < len_of sp.status.pvc_status_mes = ground (arith, inside) in
      let (pods_read, _) = slices-read m sp v e in
      elim (Bool-cases (is_claim_deleting s.status)) [
        | inl already ↦
            let same = ap is_claim_deleting phase ∙ already in
            let run = on_deleted-already m sp i x at same in
            (
              m,
              ground (arith, h, inside, whole.pvcs, es, deleted, already, run),
              still (ground (arith, h, inside, whole.pvcs, es, deleted, already)),
            )
        | inr unmarked ↦ elim (Option-cases (get_elem? v.status.pod_status_mes i)) [
          | inl none_there ↦
              absurd (ground (arith, h, inside, whole.pvcs, es, deleted, unmarked, none_there))
          | inr (p, ep) ↦
              let low_pod : i < len_of sp.status.pod_status_mes =
                omega (arith, whole.pods, lt_of_get_elem? v.status.pod_status_mes i ep) in
              let (y, q, there, eq, ys) =
                element-reads pod_statuses (read_pod_status m) sp.status.pod_status_mes m
                  v.status.pod_status_mes i pods_read low_pod whole.pods in
              let is_p : q ≡ p = ground (arith, eq, ep) in
              let pod_phase = pod_status-reads m y q ys ∙ ap (λ p. p.status) is_p in
              let not_yet = ap is_claim_deleting phase ∙ unmarked in
              elim (Bool-cases (is_create_time_out p.status)) [
                | inl late ↦
                    let run =
                      on_deleted-late m sp i x y at not_yet there
                        (ap is_create_time_out pod_phase ∙ late) in
                    (
                      m,
                      ground (arith, h, inside, whole.pvcs, es, deleted, unmarked, ep, late, run),
                      still
                          (ground (arith, h, inside, whole.pvcs, es, deleted, unmarked, ep, late)),
                    )
                | inr in_time ↦
                    let (m', run, e') =
                      delete-reads m sp v i x y e low at not_yet there
                        (ap is_create_time_out pod_phase ∙ in_time) in
                    (
                      m',
                      ground
                          (arith, h, inside, whole.pvcs, es, deleted, unmarked, ep, in_time, run),
                      e'
                          ∙ ground
                              (arith, h, inside, whole.pvcs, es, deleted, unmarked, ep, in_time),
                    )
              ]
        ]
      ]

  stays-refines : is_being_deleted pvc.meta ≡ false → Answers sp pvc i m b v'
  unfolding Pvc.monitor_pvc_status monitor_pvc_status
  stays-refines stays =
      let low : i < len_of sp.status.pvc_status_mes = ground (arith, inside) in
      elim (Bool-cases (is_claim_bound pvc.phase)) [
        | inr idle ↦ (
          m,
          ground (arith, h, inside, whole.pvcs, stays, idle),
          still (ground (arith, h, inside, whole.pvcs, stays, idle)),
        )
        | inl binds ↦ elim (Bool-cases (is_claim_bound s.status)) [
          | inl already ↦
              let run = on_bound-already m sp pvc i x at (ap is_claim_bound phase ∙ already) in
              (
                m,
                ground (arith, h, inside, whole.pvcs, es, stays, binds, already, run),
                still (ground (arith, h, inside, whole.pvcs, es, stays, binds, already)),
              )
          | inr unbound ↦
              let (m', run, e') =
                bind-reads m sp v pvc i x e low at (ap is_claim_bound phase ∙ unbound) in
              (
                m',
                ground (arith, h, inside, whole.pvcs, es, stays, binds, unbound, run),
                e' ∙ ground (arith, h, inside, whole.pvcs, es, stays, binds, unbound),
              )
        ]
      ]

module _ {lib : Library} {W : Type 0} (env : Env W) where
  -- `MonitorPVCStatus` over the memory, with each assignment where the code has it, returns what it
  -- returns for the `StatefulPod` as a value, and leaves the object reading as the changed value, if the
  -- slices of the status are whole and the run on the value returns.
  pub monitor_pvc_status-refines :
      (m : Memory lib) (sp : StatefulPod lib) (v v' : Api.StatefulPod) (pvc : Api.Pvc) (i : ℕ)
      (b : Bool) (w w' : W)
      → read_stateful_pod m sp ≡ some v
      → IsWhole sp v
      → Pvc.monitor_pvc_status env v pvc (pos i) w ≡ done ((b, v'), w')
      → (m' : Memory lib) × (monitor_pvc_status sp pvc i m ≡ done (b, m'))
        × (read_stateful_pod m' sp ≡ some v')
  unfolding Pvc.monitor_pvc_status monitor_pvc_status
  monitor_pvc_status-refines m sp v v' pvc i b w w' e whole h =
      let (_, pvcs_read) = slices-read m sp v e in
      let n = len_of sp.status.pvc_status_mes in
      elim (Bool-cases (ltb i n)) [
        | inr past ↦ (
          m,
          rw past (ground (arith, h, past, whole.pvcs)),
          e ∙ ap some (ground (arith, h, past, whole.pvcs)),
        )
        | inl inside ↦
            let low : i < n = ground (arith, inside) in
            let (x, s, at, es, xs) =
              element-reads pvc_statuses (read_pvc_status m) sp.status.pvc_status_mes m
                v.status.pvc_status_mes i pvcs_read low whole.pvcs in
            let phase = pvc_status-reads m x s xs in
            elim (Bool-cases (is_being_deleted pvc.meta)) [
              | inl deleted ↦
                  deleted-refines env m sp v v' pvc i b w w' e whole h inside x s at es phase
                    deleted
              | inr stays ↦
                  stays-refines env m sp v v' pvc i b w w' e whole h inside x s at es phase stays
            ]
      ]
