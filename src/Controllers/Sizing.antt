-- ===== src/Controllers/Sizing.antt =====
-- controllers/statefulpod/stateful_pod.go: the number of children that count, and the entries that
-- `expansion` records.
use iapetos.Prelude.{
  ℕ, zero, suc, Bool, true, false, Option, none, some, [], ◌∷◌, ◌++◌, eqb, if◌then◌else◌,
}
use iapetos.Prelude.Int.{ℤ, pos, ltb_ℤ}
use iapetos.Prelude.Slices.{length, get_elem?, modify}
use iapetos.Api.{
  PvcPhase, PodStatus, PvcStatus, StatefulPod, is_preparing, is_create_time_out, is_claim_pending,
}
use iapetos.Tools.{int_to_intr32}

-- The test on "Preparing", which reads the size only for such an entry.
abbrev pub still_preparing : Option ℤ → PodStatus → ℕ → Option Bool
still_preparing size p index =
    if is_preparing p.status
    then elim size [ none ↦ none | some n ↦ some (ltb_ℤ (pos index) n) ]
    else some false

-- Whether the last pod, at `index`, counts: the number of children up to it, or before it.
unfoldable pub index_at : ℕ → Option ℤ → PodStatus → Option PvcStatus → Option ℕ
index_at index size p claim =
    if is_create_time_out p.status then some index else elim (still_preparing size p index) [
      | none ↦ none
      | some true ↦ some index
      | some false ↦ elim claim [
        | none ↦ none
        | some v ↦ some (if is_claim_pending v.status then index else suc index)
      ]
    ]

-- `getIndex`; `none` is a panic: a nil size, or fewer claims than pods.
unfoldable pub get_index : StatefulPod → Option ℕ
get_index sp = elim (length sp.status.pod_status_mes) [
  | zero ↦ some 0
  | suc index ↦ elim (get_elem? sp.status.pod_status_mes index) [
    | none ↦ none
    | some p ↦ index_at index sp.spec.size p (get_elem? sp.status.pvc_status_mes index)
  ]
]

-- The entry for the claim of a pod without one.
abbrev pub no_claim_status : ℕ → PvcStatus
no_claim_status index = record {
  index = int_to_intr32 index;
  pvc_name = "none";
  status = PvcPhase.other "";
  capacity = "";
  access_modes = "none" ∷ [];
  storage_class = "";
  pv_name = "";
}

-- The end of `expansion`: both entries are appended, or both are overwritten; `none` is the panic at
-- an index past an end.
unfoldable pub record_status : StatefulPod → ℕ → PodStatus → PvcStatus → Option StatefulPod
record_status sp index p v =
    let pods = sp.status.pod_status_mes in
    let pvcs = sp.status.pvc_status_mes in
    if eqb (length pods) index
    then some (record sp {
      status = record { pod_status_mes = pods ++ p ∷ []; pvc_status_mes = pvcs ++ v ∷ [] };
    })
    else elim (get_elem? pods index) [
      | none ↦ none
      | some _ ↦ elim (get_elem? pvcs index) [
        | none ↦ none
        | some _ ↦ some (record sp {
          status = record {
            pod_status_mes = modify index (λ _. p) pods;
            pvc_status_mes = modify index (λ _. v) pvcs;
          };
        })
      ]
    ]
