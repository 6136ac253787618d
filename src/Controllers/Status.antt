-- ===== src/Controllers/Status.antt =====
-- Writes to the status of a `StatefulPod` in memory.
use iapetos.Prelude.{ℕ, Bool, false, Option, none, some, List, eqb}
use iapetos.Prelude.Int.{ℤ, pos, negsuc}
use iapetos.Prelude.Slices.{modify}
use iapetos.Api.{PodPhase, PvcPhase, PodStatus, PvcStatus, StatefulPod}

abbrev pub with_pods : StatefulPod → List PodStatus → StatefulPod
with_pods sp pods = record sp { status = record sp.status { pod_status_mes = pods } }

abbrev pub with_pvcs : StatefulPod → List PvcStatus → StatefulPod
with_pvcs sp pvcs = record sp { status = record sp.status { pvc_status_mes = pvcs } }

-- `s[index].f = v`; a negative index has panicked before.
abbrev pub modify_at {ℓ} : {A : Type ℓ} → ℤ → (A → A) → List A → List A
modify_at (pos i) f xs = modify i f xs
modify_at (negsuc i) f xs = xs

abbrev pub set_pod_phase : PodPhase → PodStatus → PodStatus
set_pod_phase phase s = record s { status = phase }

abbrev pub set_pvc_phase : PvcPhase → PvcStatus → PvcStatus
set_pvc_phase phase s = record s { status = phase }

-- `sum == len(…)`, where `none` is the early `return false`.
abbrev pub all_counted : ℕ → Option ℕ → Bool
all_counted n none = false
all_counted n (some sum) = eqb sum n
