-- ===== src/Services/Names.antt =====
-- The names of children, of services/pod/pod.go and services/resource.go, tell their indices apart.
use iapetos.Prelude.{ℕ, String, ◌≡◌, inl, inr, some, arith, Option-cases}
use iapetos.Prelude.Int.{pos}
use iapetos.Api.{StatefulPod}
use iapetos.Services.Pod
use iapetos.Services.Resource.{set_pvc_name, default_claim}
use iapetos.Text.{itoa}
use iapetos.Text.RoundTrip.{itoa_injective, dashed_cancel}

-- Two pods of one `StatefulPod` have one name only at one index.
get_name_injective :
    (sp : StatefulPod) (m n : ℕ) → Pod.get_name sp (pos m) ≡ Pod.get_name sp (pos n) → m ≡ n
unfolding Pod.get_name
get_name_injective sp m n h = itoa_injective m n (dashed_cancel sp.meta.name _ _ h)

-- `SetPVCName` gives two claims of one `StatefulPod` one name only at one index.
pub set_pvc_name_injective :
    (sp sp1 sp2 : StatefulPod) (a b : String) (m n : ℕ)
    → set_pvc_name sp (pos m) ≡ some (a, sp1)
    → set_pvc_name sp (pos n) ≡ some (b, sp2)
    → a ≡ b
    → m ≡ n
unfolding set_pvc_name
set_pvc_name_injective sp sp1 sp2 a b m n hm hn e =
    elim (Option-cases (default_claim sp.spec.pod_template.volumes)) [
      | inl c ↦ absurd (ground (arith, hm, c))
      | inr ((claim, vs), c) ↦ itoa_injective m n (
          dashed_cancel sp.meta.name (itoa (pos m)) (itoa (pos n))
            (dashed_cancel claim _ _ (ground (arith, hm, hn, c, e))))
    ]
