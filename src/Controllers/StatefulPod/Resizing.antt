-- ===== src/Controllers/StatefulPod/Resizing.antt =====
-- How the steps of controllers/statefulpod/stateful_pod.go change the number of entries in the status,
-- and the server on which they always return.
use iapetos.Prelude.{
  ℕ, suc, ◌≤◌, ◌<◌, ◌≡◌, refl, ◌∙◌, ◌⊎◌, inl, inr, some, arith, ap, sym, List, [], ◌∷◌, ◌++◌,
  Bool-cases, eqb,
}
use iapetos.Prelude.Int.{pos, sub_ℕ}
use iapetos.Prelude.Slices.{
  length, length-append, length-modify, length-take, get_elem?-lt, slice_to, take, modify,
}
use iapetos.Api.{StatefulPod, PodStatus, PvcStatus}
use iapetos.Client.{Env}
use iapetos.Client.Laws.{EchoesUpdates, TakesCurrent, NodesReport}
use iapetos.Controllers.Pod.Monitor.{cut_status}
use iapetos.Controllers.StatefulPod
use iapetos.Controllers.StatefulPod.WellFormed.{IsWellFormed, SameButVersion-IsWellFormed, Resized}
use iapetos.Services.StatefulPod.Settling.{SameButVersion}

-- What the theorems of this module assume of the server: it echoes updates, nobody else writes in
-- between, nodes report conditions, and `Update` has two rounds or more.
pub record Quiet {W : Type 0} (env : Env W) : Type 0 where
  pub echo : EchoesUpdates env
  pub current : TakesCurrent env
  pub nodes : NodesReport env
  pub rounds : 2 ≤ env.rounds

abbrev pub pods_of : StatefulPod → ℕ
pods_of sp = length sp.status.pod_status_mes

pub SameButVersion-Resized :
    (P : ℕ → Type 0) {sp sp' : StatefulPod}
    → IsWellFormed sp
    → P (pods_of sp)
    → SameButVersion sp sp'
    → Resized P sp sp'
SameButVersion-Resized P {sp} {sp'} wf p same =
    (SameButVersion-IsWellFormed wf same, ap (λ s. s.spec.size) same, rw same p)

pub Resized-trans :
    (P : ℕ → Type 0) (a b c : StatefulPod)
    → b.spec.size ≡ a.spec.size
    → Resized P b c
    → Resized P a c
Resized-trans P a b c e (wf, size, p) = (wf, size ∙ e, p)

-- The number of entries after `expansion` at index `i`: one more if that is the next index.
abbrev pub GrowsAt : ℕ → ℕ → ℕ → Type 0
GrowsAt i len n = (n ≡ len) ⊎ ((len ≡ i) × (n ≡ suc len))

pub record_status-GrowsAt :
    (sp : StatefulPod) (i : ℕ) (p : PodStatus) (v : PvcStatus)
    → IsWellFormed sp
    → i ≤ pods_of sp
    → (sp' : StatefulPod) × (StatefulPod.record_status sp i p v ≡ some sp')
      × Resized (GrowsAt i (pods_of sp)) sp sp'
unfolding StatefulPod.record_status
record_status-GrowsAt sp i p v wf h =
    let pods = sp.status.pod_status_mes in
    let pvcs = sp.status.pvc_status_mes in
    elim (Bool-cases (eqb (length pods) i)) [
      | inl last ↦ (
        record sp {
          status = record { pod_status_mes = pods ++ p ∷ []; pvc_status_mes = pvcs ++ v ∷ [] };
        },
        ground (arith, last),
        (
          record {
            aligned = omega (
              arith,
              wf.aligned,
              length-append {0} pods (p ∷ []),
              length-append {0} pvcs (v ∷ []),
            );
            sized = wf.sized;
            mountable = wf.mountable;
          },
          refl,
          inr (ground (arith, last), omega (arith, length-append {0} pods (p ∷ []))),
        ),
      )
      | inr inner ↦
          let below : i < length pods = ground (arith, inner) in
          let (old_p, ep) = get_elem?-lt pods i below in
          let (old_v, ev) = get_elem?-lt pvcs i (rw (← wf.aligned) below) in
          (
            record sp {
              status = record {
                pod_status_mes = modify i (λ _. p) pods;
                pvc_status_mes = modify i (λ _. v) pvcs;
              };
            },
            ground (arith, inner, ep, ev),
            (
              record {
                aligned =
                    length-modify i (λ _. p) pods
                    ∙ wf.aligned
                    ∙ sym (length-modify i (λ _. v) pvcs);
                sized = wf.sized;
                mountable = wf.mountable;
              },
              refl,
              inl (length-modify i (λ _. p) pods),
            ),
          )
    ]

pub sub_ℕ-one : (k : ℕ) → sub_ℕ (suc k) 1 ≡ pos k
sub_ℕ-one k = ground arith

pub slice_to-take :
    {A : Type 0} (xs : List A) (k : ℕ) → k ≤ length xs → slice_to xs (pos k) ≡ some (take k xs)
slice_to-take xs k h = ground arith

-- Cutting both lists before an index within them.
pub cut_status-Resized :
    (sp : StatefulPod) (k : ℕ)
    → IsWellFormed sp
    → k ≤ pods_of sp
    → (sp' : StatefulPod) × (cut_status sp (sub_ℕ (suc k) 1) ≡ some sp')
      × Resized (λ n. n ≡ k) sp sp'
cut_status-Resized sp k wf h =
    let pods = sp.status.pod_status_mes in
    let pvcs = sp.status.pvc_status_mes in
    let h' : k ≤ length pvcs = omega (arith, wf.aligned) in
    (
      record sp { status = record { pod_status_mes = take k pods; pvc_status_mes = take k pvcs } },
      rw (sub_ℕ-one k) (ground (arith, slice_to-take pods k h, slice_to-take pvcs k h')),
      (
        record {
          aligned = length-take k pods h ∙ sym (length-take k pvcs h');
          sized = wf.sized;
          mountable = wf.mountable;
        },
        refl,
        length-take k pods h,
      ),
    )

-- The number of entries after `shrink` at index `i`: the same, or one less than the index.
abbrev pub ShrinksAt : ℕ → ℕ → ℕ → Type 0
ShrinksAt i len n = (n ≡ len) ⊎ (suc n ≡ i)
