-- ===== src/Controllers/Pod/Maintain.antt =====
-- `MaintainPod` of controllers/statefulpod/child_resource_controller/pod_controller/pod.go is a search.
use iapetos.Prelude.{
  ℕ, suc, ◌+◌, ◌≡◌, refl, inl, inr, true, Option, none, some, List, [], ◌∷◌, arith, Option-cases,
  Bool-cases,
}
use iapetos.Prelude.Slices.{All, get_elem?, take}
use iapetos.Effect.{done}
use iapetos.Api.{PodStatus, StatefulPod, is_deleting}
use iapetos.Client.{Env}
use iapetos.Client.Laws.{ReadsOnly}
use iapetos.Controllers.Pod
use iapetos.Controllers.Sweep.Absence.{IsMissing, Answers, IsAbsent-IsMissing}
use iapetos.Services.Objects.{found}
use iapetos.Services.Pod as PodService
use iapetos.Services.Objects

-- The first entry with a property is at the index, or there is none.
abbrev pub IsFirst : (PodStatus → Type 0) → List PodStatus → Option ℕ → Type 0
IsFirst P l none = All (λ s. ¬ P s) l
IsFirst P l (some i) =
    (s : PodStatus) × (get_elem? l i ≡ some s) × P s × All (λ t. ¬ P t) (take i l)

abbrev shift : Option ℕ → ℕ → Option ℕ
shift none i = none
shift (some j) i = some (i + j)

abbrev next : Option ℕ → Option ℕ
next none = none
next (some j) = some (suc j)

next-IsFirst :
    (P : PodStatus → Type 0) (s : PodStatus) (l : List PodStatus) (o : Option ℕ)
    → ¬ P s
    → IsFirst P l o
    → IsFirst P (s ∷ l) (next o)
next-IsFirst P s l none np f = (np, f)
next-IsFirst P s l (some i) np (t, e, p, before) = (t, e, p, (np, before))

shift-next : (o : Option ℕ) (i : ℕ) → shift o (suc i) ≡ shift (next o) i
shift-next none i = refl
shift-next (some j) i = ground arith

module _ {W : Type 0} (env : Env W) where
  -- The pod of the entry was marked as going away, and the server says that there is none.
  abbrev pub IsLost : StatefulPod → W → PodStatus → Type 0
  IsLost sp w s = (is_deleting s.status ≡ true) × IsMissing env.pods w (Pod.pod_key sp s)

  module _ (reads : ReadsOnly env.pods) (sp : StatefulPod) (w : W)
      (answers : Answers env.pods w) where
    maintain_loop-IsFirst :
        (l : List PodStatus) (i : ℕ)
        → (o : Option ℕ) × (Pod.maintain_loop env l sp.meta.namespace i w ≡ done (shift o i, w))
          × IsFirst (IsLost sp w) l o
    unfolding Pod.maintain_loop PodService.is_exists Objects.is_exists
    maintain_loop-IsFirst [] i = (none, refl, tt)
    maintain_loop-IsFirst (s ∷ rest) i =
        let (o, e, first) = maintain_loop-IsFirst rest (suc i) in
        let same = shift-next o i in
        let k = reads.get_keeps (Pod.pod_key sp s) w in
        let missing = IsAbsent-IsMissing answers (Pod.pod_key sp s) in
        elim (Bool-cases (is_deleting s.status)) [
          | inr other ↦ (
            next o,
            ground (arith, other, e, same),
            next-IsFirst (IsLost sp w) s rest o (λ p. ground (arith, p.0, other)) first,
          )
          | inl going ↦ elim (Option-cases (found (env.pods.get (Pod.pod_key sp s) w).0)) [
            | inl gone ↦
                (some 0, ground (arith, going, gone, k), (s, refl, (going, missing.0 gone), tt))
            | inr (pod, there) ↦ (
              next o,
              ground (arith, going, there, k, e, same),
              next-IsFirst (IsLost sp w) s rest o (λ p. ground (arith, missing.1 p.1, there)) first,
            )
          ]
        ]

    -- Where every look-up of a pod is answered, and reading pods changes nothing: `MaintainPod` returns
    -- and changes nothing. It gives the first index whose entry is "Deleting" while the server says that
    -- there is no such pod, and no index only if there is none.
    pub maintain_pod-IsFirst :
        (o : Option ℕ) × (Pod.maintain_pod env sp w ≡ done (o, w))
        × IsFirst (IsLost sp w) sp.status.pod_status_mes o
    unfolding Pod.maintain_pod
    maintain_pod-IsFirst =
        let (o, e, first) = maintain_loop-IsFirst sp.status.pod_status_mes 0 in
        (o, ground (arith, e), first)
