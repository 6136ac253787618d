-- ===== src/Controllers/Pod/Ok.antt =====
-- `PodIsOk` of controllers/statefulpod/child_resource_controller/pod_controller/pod.go when it corrects
-- nothing.
use iapetos.Prelude.{
  ℕ, suc, ◌≡◌, refl, inl, inr, false, not, ◌&&◌, Option, none, some, List, [], ◌∷◌, arith,
  Option-cases, Bool-cases,
}
use iapetos.Prelude.Slices.{All}
use iapetos.Effect.{Outcome, done, panic, diverged}
use iapetos.Api.{Pod, PodPhase, PodStatus, StatefulPod, is_running}
use iapetos.Client.{Env}
use iapetos.Client.Laws.{ReadsOnly}
use iapetos.Controllers.Pod
use iapetos.Services.Objects
use iapetos.Services.Objects.{found}
use iapetos.Services.Pod as PodService

module _ {W : Type 0} (env : Env W) where
  -- The pod of the entry is there, and if it runs, the entry says so.
  abbrev pub IsCurrent : StatefulPod → W → PodStatus → Type 0
  IsCurrent sp w s =
      (pod : Pod) × (found (env.pods.get (Pod.pod_key sp s) w).0 ≡ some pod)
      × ((is_running pod.phase && not (is_running s.status)) ≡ false)

  module _ (reads : ReadsOnly env.pods) (sp : StatefulPod) (w w' : W) where
    ok_loop-IsCurrent :
        (l : List PodStatus) (i : ℕ)
        → Pod.ok_loop env l sp.meta.namespace i w ≡ done (none, w')
        → All (IsCurrent sp w) l × (w' ≡ w)
    unfolding Pod.ok_loop PodService.is_exists Objects.is_exists
    ok_loop-IsCurrent [] i h = (tt, ground (arith, h))
    ok_loop-IsCurrent (s ∷ rest) i h =
        let k = reads.get_keeps (Pod.pod_key sp s) w in
        elim (Option-cases (found (env.pods.get (Pod.pod_key sp s) w).0)) [
          | inl gone ↦ absurd (ground (arith, h, gone))
          | inr (pod, there) ↦
              elim (Bool-cases (is_running pod.phase && not (is_running s.status))) [
                | inl stale ↦ absurd (ground (arith, h, there, stale))
                | inr current ↦
                    let (all, same) =
                      ok_loop-IsCurrent rest (suc i) (ground (arith, h, there, k, current)) in
                    (((pod, there, current), all), same)
              ]
        ]

    -- `PodIsOk` gives no index only if the pod of every entry is there, and every running pod is
    -- entered as running; and then it has changed nothing. Reading pods is assumed to change nothing.
    pub pod_is_ok-IsCurrent :
        (sp' : StatefulPod)
        → Pod.pod_is_ok env sp w ≡ done ((none, sp'), w')
        → All (IsCurrent sp w) sp.status.pod_status_mes × (sp' ≡ sp) × (w' ≡ w)
    unfolding Pod.pod_is_ok
    pod_is_ok-IsCurrent sp' h =
        stopped (Pod.ok_loop env sp.status.pod_status_mes sp.meta.namespace 0 w) refl
      where
        stopped :
            (o : Outcome (Option (ℕ × PodPhase) × W))
            → Pod.ok_loop env sp.status.pod_status_mes sp.meta.namespace 0 w ≡ o
            → All (IsCurrent sp w) sp.status.pod_status_mes × (sp' ≡ sp) × (w' ≡ w)
        stopped (done (none, w1)) e =
            let (all, same) = ok_loop-IsCurrent sp.status.pod_status_mes 0 (ground (arith, h, e)) in
            (all, ground (arith, h, e), same)
        stopped (done (some x, w1)) e = absurd (ground (arith, h, e))
        stopped panic e = absurd (ground (arith, h, e))
        stopped diverged e = absurd (ground (arith, h, e))
