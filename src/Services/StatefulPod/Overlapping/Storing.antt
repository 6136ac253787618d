-- ===== src/Services/StatefulPod/Overlapping/Storing.antt =====
-- What an uninterrupted `Update` of services/statefulpod/statefulpod.go leaves on a server under
-- optimistic concurrency.
use iapetos.Prelude.{◌≤◌, ◌-◌, ◌≡◌, inl, inr, none, some, arith, ◌==◌, eq_refl, Bool-cases}
use iapetos.Effect.{done}
use iapetos.Api.{NamespacedName, StatefulPod}
use iapetos.Client.{ok, Env}
use iapetos.Client.Laws.{with_version, name_of, EchoesUpdates}
use iapetos.Services.StatefulPod.{update}
use iapetos.Services.StatefulPod.Overlapping.Bound.{Optimistic}
use iapetos.Services.StatefulPod.Settling.{SameButVersion, update_loop-ok, update_loop-failure}

-- The call returns without an error, and what is stored then is the object that was sent, under the
-- version that it returns.
pub update-stores :
    {W : Type 0} {env : Env W}
    → EchoesUpdates env
    → 2 ≤ env.rounds
    → {key : NamespacedName} (server : Optimistic env key) (sp current : StatefulPod) (w : W)
    → name_of sp ≡ key
    → server.stored w ≡ some current
    → (sp' : StatefulPod) × (w' : W) × (update env sp w ≡ done ((none, sp'), w'))
      × SameButVersion sp sp'
      × (server.stored w' ≡ some sp')
unfolding update
update-stores {env = env} echo two server sp current w named there =
    let n = env.rounds - 2 in
    elim (Bool-cases (sp.meta.resource_version == current.meta.resource_version)) [
      | inl same ↦
          let (sp', w', taken, now) = server.takes w sp current named there same in
          let looped = update_loop-ok env (env.rounds - 1) sp sp' w w' taken in
          (sp', w', ground (arith, looped), echo.echo sp sp' w w' taken, now)
      | inr other ↦
          let sent = with_version current.meta.resource_version sp in
          let (sp', w', taken, now) =
            server.takes w sent current named there (eq_refl current.meta.resource_version) in
          let first =
            update_loop-failure env (env.rounds - 1) sp w w w (ok current)
              (server.stale w sp current named there other)
              (rw named (server.reads_some w current there)) in
          let second = update_loop-ok env n sent sp' w w' taken in
          (sp', w', ground (arith, first, second), echo.echo sent sp' w w' taken, now)
    ]
