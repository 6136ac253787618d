-- ===== src/Services/StatefulPod/Settling.antt =====
-- The loop of `Update` of services/statefulpod/statefulpod.go.
use iapetos.Prelude.{ℕ, suc, ◌≤◌, ◌-◌, ◌≡◌, refl, ap, none, arith}
use iapetos.Effect.{done}
use iapetos.Effect.Total.{Returns, returns, Total, Total-bind, Total-pure}
use iapetos.Api.{StatefulPod}
use iapetos.Client.{not_found, failure, Reply, ok, err, Env}
use iapetos.Client.Laws.{with_version, name_of, EchoesUpdates, TakesCurrent}
use iapetos.Services.StatefulPod.{take_version, get_new_resource_version, update_loop, update}

-- The same object, but for its resource version.
abbrev pub SameButVersion : StatefulPod → StatefulPod → Type 0
SameButVersion sp sp' = sp' ≡ with_version sp'.meta.resource_version sp

module _ {W : Type 0} (env : Env W) where
  pub update_loop-ok :
      (n : ℕ) (sp sp' : StatefulPod) (w w' : W)
      → env.stateful_pods.update sp w ≡ (ok sp', w')
      → update_loop env (suc n) sp w ≡ done (sp', w')
  unfolding update_loop
  update_loop-ok n sp sp' w w' e = rw e

  update_loop-missing :
      (n : ℕ) (sp : StatefulPod) (w w' : W)
      → env.stateful_pods.update sp w ≡ (err not_found, w')
      → update_loop env (suc n) sp w ≡ done (sp, w')
  unfolding update_loop
  update_loop-missing n sp w w' e = rw e

  pub update_loop-failure :
      (n : ℕ) (sp : StatefulPod) (w w' w'' : W) (r : Reply StatefulPod)
      → env.stateful_pods.update sp w ≡ (err failure, w')
      → env.stateful_pods.get (name_of sp) w' ≡ (r, w'')
      → update_loop env (suc n) sp w ≡ update_loop env n (take_version sp r) w''
  unfolding update_loop get_new_resource_version
  update_loop-failure n sp w w' w'' r e g = rw e (rw g)

module _ {W : Type 0} {env : Env W} (echo : EchoesUpdates env) (quiet : TakesCurrent env) where
  -- The second round, after the version was read anew.
  second_round :
      (n : ℕ) (sp : StatefulPod) (w w' : W) (r : Reply StatefulPod)
      → env.stateful_pods.get (name_of sp) w ≡ (r, w')
      → Returns (SameButVersion sp) (update_loop env (suc n) (take_version sp r) w')
  second_round n sp w w' (ok stored) g =
      let (sp', w'', e) = quiet.current sp stored w w' g in
      rw (update_loop-ok env n _ sp' w' w'' e) (returns sp' w'' (echo.echo _ sp' w' w'' e))
  second_round n sp w w' (err x) g =
      let (w'', e) = quiet.missing sp x w w' g in
      rw (update_loop-missing env n sp w' w'' e) (returns sp w'' refl)

  first_round :
      (n : ℕ) (sp : StatefulPod) (w w' : W) (r : Reply StatefulPod)
      → env.stateful_pods.update sp w ≡ (r, w')
      → Returns (SameButVersion sp) (update_loop env (suc (suc n)) sp w)
  first_round n sp w w' (ok sp') e =
      rw (update_loop-ok env (suc n) sp sp' w w' e) (returns sp' w' (echo.echo sp sp' w w' e))
  first_round n sp w w' (err not_found) e =
      rw (update_loop-missing env (suc n) sp w w' e) (returns sp w' refl)
  first_round n sp w w' (err failure) e =
      let (r, w'') = env.stateful_pods.get (name_of sp) w' in
      rw (update_loop-failure env (suc n) sp w w' w'' r e refl) (second_round n sp w' w'' r refl)

  update_loop_returns :
      (n : ℕ) (sp : StatefulPod) → 2 ≤ n → Total (SameButVersion sp) (update_loop env n sp)
  update_loop_returns n sp h =
      let e : n ≡ suc (suc (n - 2)) = omega arith in
      rw e (record {
        at = λ w. let (r, w') = env.stateful_pods.update sp w in first_round (n - 2) sp w w' r refl;
      })

  -- Without interference, and with two rounds or more, `Update` returns from every world, never with
  -- an error, and with the object that it was given under a new version.
  pub update_settles :
      (sp : StatefulPod)
      → 2 ≤ env.rounds
      → Total (λ r. (r.0 ≡ none) × SameButVersion sp r.1) (update env sp)
  unfolding update
  update_settles sp h =
      Total-bind (update_loop env env.rounds sp) _ (update_loop_returns env.rounds sp h)
        (λ sp' same. Total-pure (none, sp') (refl, same))

-- After a conflict, an `Update` with two rounds or more that then succeeds has sent the caller's
-- specification and status, whatever the server held in between: only the version is read anew. It
-- assumes that an update that is taken answers with the object that was sent.
pub update_overwrites :
    {W : Type 0} (env : Env W)
    → EchoesUpdates env
    → (sp stored sp' : StatefulPod) (w w1 w2 w3 : W) → 2 ≤ env.rounds
    → env.stateful_pods.update sp w ≡ (err failure, w1)
    → env.stateful_pods.get (name_of sp) w1 ≡ (ok stored, w2)
    → env.stateful_pods.update (with_version stored.meta.resource_version sp) w2 ≡ (ok sp', w3)
    → (update env sp w ≡ done ((none, sp'), w3)) × (sp'.spec ≡ sp.spec) × (sp'.status ≡ sp.status)
unfolding update
update_overwrites env echo sp stored sp' w w1 w2 w3 two conflict now taken =
    let e : env.rounds ≡ suc (suc (env.rounds - 2)) = omega arith in
    let first =
      update_loop-failure env (suc (env.rounds - 2)) sp w w1 w2 (ok stored) conflict now in
    let second =
      update_loop-ok env (env.rounds - 2) (with_version stored.meta.resource_version sp) sp' w2 w3
        taken in
    let same = echo.echo (with_version stored.meta.resource_version sp) sp' w2 w3 taken in
    (ground (arith, e, first, second), ap (λ x. x.spec) same, ap (λ x. x.status) same)
