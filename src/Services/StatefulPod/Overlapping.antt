-- ===== src/Services/StatefulPod/Overlapping.antt =====
-- Calls of `Update` of services/statefulpod/statefulpod.go that overlap, as the concurrent reconciles of
-- controllers/statefulpod_controller.go make them: each is at one of its calls to the API server, and a
-- schedule says whose call comes next.
pub mod Bound
pub mod Storing
pub mod Counting
pub mod Waiting
pub mod Returning
pub mod LastWriter
use iapetos.Prelude.{ℕ, zero, suc, Option, none, some, List, [], ◌∷◌}
use iapetos.Prelude.Slices.{get_elem?, modify}
use iapetos.Api.{StatefulPod}
use iapetos.Client.{not_found, failure, Reply, ok, err, Env}
use iapetos.Services.Objects.{key_of}
use iapetos.Services.StatefulPod.{take_version}

-- Where an `Update` is: before the call that writes, before the one that reads the version anew, or at
-- its return.
pub data Stage : Type 0 where
  updating refreshing finished : StatefulPod → Stage

abbrev pub after_update : StatefulPod → Reply StatefulPod → Stage
after_update sp (ok sp') = Stage.finished sp'
after_update sp (err not_found) = Stage.finished sp
after_update sp (err failure) = Stage.refreshing sp

pub record System (W : Type 0) : Type 0 where
  pub workers : List Stage
  pub world : W

module _ {W : Type 0} (env : Env W) where
  -- One call.
  unfoldable pub step : Stage → W → Stage × W
  step (Stage.updating sp) w =
      let (r, w') = env.stateful_pods.update sp w in (after_update sp r, w')
  step (Stage.refreshing sp) w =
      let (r, w') = env.stateful_pods.get (key_of sp.meta) w in
      (Stage.updating (take_version sp r), w')
  step (Stage.finished sp) w = (Stage.finished sp, w)

  -- The call of a worker; one that is not there makes none.
  abbrev pub turn_of : ℕ → Option Stage → System W → System W
  turn_of k none s = s
  turn_of k (some st) s =
      let (st', w') = step st s.world in
      record { workers = modify k (λ _. st') s.workers; world = w' }

  unfoldable pub turn : ℕ → System W → System W
  turn k s = turn_of k (get_elem? s.workers k) s

  unfoldable pub run : List ℕ → System W → System W
  run [] s = s
  run (k ∷ ks) s = run ks (turn k s)
