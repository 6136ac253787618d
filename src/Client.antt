-- ===== src/Client.antt =====
-- The API server behind `client.Client` of controller-runtime, which the program calls and does not
-- implement: a parameter. `W` is the state of the world outside the program. Of a call's error the
-- program only asks whether it says "not found".
pub mod Laws
use iapetos.Prelude.{ℕ, Option}
use iapetos.Prelude.Int.{ℤ}
use iapetos.Api.{NamespacedName, Pod, Pvc, Pv, Svc, Node, StatefulPod}

-- `failure` is any other error: a conflict, a timeout, `errors.New("")`.
pub data ApiError : Type 0 where
  not_found failure : ApiError

pub data Reply (A : Type 0) : Type 0 where
  ok : A → Reply A
  err : ApiError → Reply A

-- `force` stands for `GracePeriodSeconds(0)` with background propagation.
pub data DeleteOptions : Type 0 where
  plain force : DeleteOptions

-- The calls on the objects of one kind. `create` and `update` return the object as the server
-- wrote it back into the argument.
pub record Store (W A : Type 0) : Type 0 where
  pub get : NamespacedName → W → Reply A × W
  pub create : A → W → Reply A × W
  pub update : A → W → Reply A × W
  pub delete : DeleteOptions → A → W → Option ApiError × W

-- `initconfig.StatefulPodResourceCfg`, read from config/node_lost_connection/config.toml; in seconds.
pub record Config : Type 0 where
  pub node_timeout : ℤ
  pub pod_timeout : ℤ

-- What a handler is given: the client, the clock in nanoseconds, the configuration, and the number
-- of rounds after which a loop by `goto` counts as diverged.
pub record Env (W : Type 0) : Type 0 where
  pub pods : Store W Pod
  pub pvcs : Store W Pvc
  pub pvs : Store W Pv
  pub services : Store W Svc
  pub nodes : Store W Node
  pub stateful_pods : Store W StatefulPod
  pub now : W → ℕ
  pub config : Config
  pub rounds : ℕ
