-- ===== src/Manager.antt =====
-- main.go and initconfig/init_toml.go: the start of the controller manager. The reader of TOML, the
-- scheme, the cluster's configuration and the manager are libraries' and a parameter, as are the values
-- of the flags; logging is left out.
use iapetos.Prelude.{ℕ, ◌*◌, String, Bool, true, false, Option, none, some, List, if◌then◌else◌}
use iapetos.Effect.{M, pure, call, or_panic, ◌>>=◌}
use iapetos.Api.{group_version, registered_kinds}
use iapetos.Client.{Config}
use iapetos.Controllers.Events.{DeepEqual}
use iapetos.Controllers.Setup.{EventHandler, Wiring, setup_with_manager}
use iapetos.Services.Resource.{second}

pub record Flags : Type 0 where
  pub metrics_addr : String
  pub enable_leader_election : Bool

-- The values where nothing is given on the command line.
abbrev pub default_flags : Flags
default_flags = record { metrics_addr = ":8080"; enable_leader_election = false }

-- `ctrl.Options`; the scheme is the one of `init`.
pub record Options : Type 0 where
  pub sync_period : ℕ
  pub metrics_bind_address : String
  pub port : ℕ
  pub leader_election : Bool
  pub leader_election_id : String

abbrev pub options_of : Flags → Options
options_of flags = record {
  sync_period = second * 5;
  metrics_bind_address = flags.metrics_addr;
  port = 9443;
  leader_election = flags.enable_leader_election;
  leader_election_id = "3118b9d6.iapetos.foundary-cloud.io";
}

-- What the program calls of the libraries; `false` and `none` are errors. `decode_file` is of toml, the
-- rest of controller-runtime. `add_api` is `SchemeBuilder.AddToScheme`, for a group and version and the
-- kinds that were registered. `load_config` is
-- `GetConfigOrDie`, which ends the program with code 1 by itself, and `complete` the end of the builder
-- in `SetupWithManager`.
pub record Runtime (W RestConfig Manager : Type 0) : Type 0 where
  pub decode_file : String → W → Option Config × W
  pub add_client_go : W → Bool × W
  pub add_api : String → List String → W → Bool × W
  pub load_config : W → Option RestConfig × W
  pub new_manager : RestConfig → Options → W → Option Manager × W
  pub complete : Manager → Wiring → W → Bool × W
  pub start : Manager → W → Bool × W
  pub for_object : EventHandler
  pub deep_equal : DeepEqual

-- `filePath` of initconfig.
abbrev pub config_path : String
config_path = "./config/node_lost_connection/config.toml"

-- How the program ends: `main` returns, or `os.Exit` is called.
pub data End : Type 0 where
  returned : End
  exited : ℕ → End

module _ {W RestConfig Manager : Type 0} (runtime : Runtime W RestConfig Manager) where
  -- `utilruntime.Must`, which panics on an error.
  abbrev pub must : Bool → M W Unit
  must ok = or_panic (if ok then some tt else none)

  -- `init`.
  unfoldable pub init : M W Unit
  init = do
    client_go ← call runtime.add_client_go
    _ ← must client_go
    api ← call (runtime.add_api group_version registered_kinds)
    must api

  -- `main` from the manager on.
  unfoldable pub run_manager : Manager → M W End
  run_manager manager = do
    ready ←
        call (runtime.complete manager (setup_with_manager runtime.for_object runtime.deep_equal))
    elim ready [
      | false ↦ pure (End.exited 1)
      | true ↦ (do
        stopped ← call (runtime.start manager)
        pure (if stopped then End.returned else End.exited 1))
    ]

  -- `main`.
  unfoldable pub main : Flags → M W End
  main flags = do
    config ← call runtime.load_config
    elim config [
      | none ↦ pure (End.exited 1)
      | some c ↦ (do
        manager ← call (runtime.new_manager c (options_of flags))
        elim manager [ none ↦ pure (End.exited 1) | some m ↦ run_manager m ])
    ]

  -- The program: the `init` of initconfig, where `log.Fatal` ends with code 1, that of main, and `main`.
  unfoldable pub program : Flags → M W End
  program flags = do
    settings ← call (runtime.decode_file config_path)
    elim settings [ none ↦ pure (End.exited 1) | some _ ↦ (do _ ← init; main flags) ]
