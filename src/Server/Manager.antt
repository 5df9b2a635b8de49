-- ===== src/Server/Manager.antt =====
-- What `Run` uses of client-go and controller-runtime: the configuration, the manager, its controllers
-- and its checks. Each call answers from the calls before it.
use docker_machine_operator.Base.{String, ℕ, Bool, Option, List}
use docker_machine_operator.Go.Error.{Error, Except}
use docker_machine_operator.Go.Number.{ℤ}
use docker_machine_operator.Env.Event.{Handle}

-- `rest.Config`: what was built, and the fields that the program sets. `F` is `float32`.
pub record Config (F : Type 0) : Type 0 where
  pub built : Handle
  pub qps : F
  pub burst : ℤ

-- `manager.Options`, less the scheme and the client's constructor; the period in nanoseconds.
pub record ManagerOptions : Type 0 where
  pub metrics_bind_address : String
  pub sync_period : ℕ
  pub health_probe_bind_address : String
  pub leader_election : Bool
  pub leader_election_id : String

-- The calls, each with its arguments and its answer.
pub data StartEvent (F : Type 0) : Type 0 where
  -- `clientcmd.BuildConfigFromFlags`
  built_config : String → String → Except Handle → StartEvent F
  made_manager : Config F → ManagerOptions → Except Handle → StartEvent F
  -- `SetupWithManager` of the controller of a kind of objects
  set_up : Handle → String → Option Error → StartEvent F
  added_healthz_check : Handle → String → Option Error → StartEvent F
  added_readyz_check : Handle → String → Option Error → StartEvent F
  -- `mgr.Start`, when it returns
  started : Handle → Option Error → StartEvent F

-- The calls so far, the last first.
abbrev pub StartLog : Type 0 → Type 0
StartLog F = List (StartEvent F)

-- `D` is `float64`, and `F` is `float32`.
pub record ManagerEnv (D F : Type 0) : Type 0 where
  -- the conversion `float32(x)`
  pub to_float32 : D → F
  pub build_config : StartLog F → String → String → Except Handle
  pub new_manager : StartLog F → Config F → ManagerOptions → Except Handle
  pub complete : StartLog F → Handle → String → Option Error
  pub add_healthz_check : StartLog F → Handle → String → Option Error
  pub add_readyz_check : StartLog F → Handle → String → Option Error
  pub start : StartLog F → Handle → Option Error
