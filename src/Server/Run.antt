-- ===== src/Server/Run.antt =====
-- pkg/cmds/server/server.go: `Run`, which starts the manager or ends the process, and the
-- `SetupWithManager` methods of pkg/controller.
pub mod Boot
pub mod Ignored
use docker_machine_operator.Base.{String, ℕ, ◌*◌, Bool, Option, none, some, List, [], ◌∷◌}
use docker_machine_operator.Go.Error.{Error, Except, ok, err, of_error}
use docker_machine_operator.Env.Event.{Handle}
use docker_machine_operator.Controller.Wait.{second}
use docker_machine_operator.Server.Options.{OperatorOptions}
use docker_machine_operator.Server.Manager.{
  Config, ManagerOptions, StartEvent, StartLog, ManagerEnv, built_config, made_manager, set_up,
  added_healthz_check, added_readyz_check, started,
}

-- A function returns, or the process exits with a code.
pub data Exit (A : Type 0) : Type 0 where
  returned : A → Exit A
  exited : ℕ → Exit A

abbrev pub Startup : Type 0 → Type 0 → Type 0
Startup F A = StartLog F → Exit A × StartLog F

module _ {F : Type 0} {A B : Type 0} where
  abbrev pub then_run : Exit A → (A → Startup F B) → Startup F B
  then_run (returned a) f log = f a log
  then_run (exited code) f log = (exited code, log)

  infixl 10 ◌>>=◌ ◌>>◌
  unfoldable pub ◌>>=◌ : Startup F A → (A → Startup F B) → Startup F B
  ◌>>=◌ m f log = let (r, log') = m log in then_run r f log'

  abbrev pub ◌>>◌ : Startup F A → Startup F B → Startup F B
  ◌>>◌ m n = m >>= λ _. n

abbrev pub exit_of : {A : Type 0} → ℕ → Except A → Exit A
exit_of code (ok a) = returned a
exit_of code (err e) = exited code

module _ {F : Type 0} {A : Type 0} where
  -- A call whose error ends the process with the code.
  unfoldable pub or_exit : ℕ → (StartLog F → Except A) → (Except A → StartEvent F) → Startup F A
  or_exit code ask note log = let answer = ask log in (exit_of code answer, note answer ∷ log)

-- The same for a call that gives an error alone.
abbrev pub or_exit_error :
    {F : Type 0} → ℕ → (StartLog F → Option Error) → (Option Error → StartEvent F) → Startup F Unit
or_exit_error code ask note log =
    let answer = ask log in (exit_of code (of_error answer), note answer ∷ log)

-- `klog.Fatalf` and `os.Exit(1)`
abbrev pub fatal_code : ℕ
fatal_code = 255

abbrev pub failure_code : ℕ
failure_code = 1

abbrev pub leader_election_id : String
leader_election_id = "54995429.klusters.dev"

abbrev pub sync_period : ℕ
sync_period = 60 * second

abbrev pub manager_options : {D : Type 0} → OperatorOptions D → ManagerOptions
manager_options o = record {
  metrics_bind_address = "";
  sync_period = sync_period;
  health_probe_bind_address = o.probe_addr;
  leader_election = o.enable_leader_election;
  leader_election_id = leader_election_id;
}

-- The kinds of objects that the two controllers are for.
abbrev pub driver_kind : String
driver_kind = "Driver"

abbrev pub machine_kind : String
machine_kind = "Machine"

module _ {D F : Type 0} (env : ManagerEnv D F) where
  abbrev pub config : OperatorOptions D → Handle → Config F
  config o built = record { built = built; qps = env.to_float32 o.qps; burst = o.burst }

  -- `SetupWithManager` of either reconciler
  abbrev pub setup_with_manager : Handle → String → Startup F Unit
  setup_with_manager mgr kind =
      or_exit_error failure_code (λ log. env.complete log mgr kind) (set_up mgr kind)

  -- From where there is a manager.
  unfoldable pub run_manager : Handle → Startup F Unit
  run_manager mgr = do
    setup_with_manager mgr driver_kind
    setup_with_manager mgr machine_kind
    or_exit_error failure_code (λ log. env.add_healthz_check log mgr "healthz")
        (added_healthz_check mgr "healthz")
    or_exit_error failure_code (λ log. env.add_readyz_check log mgr "readyz")
        (added_readyz_check mgr "readyz")
    or_exit_error failure_code (λ log. env.start log mgr) (started mgr)

  -- Where it returns, it returns nil.
  unfoldable pub run : OperatorOptions D → Startup F Unit
  unfolding run_manager
  run o = do
    built ←
        or_exit fatal_code (λ log. env.build_config log o.master_url o.kubeconfig_path)
          (built_config o.master_url o.kubeconfig_path)
    mgr ←
        or_exit failure_code (λ log. env.new_manager log (config o built) (manager_options o))
          (made_manager (config o built) (manager_options o))
    run_manager mgr
