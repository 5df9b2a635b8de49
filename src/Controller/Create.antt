-- ===== src/Controller/Create.antt =====
-- pkg/controller/machine.go: `createMachine`.
pub mod Once
pub mod Accepted
pub mod Runs
pub mod Networked
pub mod Scripted
use docker_machine_operator.Base.{
  String, ◌==◌, ◌<>◌, ℕ, ◌*◌, Bool, ◌||◌, Option, none, some, List, if◌then◌else◌,
}
use docker_machine_operator.Go.Error.{Error, message}
use docker_machine_operator.Go.Text.{contains}
use docker_machine_operator.Api.Types.{Machine, key_of}
use docker_machine_operator.Api.Names.{machine_ready, machine_creating}
use docker_machine_operator.Api.Reason
use docker_machine_operator.Env.Event.{Command, ran}
use docker_machine_operator.Env.{Env}
use docker_machine_operator.Effect.{Action, skip, fail, call_value, machine, ◌>>=◌, ◌>>◌}
use docker_machine_operator.Controller.Status.{
  is_true, mark_true, mark_false, update_machine_status, set_initial_conditions,
}
use docker_machine_operator.Controller.Secret.{driver_name, aws_driver}
use docker_machine_operator.Controller.Aws.Vpc.{create_aws_environment}
use docker_machine_operator.Controller.Args.{get_machine_creation_args}

-- 15 minutes, in seconds.
abbrev pub machine_creation_timeout : ℕ
machine_creation_timeout = 15 * 60

module _ (env : Env) where
  -- Nothing is created once either condition is true.
  abbrev pub is_created : Machine → Bool
  is_created m = is_true env m machine_creating || is_true env m machine_ready

  unfoldable pub create_prerequisites_for_machine : Action Unit
  create_prerequisites_for_machine = do
    driver ← driver_name
    if driver == aws_driver then create_aws_environment env else skip

  -- `docker-machine` under the deadline.
  unfoldable pub run_with_timeout : List String → Action Command
  run_with_timeout args =
      call_value (λ h. env.run h (some machine_creation_timeout) args)
        (ran (some machine_creation_timeout) args)

  unfoldable pub creation_succeeded : Action Unit
  creation_succeeded = do
    mark_true env machine_ready
    m ← machine
    update_machine_status env (key_of m)

  unfoldable pub creation_failed : Error → Action Unit
  creation_failed e = do
    mark_false env machine_ready Reason.machine_creation_failed
        ("unable to create docker machine. err: " <> message e)
    fail e

  -- A host that exists already counts as created.
  unfoldable pub creation_result : Option Error → String → Action Unit
  unfolding creation_succeeded creation_failed
  creation_result none stderr = creation_succeeded
  creation_result (some e) stderr =
      if contains stderr "already exists" then creation_succeeded else creation_failed e

  -- From where the arguments are known.
  unfoldable pub run_creation : List String → Action Unit
  unfolding creation_result
  run_creation args = do
    mark_true env machine_creating
    c ← run_with_timeout args
    creation_result c.error c.stderr

  unfoldable pub create_machine_now : Action Unit
  unfolding run_creation
  create_machine_now = do
    set_initial_conditions env
    create_prerequisites_for_machine
    args ← get_machine_creation_args env
    run_creation args

  unfoldable pub create_machine : Action Unit
  unfolding create_machine_now
  create_machine = do m ← machine; if is_created m then skip else create_machine_now
