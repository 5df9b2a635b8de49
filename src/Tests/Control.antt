-- ===== src/Tests/Control.antt =====
-- The theorems on the controller, at concrete states of the environment of the tests.
use docker_machine_operator.Base.{true, ◌*◌, ◌≡◌, refl, none, some, [], ◌∷◌, inr}
use docker_machine_operator.Go.Error.{Error, api, other, ok, err}
use docker_machine_operator.Api.Types.{Machine, set_conditions}
use docker_machine_operator.Api.Names.{machine_creating, machine_ready}
use docker_machine_operator.Env.Event.{got_machine}
use docker_machine_operator.Env.{Env}
use docker_machine_operator.Effect.{State, aborted, nil_dereference}
use docker_machine_operator.Effect.Footprint.{Extends}
use docker_machine_operator.Controller.Wait.{second, wait_for_state}
use docker_machine_operator.Controller.Wait.Bound.{EndsWithin}
use docker_machine_operator.Controller.Aws.Vpc.{is_available}
use docker_machine_operator.Controller.Aws.Vpc.Available.{wait_available-EndsWithin}
use docker_machine_operator.Controller.Status.{summarised, mark_true}
use docker_machine_operator.Controller.Safety.Protected.{BuildsNothing}
use docker_machine_operator.Controller.Safety.Once.{reconcile-created}
use docker_machine_operator.Controller.Reconcile.{reconcile}
use docker_machine_operator.Controller.Reconcile.Unread.{reconcile-aborts}
use docker_machine_operator.Controller.Safety.Events.{IsPhaseRight, KeepsMachine, CreatesNothing}
use docker_machine_operator.Controller.Safety.Calls.{
  reconcile-IsPhaseRight, reconcile-KeepsMachine, reconcile-CreatesNothing,
}
use docker_machine_operator.Controller.Safety.Guard.{IsGuarded}
use docker_machine_operator.Effect.Staged.{Staged}
use docker_machine_operator.Controller.Stages.{stage_of}
use docker_machine_operator.Controller.Stages.Whole.{reconcile-IsStaged}
use docker_machine_operator.Controller.Worker.{serve}
use docker_machine_operator.Controller.Safety.Finalizer.{serve-IsGuarded}
use docker_machine_operator.Tests.Fixtures.{conditions, env_of, fresh, ready, marked, key}

-- Nothing was called yet, and no machine was read.
abbrev start : State
start = record { machine_obj = none; log = [] }

abbrev holding : Machine → State
holding m = record { machine_obj = some m; log = [] }

abbrev lost : Error
lost = api "ServiceUnavailable" "try again"

abbrev missing : Error
missing = api "NotFound" "machines worker not found"

-- Environments: the machine that is stored, how `docker-machine` ends, and the script's result.
abbrev live_env : Env
live_env = env_of (ok ready) none "done\n0\n"

abbrev marked_env : Env
marked_env = env_of (ok marked) none ""

abbrev failing_env : Env
failing_env = env_of (ok ready) (some (other "exit status 1")) ""

serve-IsGuarded_example : IsGuarded marked_env (serve marked_env (key ∷ key ∷ []) start).log
serve-IsGuarded_example = serve-IsGuarded marked_env (key ∷ key ∷ []) start tt

reconcile-IsPhaseRight_example : Extends IsPhaseRight [] (reconcile live_env key start).1.log
reconcile-IsPhaseRight_example = reconcile-IsPhaseRight live_env key start

reconcile-KeepsMachine_example : Extends KeepsMachine [] (reconcile live_env key start).1.log
reconcile-KeepsMachine_example = reconcile-KeepsMachine live_env key start refl refl

reconcile-CreatesNothing_example : Extends CreatesNothing [] (reconcile marked_env key start).1.log
reconcile-CreatesNothing_example = reconcile-CreatesNothing marked_env key start refl refl

reconcile-aborts_example : reconcile (env_of (err lost) none "") key start ≡ (
  aborted nil_dereference,
  record { machine_obj = none; log = got_machine key (err lost) ∷ [] },
)
reconcile-aborts_example = reconcile-aborts (env_of (err lost) none "") key start refl refl refl

wait_available-EndsWithin_example :
    EndsWithin 13 start
      (wait_for_state (5 * second) (60 * second) (is_available live_env 1 "vpc-1") start)
wait_available-EndsWithin_example = wait_available-EndsWithin live_env 1 "vpc-1" start

-- A machine as its creation leaves it.
abbrev left : Machine
left =
    let creating = set_conditions fresh (conditions.mark_true fresh machine_creating) in
    summarised (env_of (ok fresh) none "")
      (set_conditions creating (conditions.mark_true creating machine_ready))

abbrev once_env : Env
once_env = env_of (ok left) none ""

reconcile-IsStaged_example : Staged (stage_of true) 1 [] 7 (reconcile marked_env key start).1.log
reconcile-IsStaged_example = reconcile-IsStaged marked_env key start refl

abbrev created_env : Env
created_env = env_of (ok ready) none "0\n"

reconcile-created_example : Extends BuildsNothing [] (reconcile created_env key start).1.log
reconcile-created_example = reconcile-created created_env key start refl refl (inr refl)
