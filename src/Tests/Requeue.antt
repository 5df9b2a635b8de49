-- ===== src/Tests/Requeue.antt =====
-- The theorem on when a reconcile asks for another one, at a concrete input.
use docker_machine_operator.Base.{none, some, []}
use docker_machine_operator.Go.Error.{other, ok}
use docker_machine_operator.Env.{Env}
use docker_machine_operator.Effect.{State}
use docker_machine_operator.Controller.Status.{CtrlResult}
use docker_machine_operator.Tests.Fixtures.{env_of, ready}

-- The result of the script cannot be copied yet.
abbrev waiting_env : Env
waiting_env = env_of (ok ready) (some (other "exit status 1")) ""

abbrev start : State
start = record { machine_obj = none; log = [] }

abbrev in_a_minute : CtrlResult
in_a_minute = record { requeue_after = 60 }
