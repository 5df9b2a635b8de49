-- ===== src/Controller/Worker.antt =====
-- The manager's worker for machines, which hands the requests to `Reconcile`
-- (pkg/controller/machine_controller.go) one after the other.
pub mod Runs
use docker_machine_operator.Base.{List, [], ◌∷◌}
use docker_machine_operator.Api.Types.{ObjectKey}
use docker_machine_operator.Env.{Env}
use docker_machine_operator.Effect.{State}
use docker_machine_operator.Controller.Reconcile.{reconcile}

-- The object in memory stays between the requests.
unfoldable pub serve : Env → List ObjectKey → State → State
serve env [] s = s
serve env (key ∷ keys) s = serve env keys (reconcile env key s).1
