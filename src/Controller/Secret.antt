-- ===== src/Controller/Secret.antt =====
-- pkg/controller/machine.go and util.go: the driver of a machine, and the secrets that it names.
use docker_machine_operator.Base.{String, Option}
use docker_machine_operator.Go.Map.{GoMap}
use docker_machine_operator.Api.Types.{ObjectKey, ObjectReference}
use docker_machine_operator.Env.Event.{got_secret}
use docker_machine_operator.Env.{Env}
use docker_machine_operator.Effect.{Action, pure, call, deref, machine, ◌>>=◌}

abbrev pub google_driver : String
google_driver = "google"

abbrev pub aws_driver : String
aws_driver = "amazonec2"

abbrev pub azure_driver : String
azure_driver = "azure"

-- `r.machineObj.Spec.Driver.Name`
unfoldable pub driver_name : Action String
driver_name = do m ← machine; driver ← deref m.spec.driver; pure driver.name

-- `secretRef.ObjectKey()`
abbrev pub object_key : ObjectReference → ObjectKey
object_key ref = record { namespace = ref.namespace; name = ref.name }

module _ (env : Env) where
  unfoldable pub get_secret : Option ObjectReference → Action GoMap
  get_secret secret_ref = do
    ref ← deref secret_ref
    call (λ h. env.get_secret h (object_key ref)) (got_secret (object_key ref))
