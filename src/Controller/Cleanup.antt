-- ===== src/Controller/Cleanup.antt =====
-- pkg/controller/util.go: what is deleted with a machine, and when its finalizer goes.
pub mod Completes
use docker_machine_operator.Base.{String, ◌==◌, if◌then◌else◌}
use docker_machine_operator.Api.Types.{key_of}
use docker_machine_operator.Api.Helper.{get_finalizer}
use docker_machine_operator.Env.Event.{finalizer_removed}
use docker_machine_operator.Env.{Env}
use docker_machine_operator.Effect.{Action, skip, machine, ◌>>=◌, ◌>>◌}
use docker_machine_operator.Controller.Status.{update_machine_status}
use docker_machine_operator.Controller.Finalizer.{patch_finalizer}
use docker_machine_operator.Controller.Files.{delete_files, delete_docker_machine}
use docker_machine_operator.Controller.Secret.{driver_name, aws_driver, azure_driver}
use docker_machine_operator.Controller.Aws.Vpc.{cleanup_aws_resources}
use docker_machine_operator.Controller.Azure.{delete_azure_resource_group}

module _ (env : Env) where
  -- The `switch` on the driver.
  unfoldable pub cleanup_cloud : String → Action Unit
  cleanup_cloud driver =
      if driver == aws_driver
      then cleanup_aws_resources env
      else if driver == azure_driver
      then delete_azure_resource_group env
      else skip

  unfoldable pub cleanup_machine_resources : Action Unit
  unfolding cleanup_cloud
  cleanup_machine_resources = do
    delete_files env
    delete_docker_machine env
    driver ← driver_name
    cleanup_cloud driver

  unfoldable pub remove_finalizer_after_cleanup : Action Unit
  remove_finalizer_after_cleanup = do
    m ← machine
    if env.contains_finalizer m get_finalizer
        then (do
          update_machine_status env (key_of m)
          cleanup_machine_resources
          patch_finalizer env (finalizer_removed get_finalizer))
        else skip
