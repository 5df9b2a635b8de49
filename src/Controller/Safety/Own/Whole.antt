-- ===== src/Controller/Safety/Own/Whole.antt =====
-- The whole clean-up of a machine (pkg/controller/util.go).
use docker_machine_operator.Base.{String, ◌≡◌, refl, inl, inr, Option, none, some}
use docker_machine_operator.Go.Error.{Error}
use docker_machine_operator.Api.Types.{Machine}
use docker_machine_operator.Env.Event.{removed_file}
use docker_machine_operator.Env.{Env}
use docker_machine_operator.Effect.{State}
use docker_machine_operator.Effect.Footprint.{Extends}
use docker_machine_operator.Effect.Within.{
  Within, Within-bind, Within-machine_bind, Within-call_error, Within-call_value, Within-if,
  Within-skip, Within-attempt, within_rules,
}
use docker_machine_operator.Controller.Files.{
  remove_file, delete_files, get_script_file_path, run_docker_machine, ignore_not_found,
  delete_docker_machine,
}
use docker_machine_operator.Controller.Cleanup.{cleanup_cloud, cleanup_machine_resources}
use docker_machine_operator.Controller.Safety.Own.{IsOwn, driver_name-Within, fail_if_exist-Within}
use docker_machine_operator.Controller.Safety.Own.Network.{
  cleanup_aws_resources-Within, delete_azure_resource_group-Within,
}

module _ (env : Env) (m : Machine) where
  remove_file-Within :
      (path : String)
      → ((r : Option Error) → IsOwn m (removed_file path r))
      → Within m (IsOwn m) (remove_file env path)
  unfolding remove_file
  remove_file-Within path h = Within-call_error _ _ h

  delete_files-Within : Within m (IsOwn m) (delete_files env)
  unfolding delete_files get_script_file_path
  delete_files-Within = Within-machine_bind _ (
      Within-bind _ _ (Within-attempt _ (remove_file-Within _ (λ r. inl refl))) λ r.
        Within-bind _ _ (fail_if_exist-Within r) λ _.
          Within-bind _ _ (Within-attempt _ (remove_file-Within _ (λ r. inr refl)))
            fail_if_exist-Within)

  ignore_not_found-Within : (e : Option Error) → Within m (IsOwn m) (ignore_not_found env e)
  ignore_not_found-Within none = search within_rules
  ignore_not_found-Within (some e) = search within_rules

  delete_docker_machine-Within : Within m (IsOwn m) (delete_docker_machine env)
  unfolding delete_docker_machine run_docker_machine
  delete_docker_machine-Within =
      Within-machine_bind _
        (Within-bind _ _ (Within-call_value _ _ (λ r. refl)) λ c. ignore_not_found-Within c.error)

  cleanup_cloud-Within : (driver : String) → Within m (IsOwn m) (cleanup_cloud env driver)
  unfolding cleanup_cloud
  cleanup_cloud-Within driver =
      Within-if _ _ _ (cleanup_aws_resources-Within env m)
        (Within-if _ _ _ (delete_azure_resource_group-Within env m) Within-skip)

  cleanup-Within : Within m (IsOwn m) (cleanup_machine_resources env)
  unfolding cleanup_machine_resources
  cleanup-Within = Within-bind _ _ delete_files-Within λ _.
      Within-bind _ _ delete_docker_machine-Within
        λ _. Within-bind _ _ driver_name-Within cleanup_cloud-Within

  -- Whatever the environment answers, the clean-up of the machine in memory runs no command but
  -- `docker-machine rm` of its name, removes no file but /tmp/<namespace>-<name>-startup.sh and
  -- tmpresult.txt in the working directory, deletes no VPC, subnet, gateway and resource group but the ones that it names, makes nothing on AWS and writes
  -- nothing to the API server, and leaves the machine as it is.
  pub cleanup_machine_resources-IsOwn :
      (s : State)
      → s.machine_obj ≡ some m
      → Extends (IsOwn m) s.log (cleanup_machine_resources env s).1.log
        × ((cleanup_machine_resources env s).1.machine_obj ≡ some m)
  cleanup_machine_resources-IsOwn s h = cleanup-Within.at s h
