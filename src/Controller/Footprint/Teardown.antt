-- ===== src/Controller/Footprint/Teardown.antt =====
-- The calls that clean up after a machine that is marked for deletion.
use docker_machine_operator.Base.{String, Option, none, some}
use docker_machine_operator.Go.Error.{Error, Except, ok, err}
use docker_machine_operator.Api.Types.{key_of}
use docker_machine_operator.Api.Helper.{get_finalizer}
use docker_machine_operator.Env.Event.{Event, finalizer_removed}
use docker_machine_operator.Env.{Env}
use docker_machine_operator.Effect.Footprint.{
  Emits, Emits-if, Emits-skip, Emits-bind, Emits-machine, emits_rules,
}
use docker_machine_operator.Controller.Finalizer.{patch_finalizer}
use docker_machine_operator.Controller.Files.{
  fail_if_exist, remove_file, delete_files, ignore_not_found, delete_docker_machine,
}
use docker_machine_operator.Controller.Azure.{get_azure_credential, delete_azure_resource_group}
use docker_machine_operator.Controller.Cleanup.{
  cleanup_cloud, cleanup_machine_resources, remove_finalizer_after_cleanup,
}
use docker_machine_operator.Controller.Footprint.{
  StatusCalls, SecretCalls, NetworkDeletion, FileRemoval, HostRemoval, GroupDeletion, TeardownCalls,
  FinalizerRemoval,
}
use docker_machine_operator.Controller.Footprint.Status.{update_machine_status-Emits}
use docker_machine_operator.Controller.Footprint.Network.{
  driver_name-Emits, get_secret-Emits, cleanup_aws_resources-Emits,
}

module _ {P : Event → Type 0} where
  fail_if_exist-Emits : (r : Except Unit) → Emits P (fail_if_exist r)
  fail_if_exist-Emits (ok _) = search emits_rules
  fail_if_exist-Emits (err e) = search emits_rules

module _ (env : Env) {P : Event → Type 0} where
  ignore_not_found-Emits : (e : Option Error) → Emits P (ignore_not_found env e)
  ignore_not_found-Emits none = search emits_rules
  ignore_not_found-Emits (some e) = search emits_rules

module _ (env : Env) {P : Event → Type 0} (files : FileRemoval P) where
  remove_file-Emits : (path : String) → Emits P (remove_file env path)
  unfolding remove_file
  remove_file-Emits path = search (emits_rules, files.file)

  pub delete_files-Emits : Emits P (delete_files env)
  unfolding delete_files
  delete_files-Emits = search (emits_rules, remove_file-Emits, fail_if_exist-Emits) depth 9

module _ (env : Env) {P : Event → Type 0} (host : HostRemoval P) where
  pub delete_docker_machine-Emits : Emits P (delete_docker_machine env)
  unfolding delete_docker_machine
  delete_docker_machine-Emits = search (emits_rules, host.rm, ignore_not_found-Emits env) depth 8

module _ (env : Env) {P : Event → Type 0} (removal : FinalizerRemoval P) where
  pub patch_finalizer-Emits : Emits P (patch_finalizer env (finalizer_removed get_finalizer))
  unfolding patch_finalizer
  patch_finalizer-Emits = search (emits_rules, removal.finalizer)

module _ (env : Env) {P : Event → Type 0} (secrets : SecretCalls P) (deletion : NetworkDeletion P)
    (group : GroupDeletion P) where
  get_azure_credential-Emits : Emits P (get_azure_credential env)
  unfolding get_azure_credential
  get_azure_credential-Emits = search (emits_rules, get_secret-Emits env secrets) depth 8

  delete_azure_resource_group-Emits : Emits P (delete_azure_resource_group env)
  unfolding delete_azure_resource_group
  delete_azure_resource_group-Emits =
      search
        (
          emits_rules, get_azure_credential-Emits, group.credential, group.client, group.delete,
          group.poll,
        )
        depth 12

  pub cleanup_cloud-Emits : (driver : String) → Emits P (cleanup_cloud env driver)
  unfolding cleanup_cloud
  cleanup_cloud-Emits driver =
      Emits-if _ _ _ (cleanup_aws_resources-Emits env secrets deletion)
        (Emits-if _ _ _ delete_azure_resource_group-Emits Emits-skip)

module _ (env : Env) {P : Event → Type 0} (status : StatusCalls P) (secrets : SecretCalls P)
    (deletion : NetworkDeletion P) (teardown : TeardownCalls P) where
  cleanup_machine_resources-Emits : Emits P (cleanup_machine_resources env)
  unfolding cleanup_machine_resources
  cleanup_machine_resources-Emits = Emits-bind _ _ (delete_files-Emits env teardown.files) λ _.
      Emits-bind _ _ (delete_docker_machine-Emits env teardown.host) λ _.
        Emits-bind _ _ driver_name-Emits (cleanup_cloud-Emits env secrets deletion teardown.group)

  pub remove_finalizer_after_cleanup-Emits :
      FinalizerRemoval P → Emits P (remove_finalizer_after_cleanup env)
  unfolding remove_finalizer_after_cleanup
  remove_finalizer_after_cleanup-Emits removal = Emits-bind _ _ Emits-machine λ m.
      Emits-if _ _ _
        (Emits-bind _ _ (update_machine_status-Emits env status (key_of m)) λ _.
          Emits-bind _ _ cleanup_machine_resources-Emits λ _. patch_finalizer-Emits env removal)
        Emits-skip
