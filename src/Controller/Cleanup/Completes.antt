-- ===== src/Controller/Cleanup/Completes.antt =====
-- The clean-up of a machine (pkg/controller/util.go) when nothing fails.
use docker_machine_operator.Base.{
  String, ◌<>◌, true, false, ◌≡◌, ◌≢◌, refl, Option, none, some, List, [], ◌∷◌, ne-test,
}
use docker_machine_operator.Go.Error.{Error, ok, is_exist, of_error}
use docker_machine_operator.Api.Types.{LocalObjectReference, Machine, key_of}
use docker_machine_operator.Api.Helper.{get_finalizer}
use docker_machine_operator.Env.Event.{
  History, Command, got_machine, committed, ran, removed_file, patched, finalizer_removed,
}
use docker_machine_operator.Env.{Env}
use docker_machine_operator.Effect.{
  State, done, pure, skip, call, call_error, call_value, attempt, deref, machine, set_machine,
  ◌>>=◌,
}
use docker_machine_operator.Controller.Status.{set_summary, update_machine_status, summarised}
use docker_machine_operator.Controller.Finalizer.{transform, create_or_patch, patch_finalizer}
use docker_machine_operator.Controller.Files.{
  get_script_file_path, fail_if_exist, ignore_not_found, remove_file, delete_files,
  run_docker_machine, delete_docker_machine,
}
use docker_machine_operator.Controller.Secret.{driver_name, aws_driver, azure_driver}
use docker_machine_operator.Controller.Cleanup.{
  cleanup_cloud, cleanup_machine_resources, remove_finalizer_after_cleanup,
}

driver_name_lem :
    (m : Machine) (h : History) {driver : LocalObjectReference}
    → m.spec.driver ≡ some driver
    → driver_name (record { machine_obj = some m; log = h })
      ≡ (done driver.name, record { machine_obj = some m; log = h })
unfolding driver_name machine deref pure ◌>>=◌
driver_name_lem m h e = simp e

-- What the clean-up makes of an answer to the removal of a file: it goes on unless the error says that
-- the file exists.
pub data IsPassed : Option Error → Type 0 where
  removed : IsPassed none
  dropped : (e : Error) → is_exist e ≡ false → IsPassed (some e)

-- The machine's host is gone: the command went through, or its error says that it was not found.
pub data IsGone (env : Env) : Option Error → Type 0 where
  went : IsGone env none
  missing : (e : Error) → env.is_not_found e ≡ true → IsGone env (some e)

-- The files and the command of a machine, as they are named on the host.
abbrev pub script_file : Machine → String
script_file m = "/" <> ("tmp" <> ("/" <> (m.namespace <> ("-" <> (m.name <> "-startup.sh")))))

abbrev pub result_copy : String
result_copy = "tmpresult.txt"

abbrev pub removal_command : Machine → List String
removal_command m = "rm" ∷ m.name ∷ "-y" ∷ []

module _ (env : Env) (m : Machine) (h : History) where
  fail_if_exist-passed :
      (r : Option Error) (s : State) → IsPassed r → fail_if_exist (of_error r) s ≡ (done tt, s)
  unfolding skip pure
  fail_if_exist-passed _ s removed = refl
  fail_if_exist-passed _ s (dropped e k) = rw k refl

  remove_file-answers :
      (path : String) (r : Option Error)
      → env.remove_file h path ≡ r
      → IsPassed r
      → attempt (remove_file env path) (record { machine_obj = some m; log = h })
        ≡ (done (of_error r), record { machine_obj = some m; log = removed_file path r ∷ h })
  unfolding remove_file attempt call_error
  remove_file-answers path _ e removed = rw e refl
  remove_file-answers path _ e (dropped x k) = rw e refl

  delete_docker_machine-gone :
      (c : Command)
      → env.run h none (removal_command m) ≡ c
      → IsGone env c.error
      → delete_docker_machine env (record { machine_obj = some m; log = h })
        ≡ (done tt, record { machine_obj = some m; log = ran none (removal_command m) c ∷ h })
  unfolding delete_docker_machine run_docker_machine call_value machine ◌>>=◌ skip pure
  delete_docker_machine-gone c e gone = rw e (ignored c.error gone)
    where
      ignored :
          (o : Option Error)
          → IsGone env o
          → ignore_not_found env o
              (record { machine_obj = some m; log = ran none (removal_command m) c ∷ h })
            ≡ (done tt, record { machine_obj = some m; log = ran none (removal_command m) c ∷ h })
      ignored _ went = refl
      ignored _ (missing x k) = rw k refl

-- The calls of a deletion that goes through, the last first: the status is stored, the two files and
-- the machine are removed, then the finalizer.
module _ (h : History) (env : Env) (m server stored : Machine) (script result : Option Error) where
  abbrev pub deletion_status : History
  deletion_status =
      committed server (summarised env m) (ok stored) ∷ got_machine (key_of m) (ok server) ∷ h

  abbrev pub deletion_script : History
  deletion_script = removed_file (script_file stored) script ∷ deletion_status

  abbrev pub deletion_files : History
  deletion_files = removed_file result_copy result ∷ deletion_script

  abbrev pub deletion_run : Command → History
  deletion_run c = ran none (removal_command stored) c ∷ deletion_files

  abbrev pub deletion_done : Command → Machine → History
  deletion_done c patched_m =
      patched stored (finalizer_removed get_finalizer) (ok patched_m) ∷ deletion_run c

module _ (env : Env) (h : History) {m server stored patched_m : Machine}
    {script result : Option Error} {c : Command} {driver : LocalObjectReference}
    (has_finalizer : env.contains_finalizer m get_finalizer ≡ true)
    (has_driver : stored.spec.driver ≡ some driver) (not_aws : driver.name ≢ aws_driver)
    (not_azure : driver.name ≢ azure_driver) (reads : env.get_machine h (key_of m) ≡ ok server)
    (stores : env.commit_status (got_machine (key_of m) (ok server) ∷ h) server (summarised env m)
      ≡ ok stored)
    (no_script : env.remove_file
        (deletion_status h env m server stored script result)
        (script_file stored)
      ≡ script)
    (script_passed : IsPassed script)
    (no_result : env.remove_file (deletion_script h env m server stored script result) result_copy
      ≡ result)
    (result_passed : IsPassed result)
    (runs : env.run
        (deletion_files h env m server stored script result)
        none
        (removal_command stored)
      ≡ c)
    (gone : IsGone env c.error)
    (patches : env.create_or_patch
        (deletion_run h env m server stored script result c)
        stored
        (transform env (finalizer_removed get_finalizer))
      ≡ ok patched_m) where
  files-passed :
      delete_files env (record {
        machine_obj = some stored;
        log = deletion_status h env m server stored script result;
      })
      ≡ (
        done tt,
        record {
          machine_obj = some stored;
          log = deletion_files h env m server stored script result;
        },
      )
  unfolding delete_files get_script_file_path machine ◌>>=◌
  files-passed =
      let at_status =
        remove_file-answers env stored _ (script_file stored) script no_script script_passed in
      let at_script = remove_file-answers env stored _ result_copy result no_result result_passed in
      rw at_status (
        rw (fail_if_exist-passed env m h script _ script_passed)
          (rw at_script (fail_if_exist-passed env m h result _ result_passed)))

  -- If a machine has the finalizer, its driver is neither that of AWS nor that of Azure, its status can
  -- be read and written, the removal of each of its two files goes through or fails with another error
  -- than that the file exists, `docker-machine rm` of it goes through or fails with an error that it is
  -- not found, and the finalizer can be patched: then the clean-up returns without an error, its calls
  -- are the status update, the removal of /tmp/<namespace>-<name>-startup.sh and of tmpresult.txt,
  -- `docker-machine rm <name> -y` and then the patch that removes the finalizer, and the machine in
  -- memory is the one that the patch gives.
  pub remove_finalizer_after_cleanup-completes :
      remove_finalizer_after_cleanup env (record { machine_obj = some m; log = h }) ≡ (
        done tt,
        record {
          machine_obj = some patched_m;
          log = deletion_done h env m server stored script result c patched_m;
        },
      )
  unfolding remove_finalizer_after_cleanup update_machine_status set_summary
      cleanup_machine_resources cleanup_cloud patch_finalizer create_or_patch call machine
      set_machine skip pure ◌>>=◌
  remove_finalizer_after_cleanup-completes =
      rw
        (
          has_finalizer,
          reads,
          stores,
          files-passed,
          delete_docker_machine-gone env stored _ c runs gone,
          driver_name_lem stored _ has_driver,
          ne-test _ _ not_aws,
          ne-test _ _ not_azure,
          patches,
        )
        refl
