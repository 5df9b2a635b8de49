-- ===== src/Controller/Files.antt =====
-- pkg/controller/util.go: the files of a machine, and `docker-machine rm`.
use docker_machine_operator.Base.{String, ◌<>◌, Option, none, some, List, [], ◌∷◌, if◌then◌else◌}
use docker_machine_operator.Go.Error.{Error, Except, ok, err, is_exist}
use docker_machine_operator.Api.Types.{Machine}
use docker_machine_operator.Env.Event.{Command, ran, removed_file}
use docker_machine_operator.Env.{Env}
use docker_machine_operator.Effect.{
  Action, skip, fail, attempt, call_error, call_value, machine, ◌>>=◌, ◌>>◌,
}

abbrev pub temp_directory : String
temp_directory = "tmp"

-- `fmt.Sprintf("/%s/%s-%s-startup.sh", tempDirectory, namespace, name)`
abbrev pub script_path : String → String → String
script_path namespace name =
    "/" <> (temp_directory <> ("/" <> (namespace <> ("-" <> (name <> "-startup.sh")))))

unfoldable pub get_script_file_path : Machine → String
get_script_file_path m = script_path m.namespace m.name

-- `tempDirectory + "result.txt"`, the path that `deleteFiles` removes.
abbrev pub deleted_result_path : String
deleted_result_path = temp_directory <> "result.txt"

-- `if err != nil && os.IsExist(err) { return err }`
abbrev pub fail_if_exist : Except Unit → Action Unit
fail_if_exist (ok _) = skip
fail_if_exist (err e) = if is_exist e then fail e else skip

abbrev pub rm_args : String → List String
rm_args name = "rm" ∷ name ∷ "-y" ∷ []

module _ (env : Env) where
  unfoldable pub remove_file : String → Action Unit
  remove_file path = call_error (λ h. env.remove_file h path) (removed_file path)

  unfoldable pub delete_files : Action Unit
  unfolding remove_file
  delete_files = do
    m ← machine
    r ← attempt (remove_file (get_script_file_path m))
    fail_if_exist r
    r ← attempt (remove_file deleted_result_path)
    fail_if_exist r

  -- `exec.Command("docker-machine", args...)`, run with its output captured.
  unfoldable pub run_docker_machine : List String → Action Command
  run_docker_machine args = call_value (λ h. env.run h none args) (ran none args)

  -- `client.IgnoreNotFound(err)`, on the error of the command.
  abbrev pub ignore_not_found : Option Error → Action Unit
  ignore_not_found none = skip
  ignore_not_found (some e) = if env.is_not_found e then skip else fail e

  unfoldable pub delete_docker_machine : Action Unit
  unfolding run_docker_machine
  delete_docker_machine = do
    m ← machine
    c ← run_docker_machine (rm_args m.name)
    ignore_not_found c.error
