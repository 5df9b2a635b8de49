-- ===== src/Controller/Args.antt =====
-- pkg/controller/machine.go: the arguments of `docker-machine create`.
pub mod Flags
pub mod Order
pub mod Parts
pub mod Line
pub mod Script
pub mod Clash
use docker_machine_operator.Base.{
  String, ◌==◌, ◌<>◌, Bool, ◌||◌, not, Option, none, some, List, [], ◌∷◌, ◌++◌, if◌then◌else◌,
}
use docker_machine_operator.Go.Error.{Error, other, Except, ok, err, is_not_exist}
use docker_machine_operator.Go.Map.{GoMap}
use docker_machine_operator.Go.Text.{is_empty}
use docker_machine_operator.Go.Base64.{encode_to_string}
use docker_machine_operator.Api.Types.{Machine, ObjectReference, key_of}
use docker_machine_operator.Api.Names.{script_ready, auth_data_ready}
use docker_machine_operator.Api.Reason
use docker_machine_operator.Env.Event.{stat_file, wrote_file}
use docker_machine_operator.Env.{Env}
use docker_machine_operator.Effect.{
  Action, pure, skip, fail, lift, call_error, attempt, machine, ◌>>=◌, ◌>>◌,
}
use docker_machine_operator.Controller.Status.{mark_true, mark_false, update_machine_status}
use docker_machine_operator.Controller.Files.{get_script_file_path}
use docker_machine_operator.Controller.Secret.{google_driver, driver_name, get_secret}
use docker_machine_operator.Controller.Aws.{get_annotations_args_for_aws}
use docker_machine_operator.Controller.Region.{get_ami_id_arg}

-- `fmt.Sprintf("--%s", key)`
abbrev pub flag : String → String
flag key = "--" <> key

-- The loop over the parameters, which appends to `args`.
unfoldable pub append_parameters : List String → GoMap → List String
append_parameters args [] = args
append_parameters args ((k, v) ∷ m) = append_parameters ((args ++ flag k ∷ []) ++ v ∷ []) m

-- The text that stands for a value of the secret: base64 for Google.
abbrev pub auth_data : String → String → String
auth_data driver value = if driver == google_driver then encode_to_string value else value

-- The loop over the secret, which returns at an empty key or value. The driver is one that the
-- caller has read.
unfoldable pub append_auth : String → List String → GoMap → Except (List String)
append_auth driver args [] = ok args
append_auth driver args ((key, value) ∷ m) =
    let rest = append_auth driver ((args ++ flag key ∷ []) ++ auth_data driver value ∷ []) m in
    if is_empty (auth_data driver value) || is_empty key
    then err (other "auth secret not found")
    else rest

-- The loop over the script's secret: it stops at the first key that is not empty.
abbrev pub user_data : String → String → GoMap → String × String
user_data key value [] = (key, value)
user_data key value ((k, v) ∷ m) = if is_empty k then user_data k v m else (k, v)

abbrev pub script_args_of : String → String → List String
script_args_of key path = flag key ∷ path ∷ []

module _ (env : Env) where
  unfoldable pub get_auth_secret_args : Action (List String)
  get_auth_secret_args = do
    m ← machine
    secret ← get_secret env m.spec.auth_secret
    driver ← driver_name
    lift (append_auth driver [] secret)

  -- What follows `os.Stat`: a file that is there is kept as it is.
  unfoldable pub ensure_script : String → String → Except Unit → Action Unit
  ensure_script path value (ok _) = skip
  ensure_script path value (err e) =
      if not (is_not_exist e)
      then fail e
      else call_error (λ h. env.write_file h path value) (wrote_file path value)

  unfoldable pub write_script : String → String → String → Action (List String)
  unfolding ensure_script
  write_script path key value =
      if is_empty key || is_empty value then fail (other "script data not found") else do
        there ← attempt (call_error (λ h. env.stat h path) (stat_file path))
        ensure_script path value there
        pure (script_args_of key path)

  unfoldable pub get_startup_script_args : Action (List String)
  unfolding write_script
  get_startup_script_args = do
    m ← machine
    secret ← get_secret env m.spec.script_ref
    write_script (get_script_file_path m) (user_data "" "" secret).0 (user_data "" "" secret).1

  -- The condition that records whether the data was found.
  unfoldable pub recorded : String → String → String → Except (List String) → Action (List String)
  recorded kind reason text (ok args) = do mark_true env kind; pure args
  recorded kind reason text (err e) = do mark_false env kind reason text; fail e

  unfoldable pub script_args : Option ObjectReference → Action (List String)
  unfolding recorded
  script_args none = pure []
  script_args (some ref) = do
    r ← attempt get_startup_script_args
    recorded script_ready Reason.script_data_not_found "unable to create script" r

  unfoldable pub auth_args : Action (List String)
  unfolding recorded
  auth_args = do
    r ← attempt get_auth_secret_args
    recorded auth_data_ready Reason.auth_data_not_found "unable to read auth data" r

  unfoldable pub get_machine_creation_args : Action (List String)
  get_machine_creation_args = do
    driver ← driver_name
    m ← machine
    let args = append_parameters ("create" ∷ "--driver" ∷ driver ∷ []) m.spec.parameters
    script ← script_args m.spec.script_ref
    auth ← auth_args
    m ← machine
    let ami = get_ami_id_arg m
    network ← get_annotations_args_for_aws
    update_machine_status env (key_of m)
    pure (args ++ (script ++ (auth ++ (ami ++ (network ++ m.name ∷ [])))))
