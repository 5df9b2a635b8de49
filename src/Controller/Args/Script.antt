-- ===== src/Controller/Args/Script.antt =====
-- The line of `docker-machine create` for a machine with a startup script, and the script's file
-- (getStartupScriptArgs and getMachineCreationArgs of pkg/controller/machine.go).
use docker_machine_operator.Base.{
  String, ◌<>◌, ◌≡◌, refl, ap, ◌∙◌, true, false, none, some, List, [], ◌∷◌, ◌++◌, All, Option,
}
use docker_machine_operator.Go.Error.{Error, ok, is_not_exist}
use docker_machine_operator.Go.Map.{GoMap, get}
use docker_machine_operator.Go.Text.{is_empty}
use docker_machine_operator.Api.Types.{
  Machine, ObjectReference, LocalObjectReference, key_of, set_conditions,
}
use docker_machine_operator.Api.Names.{script_ready, auth_data_ready}
use docker_machine_operator.Env.Event.{History, got_secret, stat_file, wrote_file}
use docker_machine_operator.Env.{Env}
use docker_machine_operator.Effect.{
  done, pure, call, call_error, attempt, machine, set_machine, skip, deref, lift, ◌>>=◌, ◌>>◌,
}
use docker_machine_operator.Controller.Status.{mark_true, update_machine_status}
use docker_machine_operator.Controller.Files.{get_script_file_path}
use docker_machine_operator.Controller.Secret.{driver_name, object_key, get_secret}
use docker_machine_operator.Controller.Aws.{get_annotations_args_for_aws}
use docker_machine_operator.Controller.Region.{ami_ids}
use docker_machine_operator.Controller.Args.{
  flag, user_data, get_auth_secret_args, ensure_script, write_script, get_startup_script_args,
  recorded, script_args, auth_args, get_machine_creation_args,
}
use docker_machine_operator.Controller.Args.Parts.{
  credential, script_file, network_args, image_args, get_ami_id_arg_lem,
}
use docker_machine_operator.Controller.Args.Flags.{
  flags_of, same_text, append_parameters_lem, IsUsable, append_auth-eq-ok,
}

-- The file of a script has been provided for: it was there and was left as it is, or it was missing
-- and was written with this text.
pub data IsPlaced (env : Env) (path text : String) (h : History) : History → Type 0 where
  kept : env.stat h path ≡ none → IsPlaced env path text h (stat_file path none ∷ h)
  made :
      (e : Error)
      → env.stat h path ≡ some e
      → is_not_exist e ≡ true
      → env.write_file (stat_file path (some e) ∷ h) path text ≡ none
      → IsPlaced env path text h (wrote_file path text none ∷ stat_file path (some e) ∷ h)

-- The script in a secret: the first entry whose key is not empty, which has a text.
pub record IsScript (secret : GoMap) (key text : String) : Type 0 where
  pub before : GoMap
  pub after : GoMap
  pub split : secret ≡ before ++ ((key, text) ∷ after)
  pub keyless : All (λ entry. is_empty entry.0 ≡ true) before
  pub keyed : is_empty key ≡ false
  pub full : is_empty text ≡ false

user_data-first :
    (k v key text : String) (before after : GoMap)
    → All (λ entry. is_empty entry.0 ≡ true) before
    → is_empty key ≡ false
    → user_data k v (before ++ ((key, text) ∷ after)) ≡ (key, text)
user_data-first k v key text [] after h keyed = rw keyed refl
user_data-first k v key text ((k', v') ∷ before) after (e, h) keyed =
    rw e (user_data-first k' v' key text before after h keyed)

pub user_data-script :
    {secret : GoMap} {key text : String}
    → IsScript secret key text
    → user_data "" "" secret ≡ (key, text)
user_data-script {key} {text} script =
    ap (user_data "" "") script.split
    ∙ user_data-first "" "" key text script.before script.after script.keyless script.keyed

-- The line for a machine whose script is under this key.
abbrev pub scripted_line : Machine → String → GoMap → String → List String
scripted_line m driver secret key =
    (("create" ∷ "--driver" ∷ driver ∷ []) ++ flags_of same_text m.spec.parameters)
    ++ ((("--" <> key) ∷ script_file m.namespace m.name ∷ [])
        ++ (flags_of (credential driver) secret
            ++ (image_args (get "amazonec2-region" m.spec.parameters) ami_ids
                ++ (network_args driver m ++ m.name ∷ []))))

module _ (env : Env) where
  abbrev pub with_script : Machine → Machine
  with_script m = set_conditions m (env.mark_true m script_ready)

  abbrev pub with_credentials : Machine → Machine
  with_credentials m = set_conditions m (env.mark_true m auth_data_ready)

  pub write_script-placed :
      (path key text : String) (o : Option Machine) {h h' : History}
      → is_empty key ≡ false
      → is_empty text ≡ false
      → IsPlaced env path text h h'
      → write_script env path key text (record { machine_obj = o; log = h })
        ≡ (done (flag key ∷ path ∷ []), record { machine_obj = o; log = h' })
  unfolding write_script ensure_script skip attempt call_error pure ◌>>=◌
  write_script-placed path key text o keyed full (kept there) = rw (keyed, full, there) refl
  write_script-placed path key text o keyed full (made e missing is wrote) =
      rw (keyed, full, missing, is, wrote) refl

  -- A script that the machine's reference leads to.
  script_args-placed :
      {h' : History} {scripts : GoMap} {key text : String} (m : Machine) (h : History)
      (ref : ObjectReference)
      → m.spec.script_ref ≡ some ref
      → env.get_secret h (object_key ref) ≡ ok scripts
      → IsScript scripts key text
      → IsPlaced env (get_script_file_path m) text (got_secret (object_key ref) (ok scripts) ∷ h) h'
      → script_args env m.spec.script_ref (record { machine_obj = some m; log = h }) ≡ (
        done (flag key ∷ get_script_file_path m ∷ []),
        record { machine_obj = some (with_script m); log = h' },
      )
  unfolding script_args get_startup_script_args recorded get_secret mark_true pure call attempt
      machine set_machine deref ◌>>=◌
  script_args-placed {key} {text} m h ref named found script placed =
      let placing =
        write_script-placed (get_script_file_path m) key text (some m) script.keyed script.full
          placed in
      simp (named, found, user_data-script script, placing)

  module _ {refs refa : ObjectReference} {scripts secret : GoMap} {key text : String} where
    -- If a machine's script can be read and its file is there or can be written, and its secret can be
    -- read and is usable, then its line has, between its parameters and its credentials, the flag of
    -- the script's key with the file's path, and the script and then the credentials are set as ready;
    -- the file is written only where it was missing, and before the secret is read.
    pub get_machine_creation_args-scripted :
        (m : Machine) (h h' : History) (driver : LocalObjectReference)
        → m.spec.driver ≡ some driver
        → m.spec.script_ref ≡ some refs
        → m.spec.auth_secret ≡ some refa
        → env.get_secret h (object_key refs) ≡ ok scripts
        → IsScript scripts key text
        → IsPlaced env
            (get_script_file_path m)
            text
            (got_secret (object_key refs) (ok scripts) ∷ h)
            h'
        → env.get_secret h' (object_key refa) ≡ ok secret
        → All (IsUsable driver.name) secret
        → get_machine_creation_args env (record { machine_obj = some m; log = h })
          ≡ (update_machine_status env (key_of m) >> pure (scripted_line m driver.name secret key))
              (record {
                machine_obj = some (with_credentials (with_script m));
                log = got_secret (object_key refa) (ok secret) ∷ h';
              })
    unfolding get_machine_creation_args auth_args get_auth_secret_args recorded
        get_annotations_args_for_aws driver_name get_secret mark_true pure call attempt machine
        set_machine deref lift ◌>>=◌ get_script_file_path
    get_machine_creation_args-scripted m h h' driver named has auth readable script placed found
          usable =
        let accepted = (append_auth-eq-ok driver.name secret _).1 (usable, refl) in
        let scripted = script_args-placed m h refs has readable script placed in
        simp (named, scripted, auth, found, accepted, append_parameters_lem, get_ami_id_arg_lem)
