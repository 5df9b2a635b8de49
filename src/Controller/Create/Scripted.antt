-- ===== src/Controller/Create/Scripted.antt =====
-- The creation of a machine with a startup script, where the API server and the files answer
-- (pkg/controller/machine.go).
use docker_machine_operator.Base.{String, ◌==◌, ◌≡◌, ◌∙◌, false, some, ◌∷◌, All}
use docker_machine_operator.Go.Error.{ok}
use docker_machine_operator.Go.Map.{GoMap}
use docker_machine_operator.Api.Types.{Machine, ObjectReference, LocalObjectReference, key_of}
use docker_machine_operator.Env.Event.{succeeded, History, ran, got_secret}
use docker_machine_operator.Env.{Env}
use docker_machine_operator.Effect.{done, pure}
use docker_machine_operator.Effect.Returns.{done-bind}
use docker_machine_operator.Controller.Files.{get_script_file_path}
use docker_machine_operator.Controller.Secret.{aws_driver, object_key}
use docker_machine_operator.Controller.Region.{get_ami_id_arg}
use docker_machine_operator.Controller.Args.{get_machine_creation_args}
use docker_machine_operator.Controller.Args.Flags.{IsUsable}
use docker_machine_operator.Controller.Args.Script.{
  IsScript, IsPlaced, scripted_line, with_script, with_credentials,
  get_machine_creation_args-scripted,
}
use docker_machine_operator.Controller.Create.{machine_creation_timeout, is_created, create_machine}
use docker_machine_operator.Controller.Create.Accepted.{
  Accepts, written, update_machine_status-accepted, prepared, authorised, finished,
}
use docker_machine_operator.Controller.Create.Runs.{
  with_secret, prerequisites-skipped, create_machine-runs_with,
}

module _ (env : Env) (api : Accepts env) where
  -- The machine that has its script and its credentials.
  abbrev pub equipped : Machine → Machine
  equipped m = authorised env api (with_script env (prepared env api m))

  -- The calls up to where the script is read.
  abbrev pub reading : ObjectReference → GoMap → Machine → History → History
  reading refs scripts m h =
      got_secret (object_key refs) (ok scripts) ∷ written env api (prepared env api m) h

  -- The calls from the file of the script up to where the credentials are written as ready.
  abbrev pub equipping : ObjectReference → GoMap → Machine → History → History
  equipping refa secret m h' =
      with_secret env api refa secret (with_script env (prepared env api m)) h'

  module _ {refs refa : ObjectReference} {scripts secret : GoMap} {key text : String} where
    arguments-scripted :
        (m : Machine) (h h' : History) (driver : LocalObjectReference)
        → m.spec.driver ≡ some driver
        → m.spec.script_ref ≡ some refs
        → m.spec.auth_secret ≡ some refa
        → env.get_secret h (object_key refs) ≡ ok scripts
        → IsScript scripts key text
        → IsPlaced env
            (get_script_file_path m)
            text
            (got_secret (object_key refs) (ok scripts) ∷ h)
            h'
        → env.get_secret h' (object_key refa) ≡ ok secret
        → All (IsUsable driver.name) secret
        → get_machine_creation_args env (record { machine_obj = some m; log = h }) ≡ (
          done (scripted_line m driver.name secret key),
          record {
            machine_obj = some (authorised env api (with_script env m));
            log = with_secret env api refa secret (with_script env m) h';
          },
        )
    unfolding pure
    arguments-scripted m h h' driver named has auth readable script placed found usable =
        get_machine_creation_args-scripted env m h h' driver named has auth readable script placed
          found usable
        ∙ done-bind _ _ _ _ tt (
            update_machine_status-accepted env api (key_of m)
              (with_credentials env (with_script env m))
              (got_secret (object_key refa) (ok secret) ∷ h'))

    -- If the API server answers every read with a machine and takes every status, then a machine that is not created yet, is not on AWS, has a
    -- script that can be read and whose file is there or can be written, and has a secret that can be
    -- read and is usable, is created: its first conditions are written, its script is read and its file
    -- is looked for, and written if it is missing, then its secret is read, the credentials are written
    -- as ready, `docker-machine create` is run with a line that has the script's flag and file, and if
    -- that goes through, the machine is written as ready and no error is returned.
    pub create_machine-runs_scripted :
        (m : Machine) (h h' : History) (driver : LocalObjectReference) (output : String)
        (errors : String)
        → is_created env m ≡ false
        → m.spec.driver ≡ some driver
        → (driver.name == aws_driver) ≡ false
        → m.spec.script_ref ≡ some refs
        → m.spec.auth_secret ≡ some refa
        → env.get_secret (written env api (prepared env api m) h) (object_key refs) ≡ ok scripts
        → IsScript scripts key text
        → IsPlaced env (get_script_file_path m) text (reading refs scripts m h) h'
        → env.get_secret h' (object_key refa) ≡ ok secret
        → All (IsUsable driver.name) secret
        → env.run
            (equipping refa secret m h')
            (some machine_creation_timeout)
            (scripted_line m driver.name secret key)
          ≡ succeeded output errors
        → create_machine env (record { machine_obj = some m; log = h }) ≡ (
          done tt,
          record {
            machine_obj = some (finished env api (equipped m));
            log = written env api (finished env api (equipped m)) (
                ran
                  (some machine_creation_timeout)
                  (scripted_line m driver.name secret key)
                  (succeeded output errors)
                ∷ equipping refa secret m h');
          },
        )
    unfolding get_ami_id_arg get_script_file_path
    create_machine-runs_scripted m h h' driver output errors new named other has auth readable
          script placed found usable runs =
        let prepared_log = written env api (prepared env api m) h in
        create_machine-runs_with env api m h (scripted_line m driver.name secret key) output errors
          new (prerequisites-skipped env api (prepared env api m) prepared_log driver named other)
          (arguments-scripted (prepared env api m) prepared_log h' driver named has auth readable
            script placed found usable)
          runs
