-- ===== src/Controller/Create/Runs.antt =====
-- The creation of a machine where the API server answers, pkg/controller/machine.go.
use docker_machine_operator.Base.{String, ◌==◌, ◌≡◌, refl, ◌∙◌, false, none, some, List, ◌∷◌, All}
use docker_machine_operator.Go.Error.{ok}
use docker_machine_operator.Go.Map.{GoMap}
use docker_machine_operator.Api.Types.{Machine, ObjectReference, LocalObjectReference, key_of}
use docker_machine_operator.Api.Names.{machine_ready, machine_creating, auth_data_ready}
use docker_machine_operator.Env.Event.{succeeded, History, ran, got_secret}
use docker_machine_operator.Env.{Env}
use docker_machine_operator.Effect.{
  done, pure, call_value, machine, set_machine, skip, deref, ◌>>=◌, ◌>>◌,
}
use docker_machine_operator.Effect.Returns.{done-bind}
use docker_machine_operator.Controller.Status.{mark_true, mark_false, set_initial_conditions}
use docker_machine_operator.Controller.Secret.{aws_driver, driver_name, object_key}
use docker_machine_operator.Controller.Region.{get_ami_id_arg}
use docker_machine_operator.Controller.Args.{get_machine_creation_args}
use docker_machine_operator.Controller.Args.Flags.{IsUsable}
use docker_machine_operator.Controller.Args.Line.{line, get_machine_creation_args_lem}
use docker_machine_operator.Controller.Create.{
  machine_creation_timeout, is_created, create_prerequisites_for_machine, run_with_timeout,
  run_creation, creation_result, creation_succeeded, create_machine_now, create_machine,
}
use docker_machine_operator.Controller.Create.Accepted.{
  Accepts, with_true, initial, written, update_machine_status-accepted, prepared, authorised,
  finished, creating, created,
}

module _ (env : Env) (api : Accepts env) where
  set_initial_conditions-accepted :
      (m : Machine) (h : History)
      → set_initial_conditions env (record { machine_obj = some m; log = h }) ≡ (
        done tt,
        record {
          machine_obj = some (prepared env api m);
          log = written env api (prepared env api m) h;
        },
      )
  unfolding set_initial_conditions mark_false machine set_machine ◌>>=◌
  set_initial_conditions-accepted m h =
      update_machine_status-accepted env api (key_of m) (initial env m) h

  run_creation-accepted :
      (args : List String) (m : Machine) (h : History) (out text : String)
      → env.run h (some machine_creation_timeout) args ≡ succeeded out text
      → run_creation env args (record { machine_obj = some m; log = h }) ≡ (
        done tt,
        record {
          machine_obj = some (finished env api m);
          log =
              written env api
                (finished env api m)
                (ran (some machine_creation_timeout) args (succeeded out text) ∷ h);
        },
      )
  unfolding run_creation run_with_timeout creation_result creation_succeeded mark_true call_value
      machine set_machine ◌>>=◌
  run_creation-accepted args m h out text e = rw e (
      update_machine_status-accepted env api (key_of m)
        (with_true env machine_ready (with_true env machine_creating m))
        (ran (some machine_creation_timeout) args (succeeded out text) ∷ h))

  pub prerequisites-skipped :
      (m : Machine) (h : History) (driver : LocalObjectReference)
      → m.spec.driver ≡ some driver
      → (driver.name == aws_driver) ≡ false
      → create_prerequisites_for_machine env (record { machine_obj = some m; log = h })
        ≡ (done tt, record { machine_obj = some m; log = h })
  unfolding create_prerequisites_for_machine driver_name machine deref skip pure ◌>>=◌
  prerequisites-skipped m h driver named other = rw named (rw other refl)

  -- The calls that look for the credentials and write them as ready.
  abbrev pub with_secret : ObjectReference → GoMap → Machine → History → History
  with_secret ref secret m h =
      written env api (authorised env api m) (got_secret (object_key ref) (ok secret) ∷ h)

  arguments-accepted :
      (m : Machine) (h : History) (driver : LocalObjectReference) (ref : ObjectReference)
      (secret : GoMap)
      → m.spec.driver ≡ some driver
      → m.spec.script_ref ≡ none
      → m.spec.auth_secret ≡ some ref
      → env.get_secret h (object_key ref) ≡ ok secret
      → All (IsUsable driver.name) secret
      → get_machine_creation_args env (record { machine_obj = some m; log = h }) ≡ (
        done (line m driver.name secret),
        record { machine_obj = some (authorised env api m); log = with_secret ref secret m h },
      )
  unfolding get_ami_id_arg pure
  arguments-accepted m h driver ref secret named bare auth found usable =
      get_machine_creation_args_lem env (record { machine_obj = some m; log = h }) driver refl named
        bare auth found usable
      ∙ done-bind _ _ _ _ tt (
          update_machine_status-accepted env api (key_of m) (with_true env auth_data_ready m)
            (got_secret (object_key ref) (ok secret) ∷ h))

  -- A machine that is not created yet, with what its prerequisites leave and the arguments that are
  -- made of it.
  pub create_machine-runs_with :
      {m' m'' : Machine} {h' h'' : History} (m : Machine) (h : History) (args : List String)
      (out text : String)
      → is_created env m ≡ false
      → create_prerequisites_for_machine env (record {
        machine_obj = some (prepared env api m);
        log = written env api (prepared env api m) h;
      })
        ≡ (done tt, record { machine_obj = some m'; log = h' })
      → get_machine_creation_args env (record { machine_obj = some m'; log = h' })
        ≡ (done args, record { machine_obj = some m''; log = h'' })
      → env.run h'' (some machine_creation_timeout) args ≡ succeeded out text
      → create_machine env (record { machine_obj = some m; log = h }) ≡ (
        done tt,
        record {
          machine_obj = some (finished env api m'');
          log =
              written env api
                (finished env api m'')
                (ran (some machine_creation_timeout) args (succeeded out text) ∷ h'');
        },
      )
  unfolding create_machine create_machine_now machine ◌>>=◌
  create_machine-runs_with {m'} {m''} {h'} {h''} m h args out text new meets given runs =
      let build = get_machine_creation_args env >>= run_creation env in
      rw new (
        done-bind (set_initial_conditions env) (λ _. create_prerequisites_for_machine env >> build)
          (record { machine_obj = some m; log = h }) _ tt (set_initial_conditions-accepted m h)
        ∙ (done-bind (create_prerequisites_for_machine env) (λ _. build)
              (record {
                machine_obj = some (prepared env api m);
                log = written env api (prepared env api m) h;
              })
              _ tt meets
            ∙ (done-bind (get_machine_creation_args env) (run_creation env)
                  (record { machine_obj = some m'; log = h' }) _ args given
                ∙ run_creation-accepted args m'' h'' out text runs)))

  -- A machine that is not created yet, from what its prerequisites leave on.
  pub create_machine-runs_from :
      {m' : Machine} {h' : History} (m : Machine) (h : History) (driver : LocalObjectReference)
      (ref : ObjectReference) (secret : GoMap) (out text : String)
      → is_created env m ≡ false
      → create_prerequisites_for_machine env (record {
        machine_obj = some (prepared env api m);
        log = written env api (prepared env api m) h;
      })
        ≡ (done tt, record { machine_obj = some m'; log = h' })
      → m'.spec.driver ≡ some driver
      → m'.spec.script_ref ≡ none
      → m'.spec.auth_secret ≡ some ref
      → env.get_secret h' (object_key ref) ≡ ok secret
      → All (IsUsable driver.name) secret
      → env.run
          (with_secret ref secret m' h')
          (some machine_creation_timeout)
          (line m' driver.name secret)
        ≡ succeeded out text
      → create_machine env (record { machine_obj = some m; log = h }) ≡ (
        done tt,
        record {
          machine_obj = some (finished env api (authorised env api m'));
          log = written env api (finished env api (authorised env api m')) (
              ran (some machine_creation_timeout) (line m' driver.name secret) (succeeded out text)
              ∷ with_secret ref secret m' h');
        },
      )
  create_machine-runs_from {m'} {h'} m h driver ref secret out text new meets named bare auth found
        usable runs =
      create_machine-runs_with m h (line m' driver.name secret) out text new meets
        (arguments-accepted m' h' driver ref secret named bare auth found usable) runs

  -- If the API server answers every read with a machine and takes every status, then a machine that is
  -- not created yet, is not on AWS and has no script, and whose secret can be read and is usable, is created: its first conditions are
  -- written, its secret is read, its credentials are written as ready, `docker-machine create` is run
  -- with its line, and if that goes through, the machine is written as ready and no error is returned.
  pub create_machine-runs :
      (m : Machine) (h : History) (driver : LocalObjectReference) (ref : ObjectReference)
      (secret : GoMap) (out text : String)
      → is_created env m ≡ false
      → m.spec.driver ≡ some driver
      → (driver.name == aws_driver) ≡ false
      → m.spec.script_ref ≡ none
      → m.spec.auth_secret ≡ some ref
      → env.get_secret (written env api (prepared env api m) h) (object_key ref) ≡ ok secret
      → All (IsUsable driver.name) secret
      → env.run
          (written env api
            (creating env api m)
            (got_secret (object_key ref) (ok secret) ∷ written env api (prepared env api m) h))
          (some machine_creation_timeout)
          (line m driver.name secret)
        ≡ succeeded out text
      → create_machine env (record { machine_obj = some m; log = h }) ≡ (
        done tt,
        record {
          machine_obj = some (created env api m);
          log = written env api (created env api m) (
              ran (some machine_creation_timeout) (line m driver.name secret) (succeeded out text)
              ∷ written env api (creating env api m) (
                  got_secret (object_key ref) (ok secret)
                  ∷ written env api (prepared env api m) h));
        },
      )
  unfolding get_ami_id_arg
  create_machine-runs m h driver ref secret out text new named other bare auth found usable runs =
      create_machine-runs_from m h driver ref secret out text new
        (prerequisites-skipped (prepared env api m) (written env api (prepared env api m) h) driver
          named other)
        named bare auth found usable runs
