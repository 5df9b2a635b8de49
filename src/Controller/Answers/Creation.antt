-- ===== src/Controller/Answers/Creation.antt =====
-- The creation of a machine and its script (pkg/controller/machine.go, cluster.go).
use docker_machine_operator.Base.{
  String, zero, ◌≡◌, inl, inr, Option-cases, Option, none, some, List,
}
use docker_machine_operator.Go.Error.{Error, Except, ok, err}
use docker_machine_operator.Go.Number.{ℤ, pos}
use docker_machine_operator.Api.Types.{Machine}
use docker_machine_operator.Env.{Env}
use docker_machine_operator.Effect.{State, pure, ◌>>=◌}
use docker_machine_operator.Effect.Answers.{
  IsSome, IsHeld, continue-IsHeld, Answers-attempt, Answers-machine_at, Answers, Answers-bind,
  Answers-if, Answers-skip, Answers-machine_bind, answers_rules,
}
use docker_machine_operator.Controller.Args.{
  get_auth_secret_args, ensure_script, write_script, get_startup_script_args, recorded, script_args,
  auth_args, get_machine_creation_args,
}
use docker_machine_operator.Controller.Create.{
  create_prerequisites_for_machine, run_with_timeout, creation_succeeded, creation_failed,
  creation_result, run_creation, create_machine_now, create_machine,
}
use docker_machine_operator.Controller.Script.{
  get_scp_args, operation_result, finish, take_result, copied, fetch_result, is_script_finished,
}
use docker_machine_operator.Controller.Files.{remove_file, run_docker_machine}
use docker_machine_operator.Controller.Secret.{get_secret}
use docker_machine_operator.Controller.Answers.{
  IsValid, Validates, driver_name-Answers, get_secret-Answers, mark_true-Answers,
  mark_false-Answers, update_machine_status-Answers, set_initial_conditions-Answers,
}
use docker_machine_operator.Controller.Answers.Network.{get_annotations_args_for_aws-Answers}
use docker_machine_operator.Controller.Answers.Network.Clouds.{create_aws_environment-Answers}

-- A valid machine that names a script.
abbrev NamesScript : Machine → Type 0
NamesScript m = IsValid m × IsSome m.spec.script_ref

module _ (env : Env) where
  get_auth_secret_args-Answers : Answers IsValid (get_auth_secret_args env)
  unfolding get_auth_secret_args
  get_auth_secret_args-Answers =
      Answers-machine_bind _
        λ m (d, a). search (answers_rules, get_secret-Answers env, driver_name-Answers)

  ensure_script-Answers :
      {Q : Machine → Type 0} (path value : String) (r : Except Unit)
      → Answers Q (ensure_script env path value r)
  unfolding ensure_script
  ensure_script-Answers path value (ok _) = search answers_rules
  ensure_script-Answers path value (err e) = search answers_rules

  write_script-Answers :
      {Q : Machine → Type 0} (path key value : String) → Answers Q (write_script env path key value)
  unfolding write_script
  write_script-Answers path key value = search (answers_rules, ensure_script-Answers) depth 8

  recorded-Answers :
      (kind reason text : String) (r : Except (List String))
      → Answers IsValid (recorded env kind reason text r)
  unfolding recorded
  recorded-Answers kind reason text (ok args) = search (answers_rules, mark_true-Answers env)
  recorded-Answers kind reason text (err e) = search (answers_rules, mark_false-Answers env)

  auth_args-Answers : Answers IsValid (auth_args env)
  unfolding auth_args
  auth_args-Answers = search (answers_rules, get_auth_secret_args-Answers, recorded-Answers)

  get_scp_args-Answers : Answers IsValid get_scp_args
  unfolding get_scp_args
  get_scp_args-Answers = search (answers_rules, driver_name-Answers)

  operation_result-Answers : (n : ℤ) → Answers IsValid (operation_result env n)
  unfolding operation_result
  operation_result-Answers (pos zero) = search (answers_rules, mark_true-Answers env)
  operation_result-Answers _ = search (answers_rules, mark_false-Answers env)

  finish-Answers : (e : Option Error) → Answers IsValid (finish env e)
  finish-Answers none = search answers_rules
  finish-Answers (some e) = search answers_rules

  take_result-Answers : (n : Option ℤ) → Answers IsValid (take_result env n)
  unfolding take_result remove_file
  take_result-Answers none = search answers_rules
  take_result-Answers (some n) = search (answers_rules, operation_result-Answers, finish-Answers)

  copied-Answers : (e : Option Error) → Answers IsValid (copied env e)
  unfolding copied
  copied-Answers none = search (answers_rules, take_result-Answers)
  copied-Answers (some e) = search (answers_rules, mark_false-Answers env)

  fetch_result-Answers : Answers IsValid (fetch_result env)
  unfolding fetch_result run_docker_machine
  fetch_result-Answers = search (answers_rules, get_scp_args-Answers, copied-Answers)

  pub is_script_finished-Answers : Answers IsValid (is_script_finished env)
  unfolding is_script_finished
  is_script_finished-Answers = search (answers_rules, fetch_result-Answers)

  creation_failed-Answers : (e : Error) → Answers IsValid (creation_failed env e)
  unfolding creation_failed
  creation_failed-Answers e = search (answers_rules, mark_false-Answers env)

  -- A script is read only where the machine names one.
  get_startup_script_args-Answers : Answers NamesScript (get_startup_script_args env)
  unfolding get_startup_script_args get_secret
  get_startup_script_args-Answers =
      Answers-machine_bind _
        λ m (v, r). Answers-bind _ _ (search answers_rules) λ secret. search write_script-Answers

  script_args-IsHeld :
      (s : State) (m : Machine)
      → s.machine_obj ≡ some m
      → IsValid m
      → IsHeld IsValid (script_args env m.spec.script_ref s)
  unfolding script_args ◌>>=◌ pure
  script_args-IsHeld s m e v = elim (Option-cases m.spec.script_ref) [
    | inl n ↦ rw n ((m, e, v), tt)
    | inr (ref, n) ↦
        let named : NamesScript m = (v, rw n tt) in
        let ((m', e', (v', _)), t) =
          (Answers-attempt _ get_startup_script_args-Answers).at s (m, e, named) in
        rw n (continue-IsHeld _ _ _ ((m', e', v'), t) (recorded-Answers _ _ _))
  ]

  module _ (laws : Validates env) where
    creation_succeeded-Answers : Answers IsValid (creation_succeeded env)
    unfolding creation_succeeded
    creation_succeeded-Answers =
        search (answers_rules, mark_true-Answers env, update_machine_status-Answers env laws)

    creation_result-Answers :
        (e : Option Error) (stderr : String) → Answers IsValid (creation_result env e stderr)
    unfolding creation_result
    creation_result-Answers none stderr = creation_succeeded-Answers
    creation_result-Answers (some e) stderr =
        Answers-if _ _ _ creation_succeeded-Answers (creation_failed-Answers e)

    run_creation-Answers : (args : List String) → Answers IsValid (run_creation env args)
    unfolding run_creation run_with_timeout
    run_creation-Answers args =
        search (answers_rules, mark_true-Answers env, creation_result-Answers)

    create_prerequisites-Answers : Answers IsValid (create_prerequisites_for_machine env)
    unfolding create_prerequisites_for_machine
    create_prerequisites-Answers =
        Answers-bind _ _ driver_name-Answers
          λ driver. Answers-if _ _ _ (create_aws_environment-Answers env laws) Answers-skip

    get_machine_creation_args-Answers : Answers IsValid (get_machine_creation_args env)
    unfolding get_machine_creation_args ◌>>=◌
    get_machine_creation_args-Answers = Answers-bind _ _ driver_name-Answers λ driver.
        Answers-machine_at _ λ s m e v. continue-IsHeld _ _ _ (script_args-IsHeld s m e v) λ script.
          search
            (
              answers_rules,
              auth_args-Answers,
              get_annotations_args_for_aws-Answers,
              update_machine_status-Answers env laws,
            )
            depth 12

    create_machine_now-Answers : Answers IsValid (create_machine_now env)
    unfolding create_machine_now
    create_machine_now-Answers = Answers-bind _ _ (set_initial_conditions-Answers env laws) λ _.
        Answers-bind _ _ create_prerequisites-Answers
          λ _. Answers-bind _ _ get_machine_creation_args-Answers run_creation-Answers

    pub create_machine-Answers : Answers IsValid (create_machine env)
    unfolding create_machine
    create_machine-Answers = search (answers_rules, create_machine_now-Answers)
