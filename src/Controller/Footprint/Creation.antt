-- ===== src/Controller/Footprint/Creation.antt =====
-- The calls that create a machine and follow its script.
use docker_machine_operator.Base.{
  String, zero, ◌≡◌, refl, ap, Option, none, some, List, [], ◌∷◌, ◌++◌,
}
use docker_machine_operator.Go.Error.{Error, Except, ok, err}
use docker_machine_operator.Go.Map.{GoMap}
use docker_machine_operator.Go.Number.{ℤ, pos}
use docker_machine_operator.Api.Types.{ObjectReference}
use docker_machine_operator.Env.Event.{Event}
use docker_machine_operator.Env.{Env}
use docker_machine_operator.Effect.Footprint.{Emits, Emits-bind, Emits-if, Emits-skip, emits_rules}
use docker_machine_operator.Effect.Returns.{
  Returns, Returns-bind, Returns-pure, Emits-bind-Returns, returns_rules,
}
use docker_machine_operator.Controller.Finalizer.{ensure_finalizer}
use docker_machine_operator.Controller.Args.{
  get_auth_secret_args, ensure_script, write_script, get_startup_script_args, recorded, script_args,
  auth_args, get_machine_creation_args, append_parameters, flag,
}
use docker_machine_operator.Controller.Create.{
  create_prerequisites_for_machine, run_with_timeout, creation_succeeded, creation_failed,
  creation_result, create_machine_now, create_machine,
}
use docker_machine_operator.Controller.Script.{
  scp_args, get_scp_args, operation_result, finish, take_result, copied, fetch_result,
  is_script_finished,
}
use docker_machine_operator.Controller.Files.{remove_file, run_docker_machine}
use docker_machine_operator.Controller.Footprint.{
  StatusCalls, SecretCalls, NetworkDeletion, NetworkCreation, FinalizerAddition, ScriptCalls,
  ResultCalls, CreationCalls,
}
use docker_machine_operator.Controller.Footprint.Status.{
  mark_true-Emits, mark_false-Emits, update_machine_status-Emits, set_initial_conditions-Emits,
}
use docker_machine_operator.Controller.Footprint.Network.{
  driver_name-Emits, get_annotations_args_for_aws-Emits, get_secret-Emits,
}
use docker_machine_operator.Controller.Footprint.Network.Building.{create_aws_environment-Emits}

ruleset creation_rules = (
  emits_rules, driver_name-Emits, get_annotations_args_for_aws-Emits, mark_true-Emits,
  mark_false-Emits, update_machine_status-Emits, set_initial_conditions-Emits, get_secret-Emits,
)

-- The arguments of the two commands that a live machine runs.
abbrev IsCopy : List String → Type 0
IsCopy args = (user : String) × (name : String) × (args ≡ scp_args user name)

abbrev IsCreate : List String → Type 0
IsCreate args = (rest : List String) × (args ≡ "create" ∷ rest)

get_scp_args-IsCopy : Returns IsCopy get_scp_args
unfolding get_scp_args
get_scp_args-IsCopy =
    Returns-bind _ _ λ m. Returns-bind _ _ λ driver. Returns-pure _ (_, m.name, refl)

IsCreate-append : (args more : List String) → IsCreate args → IsCreate (args ++ more)
IsCreate-append args more (rest, e) = (rest ++ more, ap (λ l. l ++ more) e)

append_parameters-IsCreate :
    (args : List String) (m : GoMap) → IsCreate args → IsCreate (append_parameters args m)
unfolding append_parameters
append_parameters-IsCreate args [] h = h
append_parameters-IsCreate args ((k, v) ∷ m) h =
    append_parameters-IsCreate ((args ++ flag k ∷ []) ++ v ∷ []) m
      (IsCreate-append _ (v ∷ []) (IsCreate-append args (flag k ∷ []) h))

get_machine_creation_args-IsCreate : (env : Env) → Returns IsCreate (get_machine_creation_args env)
unfolding get_machine_creation_args
get_machine_creation_args-IsCreate env = Returns-bind _ _ λ driver. Returns-bind _ _ λ m.
    let start =
      append_parameters-IsCreate ("create" ∷ "--driver" ∷ driver ∷ []) m.spec.parameters
        (_, refl) in
    search (returns_rules, IsCreate-append, start) depth 9

module _ (env : Env) {P : Event → Type 0} (addition : FinalizerAddition P) where
  pub ensure_finalizer-Emits : Emits P (ensure_finalizer env)
  unfolding ensure_finalizer
  ensure_finalizer-Emits = search (creation_rules, addition.finalizer) depth 8

module _ (env : Env) {P : Event → Type 0} (status : StatusCalls P) (secrets : SecretCalls P)
    (script : ScriptCalls P) where
  get_auth_secret_args-Emits : Emits P (get_auth_secret_args env)
  unfolding get_auth_secret_args
  get_auth_secret_args-Emits = search creation_rules depth 8

  ensure_script-Emits :
      (path value : String) (r : Except Unit) → Emits P (ensure_script env path value r)
  unfolding ensure_script
  ensure_script-Emits path value (ok _) = search creation_rules
  ensure_script-Emits path value (err e) = search (creation_rules, script.write)

  write_script-Emits : (path key value : String) → Emits P (write_script env path key value)
  unfolding write_script
  write_script-Emits path key value =
      search (creation_rules, script.stat, ensure_script-Emits) depth 8

  get_startup_script_args-Emits : Emits P (get_startup_script_args env)
  unfolding get_startup_script_args
  get_startup_script_args-Emits = search (creation_rules, write_script-Emits) depth 8

  recorded-Emits :
      (kind reason text : String) (r : Except (List String))
      → Emits P (recorded env kind reason text r)
  unfolding recorded
  recorded-Emits kind reason text (ok args) = search creation_rules
  recorded-Emits kind reason text (err e) = search creation_rules

  script_args-Emits : (ref : Option ObjectReference) → Emits P (script_args env ref)
  unfolding script_args
  script_args-Emits none = search creation_rules
  script_args-Emits (some ref) =
      search (creation_rules, get_startup_script_args-Emits, recorded-Emits)

  auth_args-Emits : Emits P (auth_args env)
  unfolding auth_args
  auth_args-Emits = search (creation_rules, get_auth_secret_args-Emits, recorded-Emits)

  pub get_machine_creation_args-Emits : Emits P (get_machine_creation_args env)
  unfolding get_machine_creation_args
  get_machine_creation_args-Emits =
      search (creation_rules, script_args-Emits, auth_args-Emits) depth 12

pub get_scp_args-Emits : {P : Event → Type 0} → Emits P get_scp_args
unfolding get_scp_args
get_scp_args-Emits = search creation_rules

module _ (env : Env) {P : Event → Type 0} (status : StatusCalls P) where
  pub operation_result-Emits : (n : ℤ) → Emits P (operation_result env n)
  unfolding operation_result
  operation_result-Emits (pos zero) = search creation_rules
  operation_result-Emits _ = search creation_rules

  pub finish-Emits : (e : Option Error) → Emits P (finish env e)
  finish-Emits none = search creation_rules
  finish-Emits (some e) = search creation_rules

  creation_succeeded-Emits : Emits P (creation_succeeded env)
  unfolding creation_succeeded
  creation_succeeded-Emits = search creation_rules

  creation_failed-Emits : (e : Error) → Emits P (creation_failed env e)
  unfolding creation_failed
  creation_failed-Emits e = search creation_rules

  pub creation_result-Emits :
      (e : Option Error) (stderr : String) → Emits P (creation_result env e stderr)
  unfolding creation_result
  creation_result-Emits none stderr = creation_succeeded-Emits
  creation_result-Emits (some e) stderr =
      Emits-if _ _ _ creation_succeeded-Emits (creation_failed-Emits e)

module _ (env : Env) {P : Event → Type 0} (status : StatusCalls P) (result : ResultCalls P) where
  take_result-Emits : (n : Option ℤ) → Emits P (take_result env n)
  unfolding take_result remove_file
  take_result-Emits none = search creation_rules
  take_result-Emits (some n) =
      search
        (creation_rules, operation_result-Emits env status, result.removed, finish-Emits env status)

  copied-Emits : (e : Option Error) → Emits P (copied env e)
  unfolding copied
  copied-Emits none = search (creation_rules, result.opened, take_result-Emits)
  copied-Emits (some e) = search creation_rules

  run_docker_machine-Emits :
      (args : List String) → IsCopy args → Emits P (run_docker_machine env args)
  unfolding run_docker_machine
  run_docker_machine-Emits args (user, name, e) = rw e (search (emits_rules, result.copy))

  fetch_result-Emits : Emits P (fetch_result env)
  unfolding fetch_result
  fetch_result-Emits =
      Emits-bind-Returns IsCopy _ _ get_scp_args-Emits get_scp_args-IsCopy
        λ args h. Emits-bind _ _ (run_docker_machine-Emits args h) λ c. copied-Emits c.error

  pub is_script_finished-Emits : Emits P (is_script_finished env)
  unfolding is_script_finished
  is_script_finished-Emits = search (creation_rules, fetch_result-Emits)

module _ (env : Env) {P : Event → Type 0} (creation : CreationCalls P) where
  run_with_timeout-Emits :
      (args : List String) → IsCreate args → Emits P (run_with_timeout env args)
  unfolding run_with_timeout
  run_with_timeout-Emits args (rest, e) = rw e (search (emits_rules, creation.create))

module _ (env : Env) {P : Event → Type 0} (secrets : SecretCalls P) (deletion : NetworkDeletion P)
    (network : NetworkCreation P) where
  pub create_prerequisites-Emits : Emits P (create_prerequisites_for_machine env)
  unfolding create_prerequisites_for_machine
  create_prerequisites-Emits = Emits-bind _ _ driver_name-Emits λ driver.
      Emits-if _ _ _ (create_aws_environment-Emits env deletion network secrets) Emits-skip

module _ (env : Env) {P : Event → Type 0} (status : StatusCalls P) (secrets : SecretCalls P)
    (creation : CreationCalls P) (deletion : NetworkDeletion P) (network : NetworkCreation P) where
  create_machine_now-Emits : Emits P (create_machine_now env)
  unfolding create_machine_now
  create_machine_now-Emits = Emits-bind _ _ (set_initial_conditions-Emits env status) λ _.
      Emits-bind _ _ (create_prerequisites-Emits env secrets deletion network) λ _.
        Emits-bind-Returns IsCreate _ _
          (get_machine_creation_args-Emits env status secrets creation.live.script)
          (get_machine_creation_args-IsCreate env)
          λ args h. Emits-bind _ _ (mark_true-Emits env _) λ _.
            Emits-bind _ _ (run_with_timeout-Emits env creation args h)
              λ c. creation_result-Emits env status c.error c.stderr

  pub create_machine-Emits : Emits P (create_machine env)
  unfolding create_machine
  create_machine-Emits = search (creation_rules, create_machine_now-Emits)
