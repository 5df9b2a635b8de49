-- ===== src/Controller/Script.antt =====
-- pkg/controller/cluster.go: whether the startup script has finished, and with what result.
pub mod Outcome
pub mod Settled
use docker_machine_operator.Base.{
  String, ◌==◌, ◌<>◌, ℕ, zero, suc, Bool, true, false, not, ◌||◌, Option, none, some, List, [], ◌∷◌,
  if◌then◌else◌,
}
use docker_machine_operator.Go.Error.{Error, other}
use docker_machine_operator.Go.Text.{codes}
use docker_machine_operator.Go.Number.{ℤ, pos, negsuc, atoi}
use docker_machine_operator.Go.Scanner.{scan_lines}
use docker_machine_operator.Api.Types.{Machine}
use docker_machine_operator.Api.Names.{machine_ready, cluster_operation_complete}
use docker_machine_operator.Api.Reason
use docker_machine_operator.Api.Phase
use docker_machine_operator.Env.Event.{Command, opened_file}
use docker_machine_operator.Env.{Env}
use docker_machine_operator.Effect.{Action, pure, skip, fail, call, machine, ◌>>=◌, ◌>>◌}
use docker_machine_operator.Controller.Status.{is_true, mark_true, mark_false}
use docker_machine_operator.Controller.Secret.{google_driver, aws_driver, azure_driver, driver_name}
use docker_machine_operator.Controller.Files.{remove_file, run_docker_machine}

abbrev pub result_file : String
result_file = "/tmp/result.txt"

-- `getDefaultUser`: an unknown driver has the empty user.
unfoldable pub get_default_user : String → String
get_default_user driver =
    if driver == google_driver
    then "docker-user"
    else if driver == aws_driver
    then "ubuntu"
    else if driver == azure_driver
    then "docker-user"
    else ""

abbrev pub scp_args : String → String → List String
scp_args user name = "scp" ∷ (user <> ("@" <> (name <> ":/tmp/result.txt"))) ∷ "/tmp" ∷ []

unfoldable pub get_scp_args : Action (List String)
get_scp_args = do
  m ← machine
  driver ← driver_name
  pure (scp_args (get_default_user driver) m.name)

-- The loop over the lines: the first that is a number.
abbrev pub result_of : List (List ℕ) → Option ℤ
result_of [] = none
result_of (line ∷ lines) =
    let rest = result_of lines in elim (atoi line) [ none ↦ rest | some n ↦ some n ]

abbrev pub create_error : Error
create_error = other "failed to create cluster"

module _ (env : Env) where
  -- The tests before the script's result is fetched.
  abbrev pub is_settled : Machine → Bool
  is_settled m = is_true env m Phase.success || is_true env m Phase.failed

  -- The condition for a result, and the error that is returned with it.
  unfoldable pub operation_result : ℤ → Action (Option Error)
  operation_result (pos zero) = do mark_true env cluster_operation_complete; pure none
  operation_result _ = do
    mark_false env cluster_operation_complete Reason.cluster_operation_failed
        "failed to create cluster"
    pure (some create_error)

  abbrev pub finish : Option Error → Action Bool
  finish none = pure false
  finish (some e) = fail e

  unfoldable pub take_result : Option ℤ → Action Bool
  unfolding operation_result
  take_result none = fail create_error
  take_result (some n) = do
    failure ← operation_result n
    remove_file env result_file
    finish failure

  -- What follows the copy of the result file.
  unfoldable pub copied : Option Error → Action Bool
  unfolding take_result
  copied (some e) = do
    mark_false env cluster_operation_complete Reason.waiting_for_script_completion
        "waiting for script completion"
    pure true
  copied none = do
    content ← call (λ h. env.open_file h result_file) (opened_file result_file)
    take_result (result_of (scan_lines (codes content)))

  unfoldable pub fetch_result : Action Bool
  unfolding copied
  fetch_result = do args ← get_scp_args; c ← run_docker_machine env args; copied c.error

  -- Whether to look again in a minute.
  unfoldable pub is_script_finished : Action Bool
  unfolding fetch_result
  is_script_finished = do
    m ← machine
    if not (is_true env m machine_ready)
        then pure false
        else (if is_settled m then pure false else fetch_result)
