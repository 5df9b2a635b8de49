-- ===== src/Controller/Script/Outcome.antt =====
-- What `isScriptFinished` (pkg/controller/cluster.go) makes of the result that the startup script
-- leaves on the machine.
use docker_machine_operator.Base.{
  String, ℕ, zero, suc, Bool, true, false, ◌≡◌, refl, ap, ◌∙◌, Option, none, some, List, [], ◌∷◌,
  ◌++◌, All, arith,
}
use docker_machine_operator.Go.Error.{Error, ok, of_error}
use docker_machine_operator.Go.Text.{codes}
use docker_machine_operator.Go.Number.{ℤ, pos, negsuc, atoi}
use docker_machine_operator.Go.Number.Zero.{IsZeroText, atoi-zero_iff}
use docker_machine_operator.Go.Scanner.{scan_lines}
use docker_machine_operator.Go.Scanner.Lines.{IsLine, unlines, scan_lines-unlines}
use docker_machine_operator.Api.Types.{LocalObjectReference, Machine, set_conditions}
use docker_machine_operator.Api.Names.{machine_ready, cluster_operation_complete, severity_error}
use docker_machine_operator.Api.Reason
use docker_machine_operator.Env.Event.{History, Command, ran, opened_file, removed_file}
use docker_machine_operator.Env.{Env}
use docker_machine_operator.Effect.{
  State, Outcome, done, failed, pure, fail, outcome_of, continue, call, call_error, call_value,
  machine, set_machine, deref, ◌>>=◌,
}
use docker_machine_operator.Controller.Status.{is_true, mark_true, mark_false}
use docker_machine_operator.Controller.Secret.{driver_name}
use docker_machine_operator.Controller.Files.{remove_file, run_docker_machine}
use docker_machine_operator.Controller.Script.{
  result_file, get_default_user, scp_args, get_scp_args, result_of, create_error, is_settled,
  operation_result, finish, take_result, copied, fetch_result, is_script_finished,
}

abbrev pub IsNoNumber : List ℕ → Type 0
IsNoNumber line = atoi line ≡ none

-- Lines that are no numbers are passed over.
pub result_of-append :
    (notes : List (List ℕ)) (line : List ℕ) (rest : List (List ℕ)) (n : ℤ)
    → All IsNoNumber notes
    → atoi line ≡ some n
    → result_of (notes ++ line ∷ rest) ≡ some n
result_of-append [] line rest n h e = ground (arith, e)
result_of-append (note ∷ notes) line rest n (k, h) e =
    ground (arith, k, result_of-append notes line rest n h e)

-- Of lines that are no numbers there is no result.
result_of-none : (notes : List (List ℕ)) → All IsNoNumber notes → result_of notes ≡ none
result_of-none [] h = refl
result_of-none (note ∷ notes) (k, h) = ground (arith, k, result_of-none notes h)

-- An error of the removal comes before the result.
abbrev pub unless_failed : Option Error → Outcome Bool → Outcome Bool
unless_failed none r = r
unless_failed (some e) r = failed e

continue-unless_failed :
    (env : Env) (removal failure : Option Error) (s : State)
    → continue (outcome_of (of_error removal)) (λ _. finish env failure) s
      ≡ (unless_failed removal (finish env failure s).0, s)
unfolding pure fail
continue-unless_failed env none none s = refl
continue-unless_failed env none (some e) s = refl
continue-unless_failed env (some e) failure s = refl

module _ (env : Env) (m : Machine) (h : History) (driver : LocalObjectReference) where
  -- The copy of the result file, and the calls up to where the file is open.
  abbrev pub copy_args : List String
  copy_args = scp_args (get_default_user driver.name) m.name

  abbrev pub copy : Command
  copy = env.run h none copy_args

  abbrev pub after_copy : History
  after_copy = ran none copy_args copy ∷ h

  abbrev pub before : State
  before = record { machine_obj = some m; log = h }

  -- What the removal of the file that was read answers.
  abbrev pub removal : String → Option Error
  removal content = env.remove_file (opened_file result_file (ok content) ∷ after_copy) result_file

  -- All calls of a fetch whose file is read.
  abbrev pub after_removal : String → History
  after_removal content =
      removed_file result_file (removal content) ∷ opened_file result_file (ok content) ∷ after_copy

  -- What is left to do once the tests are passed.
  pub fetched :
      m.spec.driver ≡ some driver
      → is_true env m machine_ready ≡ true
      → is_settled env m ≡ false
      → is_script_finished env before
        ≡ copied env copy.error (record { machine_obj = some m; log = after_copy })
  unfolding is_script_finished fetch_result get_scp_args machine driver_name deref pure ◌>>=◌
      run_docker_machine call_value
  fetched has_driver ready unsettled = rw (ready, unsettled, has_driver) refl

  -- The file that was copied: notes that are no numbers, then the line of the result.
  module _ {content : String} (has_driver : m.spec.driver ≡ some driver)
      (ready : is_true env m machine_ready ≡ true) (unsettled : is_settled env m ≡ false)
      (notes : List (List ℕ)) (line : List ℕ) (rest : List (List ℕ)) (is_copied : copy.error ≡ none)
      (is_read : env.open_file after_copy result_file ≡ ok content)
      (lines : codes content ≡ unlines (notes ++ line ∷ rest))
      (fits : All IsLine (notes ++ line ∷ rest)) (no_number : All IsNoNumber notes) where
    reads : {n : ℤ} → atoi line ≡ some n → result_of (scan_lines (codes content)) ≡ some n
    reads e =
        ap (λ cs. result_of (scan_lines cs)) lines
        ∙ ap result_of (scan_lines-unlines (notes ++ line ∷ rest) fits)
        ∙ result_of-append notes line rest _ no_number e

    -- If the machine has a driver, is ready and not settled, the copy succeeds, and the copied file has
    -- lines that each fit the scanner's buffer and end in a newline, among them one of zeros, with a
    -- sign or none, after lines that are no numbers: then the ClusterOperationComplete condition of the
    -- machine is marked true, the calls are the copy, the reading and the removal, and the script is
    -- finished and the machine is not looked at again, or the error of the removal is returned.
    pub is_script_finished-zero :
        IsZeroText line
        → is_script_finished env before ≡ (
          unless_failed (removal content) (done false),
          record {
            machine_obj = some (set_conditions m (env.mark_true m cluster_operation_complete));
            log = after_removal content;
          },
        )
    unfolding copied call take_result operation_result mark_true machine set_machine ◌>>=◌ pure
        remove_file call_error
    is_script_finished-zero z =
        fetched has_driver ready unsettled
        ∙ rw (is_copied, is_read, reads ((atoi-zero_iff line).1 z))
            (continue-unless_failed env (removal content) none _)

    -- If the machine has a driver, is ready and not settled, the copy succeeds, and the copied file has
    -- lines that each fit the scanner's buffer and end in a newline, among them one with a number that
    -- is not zero, after lines that are no numbers: then the ClusterOperationComplete condition is
    -- marked false with the reason ClusterOperationFailed, the calls are the copy, the reading and the
    -- removal, and an error is returned, that of the removal if it fails.
    pub is_script_finished-nonzero :
        {n : ℤ}
        → atoi line ≡ some n
        → ¬ IsZeroText line
        → is_script_finished env before ≡ (
          unless_failed (removal content) (failed create_error),
          record {
            machine_obj = some (
                set_conditions m (
                  env.mark_false m cluster_operation_complete Reason.cluster_operation_failed
                    severity_error "failed to create cluster"));
            log = after_removal content;
          },
        )
    unfolding copied call take_result operation_result mark_false machine set_machine ◌>>=◌ pure
        fail remove_file call_error
    is_script_finished-nonzero {n = pos zero} e z = absurd (z ((atoi-zero_iff line).0 e))
    is_script_finished-nonzero {n = pos (suc k)} e z =
        fetched has_driver ready unsettled
        ∙ rw (is_copied, is_read, reads e)
            (continue-unless_failed env (removal content) (some create_error) _)
    is_script_finished-nonzero {n = negsuc k} e z =
        fetched has_driver ready unsettled
        ∙ rw (is_copied, is_read, reads e)
            (continue-unless_failed env (removal content) (some create_error) _)

  -- If the machine has a driver, is ready and not settled, the copy succeeds, the copied file has lines
  -- that each fit the scanner's buffer and end in a newline, and none of them is a number: then an
  -- error is returned, the machine in memory stays as it is, and the file is not removed; the calls are
  -- the copy and the reading.
  pub is_script_finished-no_number :
      {content : String} (notes : List (List ℕ))
      → m.spec.driver ≡ some driver
      → is_true env m machine_ready ≡ true
      → is_settled env m ≡ false
      → copy.error ≡ none
      → env.open_file after_copy result_file ≡ ok content
      → codes content ≡ unlines notes
      → All IsLine notes
      → All IsNoNumber notes
      → is_script_finished env before ≡ (
        failed create_error,
        record { machine_obj = some m; log = opened_file result_file (ok content) ∷ after_copy },
      )
  unfolding copied call take_result ◌>>=◌ fail
  is_script_finished-no_number notes has_driver ready unsettled is_copied is_read lines fits
        no_number =
      let reads =
        ap (λ cs. result_of (scan_lines cs)) lines
        ∙ ap result_of (scan_lines-unlines notes fits)
        ∙ result_of-none notes no_number in
      fetched has_driver ready unsettled ∙ rw (is_copied, is_read, reads) refl
