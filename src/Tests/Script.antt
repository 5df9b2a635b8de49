-- ===== src/Tests/Script.antt =====
-- The theorems on the script's result and on a deletion, at concrete states.
use docker_machine_operator.Base.{
  test-ne, ◌==◌, ◌≡◌, refl, true, false, inl, inr, none, some, [], ◌∷◌, arith, if◌then◌else◌,
  Option,
}
use docker_machine_operator.Go.Error.{Error, api, other, ok, err, not_exist}
use docker_machine_operator.Go.Text.{codes}
use docker_machine_operator.Go.Number.{pos, atoi}
use docker_machine_operator.Go.Number.Zero.{IsZeroText}
use docker_machine_operator.Controller.Secret.{aws_driver, azure_driver}
use docker_machine_operator.Api.Types.{ObjectKey, LocalObjectReference, Machine, set_conditions}
use docker_machine_operator.Api.Names.{
  machine_ready, cluster_operation_complete, ready_condition, severity_error,
}
use docker_machine_operator.Api.Reason
use docker_machine_operator.Env.Event.{succeeded, got_machine, committed}
use docker_machine_operator.Env.{Env}
use docker_machine_operator.Effect.{done, failed}
use docker_machine_operator.Controller.Status.{summarised}
use docker_machine_operator.Controller.Script.{is_script_finished, create_error}
use docker_machine_operator.Controller.Script.Outcome.{
  before, after_copy, after_removal, is_script_finished-zero, is_script_finished-nonzero,
}
use docker_machine_operator.Controller.Script.Settled.{is_script_finished-unsettled}
use docker_machine_operator.Controller.Cleanup.{remove_finalizer_after_cleanup}
use docker_machine_operator.Controller.Cleanup.Completes.{
  deletion_done, dropped, went, remove_finalizer_after_cleanup-completes,
}
use docker_machine_operator.Controller.Reconcile.{reconcile}
use docker_machine_operator.Controller.Reconcile.Unread.{reconcile-stale}
use docker_machine_operator.Tests.Fixtures.{
  env_of, host, true_condition, machine_of, ready, marked, key,
}
use docker_machine_operator.Tests.Laws.{looks_up}

abbrev google : LocalObjectReference
google = record { name = "google" }

-- The script wrote a note and then its result.
abbrev zero_env : Env
zero_env = env_of (ok ready) none "ok\n0\n"

abbrev one_env : Env
one_env = env_of (ok ready) none "ok\n1\n"

abbrev failing_env : Env
failing_env = env_of (ok ready) (some (other "exit status 1")) ""

ok_no_number : atoi (codes "ok") ≡ none
unfolding atoi
ok_no_number = refl

one : atoi (codes "1") ≡ some (pos 1)
unfolding atoi
one = refl

is_script_finished-zero_example : is_script_finished zero_env (before zero_env ready [] google) ≡ (
  done false,
  record {
    machine_obj = some (set_conditions ready (zero_env.mark_true ready cluster_operation_complete));
    log = after_removal zero_env ready [] google "ok\n0\n";
  },
)
is_script_finished-zero_example =
    is_script_finished-zero zero_env ready [] google refl refl refl (codes "ok" ∷ []) (codes "0") []
      refl refl refl
      ((((refl, refl), ((refl, refl), tt)), omega arith), ((((refl, refl), tt), omega arith), tt))
      (ok_no_number, tt) (inl (refl, tt))

one_not_zero : ¬ IsZeroText (codes "1")
one_not_zero = ground arith

is_script_finished-nonzero_example : is_script_finished one_env (before one_env ready [] google) ≡ (
  failed create_error,
  record {
    machine_obj = some (
        set_conditions ready (
          one_env.mark_false ready cluster_operation_complete Reason.cluster_operation_failed
            severity_error "failed to create cluster"));
    log = after_removal one_env ready [] google "ok\n1\n";
  },
)
is_script_finished-nonzero_example =
    is_script_finished-nonzero one_env ready [] google refl refl refl (codes "ok" ∷ []) (codes "1")
      [] refl refl refl
      ((((refl, refl), ((refl, refl), tt)), omega arith), ((((refl, refl), tt), omega arith), tt))
      (ok_no_number, tt) one one_not_zero

-- The cluster is complete, and its result file is gone.
abbrev complete : Machine
complete =
    machine_of
      (true_condition machine_ready
        ∷ true_condition cluster_operation_complete
        ∷ true_condition ready_condition
        ∷ [])
      none

is_script_finished-unsettled_example :
    is_script_finished failing_env (before failing_env complete [] google) ≡ (
      done true,
      record {
        machine_obj = some (
            set_conditions complete (
              failing_env.mark_false complete cluster_operation_complete
                Reason.waiting_for_script_completion severity_error
                "waiting for script completion"));
        log = after_copy failing_env complete [] google;
      },
    )
is_script_finished-unsettled_example =
    is_script_finished-unsettled failing_env looks_up complete
      (inl refl, (inr (inr (inr (inl refl))), (inr (inr (inr (inr (inr (inl refl))))), tt))) [] refl
      refl refl

-- No file of the machine is there.
abbrev tidy_env : Env
tidy_env = record (env_of (ok marked) none "") {
  host = record (host none "") { remove_file = λ h path. some (not_exist path) };
}

abbrev without_finalizer : Machine
without_finalizer = record (summarised tidy_env marked) { finalizers = [] }

abbrev no_script : Option Error
no_script = some (not_exist "/tmp/default-worker-startup.sh")

abbrev no_result : Option Error
no_result = some (not_exist "tmpresult.txt")

remove_finalizer_after_cleanup-completes_example :
    remove_finalizer_after_cleanup tidy_env (record { machine_obj = some marked; log = [] }) ≡ (
      done tt,
      record {
        machine_obj = some without_finalizer;
        log =
            deletion_done [] tidy_env marked marked
              (summarised tidy_env marked)
              no_script
              no_result
              (succeeded "" "")
              without_finalizer;
      },
    )
remove_finalizer_after_cleanup-completes_example =
    remove_finalizer_after_cleanup-completes tidy_env [] refl refl
      (test-ne "google" aws_driver refl) (test-ne "google" azure_driver refl) refl refl refl
      (dropped (not_exist "/tmp/default-worker-startup.sh") refl) refl
      (dropped (not_exist "tmpresult.txt") refl) refl went refl

abbrev lost : Error
lost = api "ServiceUnavailable" "try again"

abbrev other_key : ObjectKey
other_key = record { namespace = "default"; name = "unreachable" }

-- An API server that has the machine `worker`, and cannot be read for any other.
abbrev partial_env : Env
partial_env = record zero_env {
  client = record (zero_env.client) {
    get_machine = λ h k. if k.name == "worker" then ok ready else err lost;
  };
}

reconcile-stale_example :
    reconcile partial_env other_key (record { machine_obj = some ready; log = [] }) ≡ (
      done (record { requeue_after = 0 }, some lost),
      record {
        machine_obj = some (summarised partial_env ready);
        log =
            committed ready (summarised partial_env ready) (ok (summarised partial_env ready))
            ∷ got_machine key (ok ready)
            ∷ got_machine other_key (err lost)
            ∷ [];
      },
    )
reconcile-stale_example =
    reconcile-stale partial_env other_key (record { machine_obj = some ready; log = [] }) refl refl
      refl refl refl
