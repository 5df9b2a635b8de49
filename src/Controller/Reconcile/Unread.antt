-- ===== src/Controller/Reconcile/Unread.antt =====
-- `Reconcile` (pkg/controller/machine_controller.go) where the first read of the machine fails.
use docker_machine_operator.Base.{true, false, ◌≡◌, refl, none, some, ◌∷◌}
use docker_machine_operator.Go.Error.{Error, ok, err}
use docker_machine_operator.Api.Types.{ObjectKey, Machine, key_of}
use docker_machine_operator.Env.Event.{got_machine, committed}
use docker_machine_operator.Env.{Env}
use docker_machine_operator.Effect.{
  State, done, aborted, nil_dereference, call, attempt, machine, set_machine, pure, ◌>>=◌,
}
use docker_machine_operator.Controller.Status.{
  reconciled, requeue_with_error, summarised, set_summary, update_machine_status,
}
use docker_machine_operator.Controller.Reconcile.{update_machine_reconcile, after_get, reconcile}

module _ (env : Env) (key : ObjectKey) (s : State) {e : Error}
    (unread : env.get_machine s.log key ≡ err e) where
  -- If the machine that is requested is not found, the reconcile returns no error and asks for no
  -- other, has made this one call, and keeps what was in memory.
  pub reconcile-not_found :
      env.is_not_found e ≡ true
      → reconcile env key s ≡ (
        done (record { requeue_after = 0 }, none),
        record s { log = got_machine key (err e) ∷ s.log },
      )
  unfolding reconcile update_machine_reconcile after_get call attempt reconciled pure ◌>>=◌
  reconcile-not_found missing = rw (unread, missing) refl

  -- If the machine that is requested cannot be read, for another reason than that it is not found,
  -- and the reconciler has read none before, the reconcile dereferences a nil pointer.
  pub reconcile-aborts :
      env.is_not_found e ≡ false
      → s.machine_obj ≡ none
      → reconcile env key s ≡ (
        aborted nil_dereference,
        record { machine_obj = none; log = got_machine key (err e) ∷ s.log },
      )
  unfolding reconcile update_machine_reconcile after_get call attempt requeue_with_error machine
      ◌>>=◌
  reconcile-aborts error empty = rw (unread, error, empty) refl

  -- If the machine that is requested cannot be read, for another reason than that it is not found,
  -- and a machine is in memory from before, then the reconcile reads that machine and writes its status, if
  -- both calls succeed, and returns the error of the first read.
  pub reconcile-stale :
      {m server stored : Machine}
      → env.is_not_found e ≡ false
      → s.machine_obj ≡ some m
      → env.get_machine (got_machine key (err e) ∷ s.log) (key_of m) ≡ ok server
      → env.commit_status
          (got_machine (key_of m) (ok server) ∷ got_machine key (err e) ∷ s.log)
          server
          (summarised env m)
        ≡ ok stored
      → reconcile env key s ≡ (
        done (record { requeue_after = 0 }, some e),
        record {
          machine_obj = some stored;
          log =
              committed server (summarised env m) (ok stored)
              ∷ got_machine (key_of m) (ok server)
              ∷ got_machine key (err e)
              ∷ s.log;
        },
      )
  unfolding reconcile update_machine_reconcile after_get call attempt requeue_with_error
      update_machine_status set_summary set_machine machine ◌>>=◌ pure
  reconcile-stale error has read wrote = rw (unread, error, has, read, wrote) refl
