-- ===== src/Controller/Reconcile.antt =====
-- pkg/controller/machine_controller.go and driver_controller.go: the two `Reconcile` methods.
pub mod Unread
use docker_machine_operator.Base.{String, ◌==◌, ℕ, Bool, not, Option, none, some, if◌then◌else◌}
use docker_machine_operator.Go.Error.{Error, Except, ok, err}
use docker_machine_operator.Go.Text.{is_empty}
use docker_machine_operator.Api.Types.{ObjectKey, Machine}
use docker_machine_operator.Api.Helper.{is_zero}
use docker_machine_operator.Env.Event.{got_machine}
use docker_machine_operator.Env.{Env}
use docker_machine_operator.Effect.{Action, pure, call, attempt, machine, set_machine, ◌>>=◌, ◌>>◌}
use docker_machine_operator.Controller.Status.{
  CtrlResult, update_machine_status, returned, reconciled, requeue_with_error,
}
use docker_machine_operator.Controller.Finalizer.{ensure_finalizer}
use docker_machine_operator.Controller.Cleanup.{remove_finalizer_after_cleanup}
use docker_machine_operator.Controller.Create.{create_machine}
use docker_machine_operator.Controller.Script.{is_script_finished}

-- What `Reconcile` returns.
abbrev pub Reply : Type 0
Reply = CtrlResult × Option Error

-- `!r.machineObj.GetDeletionTimestamp().IsZero()`
abbrev pub is_marked_for_deletion : Machine → Bool
is_marked_for_deletion m = not (is_zero m.deletion_timestamp)

abbrev pub minute : ℕ
minute = 60

abbrev pub requeue : Bool → CtrlResult
requeue rekey = record { requeue_after = if rekey then minute else 0 }

module _ (env : Env) where
  -- `updateMachineReconcile`: the object is read anew, and kept.
  unfoldable pub update_machine_reconcile : ObjectKey → Action Unit
  update_machine_reconcile key = do
    m ← call (λ h. env.get_machine h key) (got_machine key)
    set_machine m

  -- The branch of a machine that is marked for deletion.
  unfoldable pub after_cleanup : Except Unit → Action Reply
  after_cleanup (ok _) = reconciled
  after_cleanup (err e) = requeue_with_error env e

  unfoldable pub reconcile_deleted : Action Reply
  unfolding after_cleanup
  reconcile_deleted = do r ← attempt (remove_finalizer_after_cleanup env); after_cleanup r

  -- The steps of a live machine, one for each error that is handled on the way.
  unfoldable pub after_script : ObjectKey → Except Bool → Action Reply
  after_script key (err e) = requeue_with_error env e
  after_script key (ok rekey) = do
    e ← returned (update_machine_status env key)
    pure (requeue rekey, e)

  unfoldable pub after_create : ObjectKey → Except Unit → Action Reply
  unfolding after_script
  after_create key (err e) = requeue_with_error env e
  after_create key (ok _) = do r ← attempt (is_script_finished env); after_script key r

  unfoldable pub after_finalizer : ObjectKey → Except Unit → Action Reply
  unfolding after_create
  after_finalizer key (err e) = if env.is_not_found e then reconciled else requeue_with_error env e
  after_finalizer key (ok _) = do r ← attempt (create_machine env); after_create key r

  unfoldable pub reconcile_live : ObjectKey → Action Reply
  unfolding after_finalizer
  reconcile_live key = do r ← attempt (ensure_finalizer env); after_finalizer key r

  -- A machine with no phase gets one, and nothing else happens to it.
  unfoldable pub no_phase : ObjectKey → Action Reply
  no_phase key = do
    e ← returned (update_machine_status env key)
    pure (record { requeue_after = 0 }, e)

  unfoldable pub reconcile_found : ObjectKey → Machine → Action Reply
  unfolding no_phase reconcile_deleted reconcile_live
  reconcile_found key m =
      if is_empty m.status.phase
      then no_phase key
      else if is_marked_for_deletion m
      then reconcile_deleted
      else reconcile_live key

  unfoldable pub after_get : ObjectKey → Except Unit → Action Reply
  unfolding reconcile_found
  after_get key (err e) = if env.is_not_found e then reconciled else requeue_with_error env e
  after_get key (ok _) = do m ← machine; reconcile_found key m

  unfoldable pub reconcile : ObjectKey → Action Reply
  unfolding after_get update_machine_reconcile
  reconcile key = do r ← attempt (update_machine_reconcile key); after_get key r

-- `DriverReconciler.Reconcile` makes no call.
unfoldable pub reconcile_driver : ObjectKey → Action Reply
reconcile_driver key = pure (record { requeue_after = 0 }, none)
