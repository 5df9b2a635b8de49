-- ===== src/Controller/Footprint/Whole.antt =====
-- The calls of a whole reconcile, by the state of the machine that it finds.
use docker_machine_operator.Base.{Bool}
use docker_machine_operator.Go.Text.{is_empty}
use docker_machine_operator.Go.Error.{Except, ok, err}
use docker_machine_operator.Api.Types.{ObjectKey, Machine}
use docker_machine_operator.Env.Event.{Event}
use docker_machine_operator.Env.{Env}
use docker_machine_operator.Effect.Footprint.{
  Emits, Emits-bind, Emits-if, Emits-pure, Emits-attempt, Emits-machine, emits_rules,
}
use docker_machine_operator.Controller.Reconcile.{
  update_machine_reconcile, after_cleanup, reconcile_deleted, after_script, after_create,
  after_finalizer, reconcile_live, no_phase, reconcile_found, after_get, reconcile,
}
use docker_machine_operator.Controller.Footprint.{
  StatusCalls, SecretCalls, NetworkDeletion, NetworkCreation, ResultCalls, CreationCalls,
  TeardownCalls, FinalizerRemoval,
}
use docker_machine_operator.Controller.Footprint.Status.{
  update_machine_status-Emits, reconciled-Emits, requeue_with_error-Emits, returned-Emits,
}
use docker_machine_operator.Controller.Footprint.Creation.{
  ensure_finalizer-Emits, create_machine-Emits, is_script_finished-Emits,
}
use docker_machine_operator.Controller.Footprint.Teardown.{remove_finalizer_after_cleanup-Emits}

module _ (env : Env) {P : Event → Type 0} (status : StatusCalls P) (result : ResultCalls P) where
  after_script-Emits : (key : ObjectKey) (r : Except Bool) → Emits P (after_script env key r)
  unfolding after_script
  after_script-Emits key (err e) = requeue_with_error-Emits env status e
  after_script-Emits key (ok rekey) =
      search (emits_rules, returned-Emits env status, update_machine_status-Emits env status)

  pub after_create-Emits : (key : ObjectKey) (r : Except Unit) → Emits P (after_create env key r)
  unfolding after_create
  after_create-Emits key (err e) = requeue_with_error-Emits env status e
  after_create-Emits key (ok _) =
      Emits-bind _ _ (Emits-attempt _ (is_script_finished-Emits env status result))
        (after_script-Emits key)

module _ (env : Env) {P : Event → Type 0} (status : StatusCalls P) (secrets : SecretCalls P)
    (deletion : NetworkDeletion P) where
  -- A machine that has no phase yet.
  pub no_phase-Emits : (key : ObjectKey) → Emits P (no_phase env key)
  unfolding no_phase
  no_phase-Emits key =
      Emits-bind _ _ (returned-Emits env status _ (update_machine_status-Emits env status key))
        (λ e. Emits-pure _)

  -- A machine that is marked for deletion.
  pub reconcile_deleted-Emits :
      TeardownCalls P → FinalizerRemoval P → Emits P (reconcile_deleted env)
  unfolding reconcile_deleted
  reconcile_deleted-Emits teardown removal =
      Emits-bind _ _
        (Emits-attempt _
          (remove_finalizer_after_cleanup-Emits env status secrets deletion teardown removal))
        after_cleanup-Emits
    where
      after_cleanup-Emits : (r : Except Unit) → Emits P (after_cleanup env r)
      after_cleanup-Emits (ok _) = reconciled-Emits env status
      after_cleanup-Emits (err e) = requeue_with_error-Emits env status e

  module _ (network : NetworkCreation P) (creation : CreationCalls P) where
    after_finalizer-Emits :
        (key : ObjectKey) (r : Except Unit) → Emits P (after_finalizer env key r)
    unfolding after_finalizer
    after_finalizer-Emits key (err e) =
        Emits-if _ _ _ (reconciled-Emits env status) (requeue_with_error-Emits env status e)
    after_finalizer-Emits key (ok _) =
        Emits-bind _ _
          (Emits-attempt _ (create_machine-Emits env status secrets creation deletion network))
          (after_create-Emits env status creation.live.result key)

    -- A machine that is not.
    pub reconcile_live-Emits : (key : ObjectKey) → Emits P (reconcile_live env key)
    unfolding reconcile_live
    reconcile_live-Emits key =
        Emits-bind _ _ (Emits-attempt _ (ensure_finalizer-Emits env creation.live.addition))
          (after_finalizer-Emits key)

    module _ (teardown : TeardownCalls P) (removal : FinalizerRemoval P) where
      reconcile_found-Emits : (key : ObjectKey) (m : Machine) → Emits P (reconcile_found env key m)
      unfolding reconcile_found
      reconcile_found-Emits key m =
          Emits-if (is_empty m.status.phase) _ _ (no_phase-Emits key)
            (Emits-if _ _ _ (reconcile_deleted-Emits teardown removal) (reconcile_live-Emits key))

      after_get-Emits : (key : ObjectKey) (r : Except Unit) → Emits P (after_get env key r)
      unfolding after_get
      after_get-Emits key (err e) =
          Emits-if _ _ _ (reconciled-Emits env status) (requeue_with_error-Emits env status e)
      after_get-Emits key (ok _) = Emits-bind _ _ Emits-machine (reconcile_found-Emits key)

      -- Any machine.
      pub reconcile-Emits : (key : ObjectKey) → Emits P (reconcile env key)
      unfolding reconcile update_machine_reconcile
      reconcile-Emits key = Emits-bind _ _ (search (emits_rules, status.get)) (after_get-Emits key)
