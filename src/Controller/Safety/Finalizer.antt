-- ===== src/Controller/Safety/Finalizer.antt =====
-- When the finalizer of a machine is removed (pkg/controller/util.go): in one clean-up, in one
-- reconcile, and in a run of reconciles.
use docker_machine_operator.Base.{List, [], ◌∷◌}
use docker_machine_operator.Go.Error.{Except, ok, err}
use docker_machine_operator.Go.Text.{is_empty}
use docker_machine_operator.Api.Types.{ObjectKey, Machine, key_of}
use docker_machine_operator.Env.{Env}
use docker_machine_operator.Effect.{State, Action, attempt}
use docker_machine_operator.Effect.Footprint.{
  Emits, Emits-if, Emits-machine, Emits-skip, emits_rules,
}
use docker_machine_operator.Effect.Triple.{Triple, Triple-of, Triple-if, Triple-bind}
use docker_machine_operator.Controller.Cleanup.{
  cleanup_machine_resources, remove_finalizer_after_cleanup,
}
use docker_machine_operator.Controller.Reconcile.{
  after_cleanup, reconcile_deleted, is_marked_for_deletion, reconcile_found, after_get,
  update_machine_reconcile, reconcile,
}
use docker_machine_operator.Controller.Footprint.Status.{
  update_machine_status-Emits, reconciled-Emits, requeue_with_error-Emits,
}
use docker_machine_operator.Controller.Footprint.Network.{driver_name-Emits}
use docker_machine_operator.Controller.Footprint.Teardown.{delete_files-Emits, cleanup_cloud-Emits}
use docker_machine_operator.Controller.Footprint.Whole.{no_phase-Emits, reconcile_live-Emits}
use docker_machine_operator.Controller.Safety.Events.Kept.{
  KeepsFinalizer, KeepsFinalizer-StatusCalls, KeepsFinalizer-SecretCalls,
  KeepsFinalizer-NetworkDeletion, KeepsFinalizer-NetworkCreation, KeepsFinalizer-CreationCalls,
  KeepsFinalizer-TeardownCalls,
}
use docker_machine_operator.Controller.Safety.ReadOnly.{
  driver_name-IsReadOnly, cleanup_cloud-IsReadOnly,
}
use docker_machine_operator.Controller.Safety.Guard.{
  IsGuarded, Guarded, Removed, Emits-Guarded, Emits-Removed, delete_docker_machine-Removed,
  patch_finalizer-Guarded,
}
use docker_machine_operator.Controller.Worker.{serve}

module _ (env : Env) where
  cleanup-Removed :
      Triple (Guarded env) (cleanup_machine_resources env) (Guarded env) (λ _. Removed env)
  unfolding cleanup_machine_resources
  cleanup-Removed =
      Triple-bind (λ _. Guarded env) _ _
        (Emits-Guarded env _ (delete_files-Emits env KeepsFinalizer-TeardownCalls.files))
        λ _.
          Triple-bind (λ _. Removed env) _ _ (delete_docker_machine-Removed env)
            λ _.
              Triple-bind (λ _. Removed env) _ _
                (Emits-Removed env _ driver_name-Emits driver_name-IsReadOnly)
                λ driver.
                  Emits-Removed env _
                    (cleanup_cloud-Emits env KeepsFinalizer-SecretCalls
                      KeepsFinalizer-NetworkDeletion KeepsFinalizer-TeardownCalls.group driver)
                    (cleanup_cloud-IsReadOnly env driver)

  remove_finalizer-Guarded :
      Triple (Guarded env) (remove_finalizer_after_cleanup env) (Guarded env) (λ _. Guarded env)
  unfolding remove_finalizer_after_cleanup
  remove_finalizer-Guarded =
      Triple-bind (λ _. Guarded env) _ _ (Emits-Guarded env _ Emits-machine)
        λ m.
          Triple-if _ _ _
            (Triple-bind (λ _. Guarded env) _ _
              (Emits-Guarded env _
                (update_machine_status-Emits env KeepsFinalizer-StatusCalls (key_of m)))
              λ _.
                Triple-bind (λ _. Removed env) _ _ cleanup-Removed
                  (λ _. patch_finalizer-Guarded env))
            (Emits-Guarded env _ Emits-skip)

  attempt-Guarded :
      (m : Action Unit)
      → Triple (Guarded env) m (Guarded env) (λ _. Guarded env)
      → Triple (Guarded env) (attempt m) (Guarded env) (λ _. Guarded env)
  unfolding attempt
  attempt-Guarded m k = Triple-of _ λ s g. (k.at s g).0

  after_cleanup-Emits : (r : Except Unit) → Emits KeepsFinalizer (after_cleanup env r)
  unfolding after_cleanup
  after_cleanup-Emits (ok _) = reconciled-Emits env KeepsFinalizer-StatusCalls
  after_cleanup-Emits (err e) = requeue_with_error-Emits env KeepsFinalizer-StatusCalls e

  reconcile_deleted-Guarded :
      Triple (Guarded env) (reconcile_deleted env) (Guarded env) (λ _. Guarded env)
  unfolding reconcile_deleted
  reconcile_deleted-Guarded =
      Triple-bind (λ _. Guarded env) _ _ (attempt-Guarded _ remove_finalizer-Guarded)
        λ r. Emits-Guarded env _ (after_cleanup-Emits r)

  module _ (key : ObjectKey) where
    reconcile_found-Guarded :
        (m : Machine)
        → Triple (Guarded env) (reconcile_found env key m) (Guarded env) (λ _. Guarded env)
    unfolding reconcile_found
    reconcile_found-Guarded m =
        Triple-if (is_empty m.status.phase) _ _
          (Emits-Guarded env _ (
            no_phase-Emits env KeepsFinalizer-StatusCalls KeepsFinalizer-SecretCalls
              KeepsFinalizer-NetworkDeletion key))
          (Triple-if (is_marked_for_deletion m) _ _ reconcile_deleted-Guarded (
            Emits-Guarded env _ (
              reconcile_live-Emits env KeepsFinalizer-StatusCalls KeepsFinalizer-SecretCalls
                KeepsFinalizer-NetworkDeletion KeepsFinalizer-NetworkCreation
                KeepsFinalizer-CreationCalls key)))

    after_get-Guarded :
        (r : Except Unit)
        → Triple (Guarded env) (after_get env key r) (Guarded env) (λ _. Guarded env)
    unfolding after_get
    after_get-Guarded (err e) = Emits-Guarded env _ (
        Emits-if (env.is_not_found e) _ _ (reconciled-Emits env KeepsFinalizer-StatusCalls)
          (requeue_with_error-Emits env KeepsFinalizer-StatusCalls e))
    after_get-Guarded (ok _) =
        Triple-bind (λ _. Guarded env) _ _ (Emits-Guarded env _ Emits-machine)
          reconcile_found-Guarded

    reconcile-Guarded : Triple (Guarded env) (reconcile env key) (Guarded env) (λ _. Guarded env)
    unfolding reconcile update_machine_reconcile
    reconcile-Guarded =
        Triple-bind (λ _. Guarded env) _ _ (Emits-Guarded env _ (search emits_rules))
          after_get-Guarded

  -- Whatever the environment answers, and whatever is requested in whatever order: from a guarded
  -- history a worker reaches guarded histories only. Each request to remove the finalizer from a
  -- machine comes after a `docker-machine rm` of its name whose result was accepted.
  pub serve-IsGuarded :
      (keys : List ObjectKey) (s : State)
      → IsGuarded env s.log
      → IsGuarded env (serve env keys s).log
  unfolding serve
  serve-IsGuarded [] s g = g
  serve-IsGuarded (key ∷ keys) s g =
      serve-IsGuarded keys (reconcile env key s).1 ((reconcile-Guarded key).at s g).0
