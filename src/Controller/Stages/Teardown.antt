-- ===== src/Controller/Stages/Teardown.antt =====
-- The stages of a machine that is marked for deletion (pkg/controller/util.go).
use docker_machine_operator.Base.{arith}
use docker_machine_operator.Go.Error.{Except, ok, err}
use docker_machine_operator.Api.Types.{key_of}
use docker_machine_operator.Env.{Env}
use docker_machine_operator.Effect.Footprint.{Emits-machine, Emits-skip}
use docker_machine_operator.Effect.Staged.{
  Ordered, Ordered-bind, Ordered-if, Ordered-attempt, Ordered-then, Emits-within, Emits-Ordered,
}
use docker_machine_operator.Controller.Cleanup.{
  cleanup_machine_resources, remove_finalizer_after_cleanup,
}
use docker_machine_operator.Controller.Reconcile.{after_cleanup, reconcile_deleted}
use docker_machine_operator.Controller.Footprint.Status.{
  update_machine_status-Emits, reconciled-Emits, requeue_with_error-Emits,
}
use docker_machine_operator.Controller.Footprint.Network.{driver_name-Emits}
use docker_machine_operator.Controller.Footprint.Teardown.{
  delete_files-Emits, delete_docker_machine-Emits, cleanup_cloud-Emits, patch_finalizer-Emits,
}
use docker_machine_operator.Controller.Stages.{
  teardown_stage, teardown-StatusCalls, teardown-SecretCalls, teardown-NetworkDeletion,
  teardown-FileRemoval, teardown-HostRemoval, teardown-GroupDeletion, teardown-FinalizerRemoval,
}

module _ (env : Env) where
  cleanup_machine_resources-Ordered : Ordered teardown_stage 1 3 (cleanup_machine_resources env)
  unfolding cleanup_machine_resources
  cleanup_machine_resources-Ordered =
      Ordered-then 1 _ _ (omega arith) (omega arith) (delete_files-Emits env teardown-FileRemoval)
        λ _.
          Ordered-then 2 _ _ (omega arith) (omega arith)
            (delete_docker_machine-Emits env teardown-HostRemoval)
            λ _. Ordered-then 2 _ _ (omega arith) (omega arith) driver_name-Emits λ driver.
              Emits-within 3 _ (omega arith) (omega arith) (
                cleanup_cloud-Emits env (teardown-SecretCalls 3) teardown-NetworkDeletion
                  teardown-GroupDeletion driver)

  remove_finalizer_after_cleanup-Ordered :
      Ordered teardown_stage 1 4 (remove_finalizer_after_cleanup env)
  unfolding remove_finalizer_after_cleanup
  remove_finalizer_after_cleanup-Ordered =
      Ordered-then 1 _ _ (omega arith) (omega arith) Emits-machine λ m.
        Ordered-if _ _ _
          (Ordered-then 1 _ _ (omega arith) (omega arith)
            (update_machine_status-Emits env (teardown-StatusCalls 1) (key_of m))
            λ _. Ordered-bind {mid = 3} _ _ (omega arith) cleanup_machine_resources-Ordered λ _.
              Emits-within 4 _ (omega arith) (omega arith)
                (patch_finalizer-Emits env teardown-FinalizerRemoval))
          (Emits-within 1 _ (omega arith) (omega arith) Emits-skip)

  after_cleanup-Ordered : (r : Except Unit) → Ordered teardown_stage 4 4 (after_cleanup env r)
  unfolding after_cleanup
  after_cleanup-Ordered (ok _) = Emits-Ordered _ (reconciled-Emits env (teardown-StatusCalls 4))
  after_cleanup-Ordered (err e) =
      Emits-Ordered _ (requeue_with_error-Emits env (teardown-StatusCalls 4) e)

  pub reconcile_deleted-Ordered : Ordered teardown_stage 1 4 (reconcile_deleted env)
  unfolding reconcile_deleted
  reconcile_deleted-Ordered =
      Ordered-bind {mid = 4} _ _ (omega arith)
        (Ordered-attempt _ remove_finalizer_after_cleanup-Ordered) after_cleanup-Ordered
