-- ===== src/Controller/Bounds/Whole.antt =====
-- How many resources a reconcile makes (pkg/controller/machine_controller.go).
use docker_machine_operator.Base.{ℕ, ◌+◌, ◌≤◌, arith}
use docker_machine_operator.Go.Error.{Error, Except, ok, err}
use docker_machine_operator.Api.Types.{ObjectKey, Machine}
use docker_machine_operator.Env.{Env}
use docker_machine_operator.Effect.{State}
use docker_machine_operator.Effect.Footprint.{Emits-attempt, Emits-machine, emits_rules}
use docker_machine_operator.Effect.Costs.{
  Costs, Costs-free, Costs-if, Costs-attempt, Costs-after, Costs-before,
}
use docker_machine_operator.Controller.Status.{requeue_with_error}
use docker_machine_operator.Controller.Reconcile.{
  update_machine_reconcile, after_finalizer, reconcile_live, reconcile_found, after_get, reconcile,
}
use docker_machine_operator.Controller.Footprint.Status.{reconciled-Emits, requeue_with_error-Emits}
use docker_machine_operator.Controller.Footprint.Creation.{ensure_finalizer-Emits}
use docker_machine_operator.Controller.Footprint.Whole.{
  no_phase-Emits, reconcile_deleted-Emits, after_create-Emits,
}
use docker_machine_operator.Controller.Bounds.{
  Resource, hosts, vpcs, subnets, gateways, units, creations, one_each, units-StatusCalls,
  units-SecretCalls, units-NetworkDeletion, units-LiveCalls, units-TeardownCalls,
  units-FinalizerRemoval,
}
use docker_machine_operator.Controller.Bounds.Creation.{create_machine-Costs}

module _ (env : Env) (key : ObjectKey) where
  module _ (r : Resource) where
    abbrev made : ℕ
    made = (vpcs r + (subnets r + gateways r)) + hosts r

    requeue-Costs : (e : Error) → Costs (units r) made (requeue_with_error env e)
    requeue-Costs e =
        Costs-free (units r) _ _ (requeue_with_error-Emits env (units-StatusCalls r) e)

    after_finalizer-Costs : (e : Except Unit) → Costs (units r) made (after_finalizer env key e)
    unfolding after_finalizer
    after_finalizer-Costs (err e) =
        Costs-if (units r) _ _ _ _
          (Costs-free (units r) _ _ (reconciled-Emits env (units-StatusCalls r))) (requeue-Costs e)
    after_finalizer-Costs (ok _) =
        Costs-before (units r) _ _ _ (Costs-attempt (units r) _ _ (create_machine-Costs r env))
          (after_create-Emits env (units-StatusCalls r) (units-LiveCalls r).result key)

    reconcile_found-Costs : (m : Machine) → Costs (units r) made (reconcile_found env key m)
    unfolding reconcile_found reconcile_live
    reconcile_found-Costs m =
        Costs-if (units r) _ _ _ _
          (Costs-free (units r) _ _ (
            no_phase-Emits env (units-StatusCalls r) (units-SecretCalls r) (units-NetworkDeletion r)
              key))
          (Costs-if (units r) _ _ _ _
            (Costs-free (units r) _ _ (
              reconcile_deleted-Emits env (units-StatusCalls r) (units-SecretCalls r)
                (units-NetworkDeletion r) (units-TeardownCalls r) (units-FinalizerRemoval r)))
            (Costs-after (units r) _ _ _
              (Emits-attempt _ (ensure_finalizer-Emits env (units-LiveCalls r).addition))
              after_finalizer-Costs))

    after_get-Costs : (e : Except Unit) → Costs (units r) made (after_get env key e)
    unfolding after_get
    after_get-Costs (err e) =
        Costs-if (units r) _ _ _ _
          (Costs-free (units r) _ _ (reconciled-Emits env (units-StatusCalls r))) (requeue-Costs e)
    after_get-Costs (ok _) = Costs-after (units r) _ _ _ Emits-machine reconcile_found-Costs

    reconcile-Costs : Costs (units r) made (reconcile env key)
    unfolding reconcile update_machine_reconcile
    reconcile-Costs =
        Costs-after (units r) _ _ _ (search (emits_rules, (units-StatusCalls r).get))
          after_get-Costs

  -- Whatever the environment answers, a reconcile runs `docker-machine create` at most once, and asks
  -- EC2 at most once for a VPC, at most once for a subnet, and at most once for an internet gateway.
  pub reconcile-creates_once :
      (r : Resource) (s : State) → creations r (reconcile env key s).1.log ≤ creations r s.log + 1
  reconcile-creates_once r s = omega (arith, one_each r, (reconcile-Costs r).at s)
