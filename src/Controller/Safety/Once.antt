-- ===== src/Controller/Safety/Once.antt =====
-- A machine that was created is not created again (pkg/controller/machine_controller.go and
-- machine.go).
use docker_machine_operator.Base.{Bool, true, false, ◌||◌, ◌≡◌, refl, ◌⊎◌, inl, inr, ◌∷◌}
use docker_machine_operator.Go.Text.{is_empty}
use docker_machine_operator.Go.Error.{ok}
use docker_machine_operator.Api.Types.{ObjectKey, Machine}
use docker_machine_operator.Api.Names.{machine_ready, machine_creating}
use docker_machine_operator.Api.Helper.{get_finalizer}
use docker_machine_operator.Env.Event.{got_machine}
use docker_machine_operator.Env.{Env}
use docker_machine_operator.Effect.{State, attempt, machine, skip, pure, ◌>>=◌}
use docker_machine_operator.Effect.Footprint.{Extends, same, more, Extends-trans}
use docker_machine_operator.Controller.Status.{is_true}
use docker_machine_operator.Controller.Finalizer.{ensure_finalizer}
use docker_machine_operator.Controller.Create.{create_machine}
use docker_machine_operator.Controller.Reconcile.{
  is_marked_for_deletion, reconcile_found, after_finalizer, reconcile_live, reconcile,
}
use docker_machine_operator.Controller.Footprint.{StatusCalls, ResultCalls}
use docker_machine_operator.Controller.Footprint.Whole.{
  reconcile_deleted-Emits, no_phase-Emits, after_create-Emits,
}
use docker_machine_operator.Controller.Safety.Events.{
  CreatesNothing-StatusCalls, CreatesNothing-SecretCalls, CreatesNothing-NetworkDeletion,
  CreatesNothing-TeardownCalls, CreatesNothing-FinalizerRemoval,
}
use docker_machine_operator.Controller.Safety.Calls.{after_found, reconcile_found_lem}
use docker_machine_operator.Controller.Safety.Protected.{
  BuildsNothing, Extends-BuildsNothing, branches,
}

BuildsNothing-StatusCalls : StatusCalls BuildsNothing
BuildsNothing-StatusCalls = record { get = λ _ _. tt; commit = λ _ _ _ _. tt }

BuildsNothing-ResultCalls : ResultCalls BuildsNothing
BuildsNothing-ResultCalls = record { copy = λ _ _ _. refl; opened = λ _. tt; removed = λ _. tt }

either-true : (b c : Bool) → (b ≡ true) ⊎ (c ≡ true) → (b || c) ≡ true
either-true b c (inl e) = rw e refl
either-true true c (inr e) = refl
either-true false c (inr e) = e

module _ (env : Env) (key : ObjectKey) (s : State) {m : Machine}
    (found : env.get_machine s.log key ≡ ok m)
    (protected : env.contains_finalizer m get_finalizer ≡ true)
    (created : (is_true env m machine_creating ≡ true) ⊎ (is_true env m machine_ready ≡ true)) where
  live-created :
      Extends BuildsNothing
        (got_machine key (ok m) ∷ s.log)
        (reconcile_live env key (after_found env key s found)).1.log
  unfolding reconcile_live ensure_finalizer after_finalizer create_machine attempt machine skip pure
      ◌>>=◌
  live-created =
      rw (protected, either-true _ _ created)
        ((after_create-Emits env BuildsNothing-StatusCalls BuildsNothing-ResultCalls key (ok tt)).at
          (after_found env key s found))

  -- If the machine that is read has the finalizer, and its condition MachineCreating or MachineReady is
  -- true, then whatever the environment answers, the reconcile runs no `docker-machine create`,
  -- writes no file, and creates and attaches nothing on AWS.
  pub reconcile-created : Extends BuildsNothing s.log (reconcile env key s).1.log
  unfolding reconcile_found
  reconcile-created = rw (reconcile_found_lem env key s found) (
      Extends-trans (more tt same) (
        branches (is_empty m.status.phase) (is_marked_for_deletion m) _ _ _
          (after_found env key s found)
          (Extends-BuildsNothing (
            (no_phase-Emits env CreatesNothing-StatusCalls CreatesNothing-SecretCalls
                CreatesNothing-NetworkDeletion key).at
              (after_found env key s found)))
          (Extends-BuildsNothing (
            (reconcile_deleted-Emits env CreatesNothing-StatusCalls CreatesNothing-SecretCalls
                CreatesNothing-NetworkDeletion CreatesNothing-TeardownCalls
                CreatesNothing-FinalizerRemoval).at
              (after_found env key s found)))
          live-created))
