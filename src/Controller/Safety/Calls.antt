-- ===== src/Controller/Safety/Calls.antt =====
-- Which calls a reconcile makes by the state of its machine, and the phase of each status that it
-- writes (pkg/controller/machine_controller.go).
use docker_machine_operator.Base.{true, false, ◌≡◌, some, ◌∷◌}
use docker_machine_operator.Go.Text.{is_empty}
use docker_machine_operator.Go.Error.{ok}
use docker_machine_operator.Api.Types.{ObjectKey, Machine}
use docker_machine_operator.Env.Event.{Event, got_machine}
use docker_machine_operator.Env.{Env}
use docker_machine_operator.Effect.{State, call, attempt, set_machine, machine, ◌>>=◌}
use docker_machine_operator.Effect.Footprint.{Extends, same, more, Extends-trans, Emits, Emits-if}
use docker_machine_operator.Controller.Reconcile.{
  is_marked_for_deletion, update_machine_reconcile, reconcile_found, after_get, reconcile,
}
use docker_machine_operator.Controller.Footprint.Whole.{
  reconcile-Emits, reconcile_live-Emits, reconcile_deleted-Emits, no_phase-Emits,
}
use docker_machine_operator.Controller.Safety.Events.{
  CreatesNothing, CreatesNothing-NetworkDeletion, CreatesNothing-SecretCalls,
  CreatesNothing-StatusCalls, CreatesNothing-FinalizerRemoval, IsPhaseRight-FinalizerRemoval,
  CreatesNothing-TeardownCalls, IsPhaseRight, IsPhaseRight-CreationCalls,
  IsPhaseRight-NetworkCreation, IsPhaseRight-NetworkDeletion, IsPhaseRight-SecretCalls,
  IsPhaseRight-StatusCalls, IsPhaseRight-TeardownCalls, KeepsMachine, KeepsMachine-CreationCalls,
  KeepsMachine-NetworkCreation, KeepsMachine-NetworkDeletion, KeepsMachine-SecretCalls,
  KeepsMachine-StatusCalls,
}

module _ (env : Env) (key : ObjectKey) (s : State) where
  -- Whatever the environment answers, every status that a reconcile writes has the phase that
  -- `GetPhase` gives for the object that is written.
  pub reconcile-IsPhaseRight : Extends IsPhaseRight s.log (reconcile env key s).1.log
  reconcile-IsPhaseRight =
      (reconcile-Emits env IsPhaseRight-StatusCalls IsPhaseRight-SecretCalls
          IsPhaseRight-NetworkDeletion IsPhaseRight-NetworkCreation IsPhaseRight-CreationCalls
          IsPhaseRight-TeardownCalls IsPhaseRight-FinalizerRemoval key).at
        s

  module _ {m : Machine} (found : env.get_machine s.log key ≡ ok m) where
    -- The state in which the machine is looked at.
    abbrev pub after_found : State
    after_found = record { machine_obj = some m; log = got_machine key (ok m) ∷ s.log }

    pub reconcile_found_lem : reconcile env key s ≡ reconcile_found env key m after_found
    unfolding reconcile update_machine_reconcile after_get call attempt set_machine machine ◌>>=◌
    reconcile_found_lem = rw found

    found-Extends :
        {P : Event → Type 0}
        → P (got_machine key (ok m))
        → Emits P (reconcile_found env key m)
        → Extends P s.log (reconcile env key s).1.log
    found-Extends p k = rw reconcile_found_lem (Extends-trans (more p same) (k.at after_found))

    -- If the machine that is read is not marked for deletion, the reconcile asks for no finalizer to
    -- be removed, runs no `docker-machine rm`, makes no Azure call, and removes no file but the
    -- script's result.
    pub reconcile-KeepsMachine :
        is_marked_for_deletion m ≡ false → Extends KeepsMachine s.log (reconcile env key s).1.log
    unfolding reconcile_found
    reconcile-KeepsMachine live = found-Extends tt (
        rw live (
          Emits-if (is_empty m.status.phase) _ _
            (no_phase-Emits env KeepsMachine-StatusCalls KeepsMachine-SecretCalls
              KeepsMachine-NetworkDeletion key)
            (reconcile_live-Emits env KeepsMachine-StatusCalls KeepsMachine-SecretCalls
              KeepsMachine-NetworkDeletion KeepsMachine-NetworkCreation KeepsMachine-CreationCalls
              key)))

    -- If the machine that is read is marked for deletion, the reconcile runs no `docker-machine
    -- create`, writes no file, creates and attaches nothing on AWS, and asks for no finalizer or
    -- annotation to be set.
    pub reconcile-CreatesNothing :
        is_marked_for_deletion m ≡ true → Extends CreatesNothing s.log (reconcile env key s).1.log
    unfolding reconcile_found
    reconcile-CreatesNothing marked = found-Extends tt (
        rw marked (
          Emits-if (is_empty m.status.phase) _ _
            (no_phase-Emits env CreatesNothing-StatusCalls CreatesNothing-SecretCalls
              CreatesNothing-NetworkDeletion key)
            (reconcile_deleted-Emits env CreatesNothing-StatusCalls CreatesNothing-SecretCalls
              CreatesNothing-NetworkDeletion CreatesNothing-TeardownCalls
              CreatesNothing-FinalizerRemoval)))
