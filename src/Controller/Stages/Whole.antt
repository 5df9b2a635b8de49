-- ===== src/Controller/Stages/Whole.antt =====
-- The stages of a whole reconcile (pkg/controller/machine_controller.go).
use docker_machine_operator.Base.{Bool, true, false, ◌≡◌, refl, ◌∷◌, arith, if◌then◌else◌}
use docker_machine_operator.Go.Error.{Except, ok}
use docker_machine_operator.Go.Text.{is_empty}
use docker_machine_operator.Api.Types.{ObjectKey, Machine}
use docker_machine_operator.Env.Event.{History, got_machine}
use docker_machine_operator.Env.{Env}
use docker_machine_operator.Effect.{State}
use docker_machine_operator.Effect.Footprint.{Emits-pure, Emits-bind}
use docker_machine_operator.Effect.Staged.{
  Staged, start, free, Staged-trans, Ordered, Ordered-within, Emits-within,
}
use docker_machine_operator.Controller.Reconcile.{
  is_marked_for_deletion, no_phase, reconcile_found, reconcile, reconcile_deleted, reconcile_live,
}
use docker_machine_operator.Controller.Footprint.Status.{
  update_machine_status-Emits, returned-Emits,
}
use docker_machine_operator.Controller.Safety.Calls.{after_found, reconcile_found_lem}
use docker_machine_operator.Controller.Stages.{
  live_stage, teardown_stage, stage_of, live-StatusCalls, teardown-StatusCalls,
}
use docker_machine_operator.Controller.Stages.Live.{reconcile_live-Ordered}
use docker_machine_operator.Controller.Stages.Teardown.{reconcile_deleted-Ordered}

module _ (env : Env) (key : ObjectKey) where
  no_phase-live : Ordered live_stage 1 7 (no_phase env key)
  unfolding no_phase
  no_phase-live = Emits-within 1 _ (omega arith) (omega arith) (
      Emits-bind _ _
        (returned-Emits env (live-StatusCalls 1) _
          (update_machine_status-Emits env (live-StatusCalls 1) key))
        (λ e. Emits-pure _))

  no_phase-teardown : Ordered teardown_stage 1 7 (no_phase env key)
  unfolding no_phase
  no_phase-teardown = Emits-within 1 _ (omega arith) (omega arith) (
      Emits-bind _ _
        (returned-Emits env (teardown-StatusCalls 1) _
          (update_machine_status-Emits env (teardown-StatusCalls 1) key))
        (λ e. Emits-pure _))

  branches-Ordered :
      (b c : Bool)
      → Ordered (stage_of c) 1 7 (
          if b
          then no_phase env key
          else if c
          then reconcile_deleted env
          else reconcile_live env key)
  branches-Ordered true true = no_phase-teardown
  branches-Ordered true false = no_phase-live
  branches-Ordered false true =
      Ordered-within _ (omega arith) (omega arith) (reconcile_deleted-Ordered env)
  branches-Ordered false false = reconcile_live-Ordered env key

  reconcile_found-Ordered :
      (m : Machine) → Ordered (stage_of (is_marked_for_deletion m)) 1 7 (reconcile_found env key m)
  unfolding reconcile_found
  reconcile_found-Ordered m = branches-Ordered (is_empty m.status.phase) (is_marked_for_deletion m)

  -- The reading of the machine is at no stage.
  read-Staged :
      (c : Bool) (h : History) (r : Except Machine)
      → Staged (stage_of c) 1 h 1 (got_machine key r ∷ h)
  read-Staged true h r = free refl (start (omega arith))
  read-Staged false h r = free refl (start (omega arith))

  -- If the machine can be read, the calls of the reconcile come in stages. Where the machine is not
  -- marked for deletion: the finalizer, the network, the file of the startup script, `docker-machine
  -- create`, then the copy of the script's result, the opening of the copy and its removal. Where it
  -- is: its files, `docker-machine rm`, the network on AWS or the group on Azure, then the finalizer.
  -- No call of a stage comes after one of a later stage.
  pub reconcile-IsStaged :
      (s : State) {m : Machine}
      → env.get_machine s.log key ≡ ok m
      → Staged (stage_of (is_marked_for_deletion m)) 1 s.log 7 (reconcile env key s).1.log
  reconcile-IsStaged s {m} found = rw (reconcile_found_lem env key s found) (
      Staged-trans (read-Staged (is_marked_for_deletion m) s.log (ok m))
        ((reconcile_found-Ordered m).at (after_found env key s found)))
