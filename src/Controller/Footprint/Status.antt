-- ===== src/Controller/Footprint/Status.antt =====
-- The calls of a status update.
use docker_machine_operator.Base.{String, ◌≡◌, refl}
use docker_machine_operator.Go.Error.{Error}
use docker_machine_operator.Api.Types.{ObjectKey, Machine}
use docker_machine_operator.Api.Helper.{get_phase}
use docker_machine_operator.Env.Event.{Event, committed}
use docker_machine_operator.Env.{Env}
use docker_machine_operator.Effect.{Action, call, set_machine, ◌>>=◌}
use docker_machine_operator.Effect.Footprint.{
  Emits, Emits-bind, Emits-call, Emits-machine, Emits-set_machine, Emits-set_machine-machine,
  emits_rules,
}
use docker_machine_operator.Controller.Status.{
  mark_true, mark_false, set_summary, set_phase, update_machine_status, set_initial_conditions,
  returned, reconciled, requeue_with_error,
}
use docker_machine_operator.Controller.Footprint.{StatusCalls}

-- The phase does not enter the computation of the phase.
get_phase-set_phase : (m : Machine) → (set_phase m).status.phase ≡ get_phase (set_phase m)
unfolding get_phase
get_phase-set_phase m = refl

module _ (env : Env) {P : Event → Type 0} where
  pub mark_true-Emits : (kind : String) → Emits P (mark_true env kind)
  unfolding mark_true
  mark_true-Emits kind = search emits_rules

  pub mark_false-Emits : (kind reason text : String) → Emits P (mark_false env kind reason text)
  unfolding mark_false
  mark_false-Emits kind reason text = search emits_rules

  set_summary-Emits : Emits P (set_summary env)
  unfolding set_summary
  set_summary-Emits = search emits_rules

module _ (env : Env) {P : Event → Type 0} (status : StatusCalls P) where
  -- The phase is set, and what is in memory is written.
  commit-Emits :
      (server m : Machine)
      → m.status.phase ≡ get_phase m
      → Emits P (call (λ h. env.commit_status h server m) (committed server m) >>= set_machine)
  commit-Emits server m e =
      Emits-bind _ _ (Emits-call _ _ (λ r. status.commit server m r e)) Emits-set_machine

  pub update_machine_status-Emits : (key : ObjectKey) → Emits P (update_machine_status env key)
  unfolding update_machine_status
  update_machine_status-Emits key = Emits-bind _ _ (Emits-call _ _ (status.get key)) λ server.
      Emits-bind _ _ (set_summary-Emits env) λ _. Emits-bind _ _ Emits-machine λ m.
        Emits-set_machine-machine _ _ (commit-Emits server (set_phase m) (get_phase-set_phase m))

  pub set_initial_conditions-Emits : Emits P (set_initial_conditions env)
  unfolding set_initial_conditions
  set_initial_conditions-Emits =
      search (emits_rules, mark_false-Emits env, update_machine_status-Emits)

  pub returned-Emits : (m : Action Unit) → Emits P m → Emits P (returned m)
  returned-Emits m k = search emits_rules

  pub reconciled-Emits : Emits P reconciled
  unfolding reconciled
  reconciled-Emits = search emits_rules

  pub requeue_with_error-Emits : (e : Error) → Emits P (requeue_with_error env e)
  unfolding requeue_with_error
  requeue_with_error-Emits e = search (emits_rules, update_machine_status-Emits)
