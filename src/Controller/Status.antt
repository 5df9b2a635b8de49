-- ===== src/Controller/Status.antt =====
-- pkg/controller/util.go: the conditions and the status of a machine, and how a reconcile ends.
use docker_machine_operator.Base.{String, ℕ, Bool, Option, some, none}
use docker_machine_operator.Go.Error.{Error, error_of}
use docker_machine_operator.Api.Types.{ObjectKey, Machine, get_conditions, set_conditions, key_of}
use docker_machine_operator.Api.Names.{machine_ready, cluster_operation_complete, severity_error}
use docker_machine_operator.Api.Reason
use docker_machine_operator.Api.Helper.{conditions_order, get_phase}
use docker_machine_operator.Env.Event.{got_machine, committed}
use docker_machine_operator.Env.{Env}
use docker_machine_operator.Effect.{Action, pure, call, attempt, machine, set_machine, ◌>>=◌, ◌>>◌}

-- `ctrl.Result`: `RequeueAfter` in seconds, 0 for none.
pub record CtrlResult : Type 0 where
  pub requeue_after : ℕ

-- `r.machineObj.Status.Phase = api.GetPhase(r.machineObj)`
abbrev pub set_phase : Machine → Machine
set_phase m = record m { status = record (m.status) { phase = get_phase m } }

-- An action that the source returns as an `error`.
abbrev pub returned : Action Unit → Action (Option Error)
returned act = do r ← attempt act; pure (error_of r)

-- `reconciled` and `requeueWithError` return a result and an error.
unfoldable pub reconciled : Action (CtrlResult × Option Error)
reconciled = pure (record { requeue_after = 0 }, none)

module _ (env : Env) where
  -- `cutil.IsConditionTrue(r.machineObj.Status.Conditions, kind)`
  abbrev pub is_true : Machine → String → Bool
  is_true m kind = env.is_condition_true (get_conditions m) kind

  -- The condition helpers, applied to `r.machineObj`.
  unfoldable pub mark_true : String → Action Unit
  mark_true kind = do m ← machine; set_machine (set_conditions m (env.mark_true m kind))

  unfoldable pub mark_false : String → String → String → Action Unit
  mark_false kind reason text = do
    m ← machine
    set_machine (set_conditions m (env.mark_false m kind reason severity_error text))

  unfoldable pub set_summary : Action Unit
  set_summary = do m ← machine; set_machine (set_conditions m (env.set_summary m conditions_order))

  -- The machine in memory, as `updateMachineStatus` hands it to the committer.
  abbrev pub summarised : Machine → Machine
  summarised m = set_phase (set_conditions m (env.set_summary m conditions_order))

  unfoldable pub update_machine_status : ObjectKey → Action Unit
  unfolding set_summary
  update_machine_status key = do
    server ← call (λ h. env.get_machine h key) (got_machine key)
    set_summary
    m ← machine
    set_machine (set_phase m)
    m ← machine
    stored ← call (λ h. env.commit_status h server m) (committed server m)
    set_machine stored

  unfoldable pub set_initial_conditions : Action Unit
  unfolding mark_false
  set_initial_conditions = do
    mark_false machine_ready Reason.machine_creating "Waiting for Machine to become ready"
    mark_false cluster_operation_complete Reason.waiting_for_script_run "Waiting for Script to run"
    m ← machine
    update_machine_status (key_of m)

  abbrev answer_of : Error → Option Error → Option Error
  answer_of e none = some e
  answer_of e (some update_error) = some update_error

  unfoldable pub requeue_with_error : Error → Action (CtrlResult × Option Error)
  requeue_with_error e = do
    m ← machine
    update_error ← returned (update_machine_status (key_of m))
    pure (record { requeue_after = 0 }, answer_of e update_error)
