-- ===== src/Api/Helper.antt =====
-- api/v1alpha1/helper.go: the order of the conditions, `GetPhase` and `GetFinalizer`.
pub mod Table
pub mod Given
use docker_machine_operator.Base.{
  String, ◌==◌, ℕ, eqb, Bool, true, false, not, Option, none, some, List, [], ◌∷◌, if◌then◌else◌,
}
use docker_machine_operator.Api.Types.{Condition, Machine, MachinePhase, get_conditions}
use docker_machine_operator.Api.Names.{
  machine_ready, cluster_operation_complete, auth_data_ready, script_ready, ready_condition,
  condition_true,
}
use docker_machine_operator.Api.Reason
use docker_machine_operator.Api.Phase

abbrev pub conditions_order : List String
conditions_order = machine_ready ∷ cluster_operation_complete ∷ auth_data_ready ∷ script_ready ∷ []

-- `GroupVersion.Group`, groupversion_info.go
abbrev pub group : String
group = "docker-machine.klusters.dev"

abbrev pub get_finalizer : String
get_finalizer = group

-- `t.IsZero()`: a nil pointer, or the zero time.
abbrev pub is_zero : Option ℕ → Bool
is_zero none = true
is_zero (some t) = eqb t 0

-- The loop of `GetPhase`: the first condition of type Ready, or the zero condition.
abbrev pub find_ready : List Condition → Condition
find_ready [] = record { kind = ""; status = ""; severity = ""; reason = ""; message = "" }
find_ready (c ∷ cs) = if c.kind == ready_condition then c else find_ready cs

-- The tests after the loop, on the condition that it found.
abbrev pub phase_of_ready : Condition → MachinePhase
phase_of_ready cond =
    if not (cond.kind == ready_condition)
    then Phase.pending
    else if cond.status == condition_true
    then Phase.success
    else if cond.reason == Reason.waiting_for_script_completion
    then Phase.waiting_for_script_completion
    else if cond.reason == Reason.cluster_operation_failed
    then Phase.cluster_operation_failed
    else if cond.reason == Reason.machine_creation_failed
    then Phase.failed
    else Phase.in_progress

abbrev pub phase_of_conditions : List Condition → MachinePhase
phase_of_conditions [] = Phase.in_progress
phase_of_conditions (c ∷ cs) = phase_of_ready (find_ready (c ∷ cs))

unfoldable pub get_phase : Machine → MachinePhase
get_phase m =
    if not (is_zero m.deletion_timestamp)
    then Phase.terminating
    else phase_of_conditions (get_conditions m)
