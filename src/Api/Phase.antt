-- ===== src/Api/Phase.antt =====
-- The phases of a machine, api/v1alpha1/helper.go.
use docker_machine_operator.Api.Types.{MachinePhase}

abbrev pub pending : MachinePhase
pending = "Pending"

abbrev pub in_progress : MachinePhase
in_progress = "InProgress"

abbrev pub waiting_for_script_completion : MachinePhase
waiting_for_script_completion = "WaitingForScriptCompletion"

abbrev pub cluster_operation_failed : MachinePhase
cluster_operation_failed = "ClusterOperationFailed"

abbrev pub success : MachinePhase
success = "Success"

abbrev pub terminating : MachinePhase
terminating = "Terminating"

abbrev pub failed : MachinePhase
failed = "Failed"
