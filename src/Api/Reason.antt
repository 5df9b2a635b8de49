-- ===== src/Api/Reason.antt =====
-- The reasons of conditions, api/v1alpha1/helper.go.
use docker_machine_operator.Base.{String}

abbrev pub cluster_operation_failed : String
cluster_operation_failed = "ClusterOperationFailed"

abbrev pub machine_creation_failed : String
machine_creation_failed = "MachineCreationFailed"

abbrev pub waiting_for_script_completion : String
waiting_for_script_completion = "WaitingForScriptCompletion"

abbrev pub waiting_for_script_run : String
waiting_for_script_run = "WaitingForScriptRun"

abbrev pub auth_data_not_found : String
auth_data_not_found = "AuthDataNotFound"

abbrev pub script_data_not_found : String
script_data_not_found = "ScriptDataNotFound"

abbrev pub machine_creating : String
machine_creating = "MachineCreating"
