-- ===== src/Api/Names.antt =====
-- The names of the conditions (api/v1alpha1/helper.go), and the constants of `kmapi` and `metav1`
-- that the program names.
use docker_machine_operator.Base.{String}

abbrev pub machine_ready : String
machine_ready = "MachineReady"

abbrev pub script_ready : String
script_ready = "ScriptReady"

abbrev pub auth_data_ready : String
auth_data_ready = "AuthDataReady"

abbrev pub cluster_operation_complete : String
cluster_operation_complete = "ClusterOperationComplete"

abbrev pub machine_creating : String
machine_creating = "MachineCreating"

-- The constants of `kmapi` and `metav1` that the program names.
abbrev pub ready_condition : String
ready_condition = "Ready"

abbrev pub condition_true : String
condition_true = "True"

abbrev pub condition_false : String
condition_false = "False"

abbrev pub severity_error : String
severity_error = "Error"
