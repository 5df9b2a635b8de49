-- ===== src/Api/Types.antt =====
-- api/v1alpha1/machine_types.go, driver_types.go and machine_helper.go. Of the Kubernetes metadata
-- only the fields that the program reads or writes are kept. A pointer is an `Option`; a timestamp
-- is a number of seconds, 0 for the zero time.
use docker_machine_operator.Base.{String, ℕ, Bool, Option, List}
use docker_machine_operator.Go.Map.{GoMap}

-- `client.ObjectKey`, which is `types.NamespacedName`.
pub record ObjectKey : Type 0 where
  pub namespace : String
  pub name : String

-- `core.LocalObjectReference`
pub record LocalObjectReference : Type 0 where
  pub name : String

-- `kmapi.ObjectReference`
pub record ObjectReference : Type 0 where
  pub namespace : String
  pub name : String

-- `kmapi.Condition`, less its transition time and generation, which the program never reads.
pub record Condition : Type 0 where
  pub kind : String
  pub status : String
  pub severity : String
  pub reason : String
  pub message : String

-- The phases are texts in the source, and the empty text is a machine that has none yet.
abbrev pub MachinePhase : Type 0
MachinePhase = String

pub record MachineSpec : Type 0 where
  pub driver : Option LocalObjectReference
  pub script_ref : Option ObjectReference
  pub auth_secret : Option ObjectReference
  pub parameters : GoMap

pub record MachineStatus : Type 0 where
  pub conditions : List Condition
  pub phase : MachinePhase

pub record Machine : Type 0 where
  pub namespace : String
  pub name : String
  pub deletion_timestamp : Option ℕ
  pub finalizers : List String
  pub annotations : GoMap
  pub spec : MachineSpec
  pub status : MachineStatus

-- `in.Status.Conditions`
abbrev pub get_conditions : Machine → List Condition
get_conditions m = m.status.conditions

abbrev pub set_conditions : Machine → List Condition → Machine
set_conditions m cs = record m { status = record (m.status) { conditions = cs } }

abbrev pub get_status : Machine → MachineStatus
get_status m = m.status

-- The key of a machine, as the controller writes it before each status update.
abbrev pub key_of : Machine → ObjectKey
key_of m = record { namespace = m.namespace; name = m.name }

pub record DriverSpec : Type 0 where
  pub builtin : Bool
  pub download_url : String

pub record Driver : Type 0 where
  pub namespace : String
  pub name : String
  pub spec : DriverSpec
