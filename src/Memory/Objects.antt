-- ===== src/Memory/Objects.antt =====
-- The objects of api/v1alpha1/machine_types.go and driver_types.go as they stand in memory: a
-- pointer, a map or a slice is an address, or none for nil. The metadata and the conditions are
-- types of libraries.
use docker_machine_operator.Base.{String, Option, List}
use docker_machine_operator.Go.Map.{GoMap}
use docker_machine_operator.Api.Types.{
  LocalObjectReference, ObjectReference, MachinePhase, DriverSpec,
}
use docker_machine_operator.Memory.{Address}

-- `metav1.TypeMeta`
pub record TypeMeta : Type 0 where
  pub kind : String
  pub api_version : String

-- What the libraries keep in memory, and what it says when it is read.
pub record Foreign : Type 1 where
  -- `metav1.ObjectMeta`, `metav1.ListMeta` and `kmapi.Condition`
  pub ObjectMeta : Type 0
  pub ListMeta : Type 0
  pub Condition : Type 0
  -- What their own pointers lead to.
  pub Content : Type 0
  pub ObjectMetaValue : Type 0
  pub ListMetaValue : Type 0
  pub ConditionValue : Type 0

pub record MachineSpecStruct : Type 0 where
  pub driver : Option Address
  pub script_ref : Option Address
  pub auth_secret : Option Address
  pub parameters : Option Address

pub record MachineStatusStruct : Type 0 where
  pub conditions : Option Address
  pub phase : MachinePhase

-- `DriverStatus`, which has no fields.
pub data DriverStatus : Type 0 where
  driver_status : DriverStatus

module _ (t : Foreign) where
  pub record MachineStruct : Type 0 where
    pub type_meta : TypeMeta
    pub object_meta : t.ObjectMeta
    pub spec : MachineSpecStruct
    pub status : MachineStatusStruct

  pub record DriverStruct : Type 0 where
    pub type_meta : TypeMeta
    pub object_meta : t.ObjectMeta
    pub spec : DriverSpec
    pub status : DriverStatus

  -- `MachineList` and `DriverList`
  pub record ListStruct : Type 0 where
    pub type_meta : TypeMeta
    pub list_meta : t.ListMeta
    pub items : Option Address

  -- What stands in a cell. A map has its entries, and a slice its elements.
  pub data Cell : Type 0 where
    local_object_reference : LocalObjectReference → Cell
    object_reference : ObjectReference → Cell
    string_map : GoMap → Cell
    condition_array : List t.Condition → Cell
    machine : MachineStruct → Cell
    machine_array : List MachineStruct → Cell
    machine_list : ListStruct → Cell
    machine_spec : MachineSpecStruct → Cell
    machine_status : MachineStatusStruct → Cell
    driver : DriverStruct → Cell
    driver_array : List DriverStruct → Cell
    driver_list : ListStruct → Cell
    driver_spec : DriverSpec → Cell
    driver_status_cell : DriverStatus → Cell
    foreign : t.Content → Cell
