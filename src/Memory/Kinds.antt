-- ===== src/Memory/Kinds.antt =====
-- The types of the cells: how a cell of each type is made and read.
use docker_machine_operator.Base.{Option, none, some, refl, List}
use docker_machine_operator.Go.Map.{GoMap}
use docker_machine_operator.Api.Types.{LocalObjectReference, ObjectReference, DriverSpec}
use docker_machine_operator.Memory.{Kind}
use docker_machine_operator.Memory.Objects.{
  Foreign, MachineStruct, MachineSpecStruct, MachineStatusStruct, DriverStruct, DriverStatus,
  ListStruct, Cell,
}

module _ (t : Foreign) where
  abbrev as_local_object_reference : Cell t → Option (LocalObjectReference)
  as_local_object_reference (Cell.local_object_reference a) = some a
  as_local_object_reference _ = none

  abbrev as_object_reference : Cell t → Option (ObjectReference)
  as_object_reference (Cell.object_reference a) = some a
  as_object_reference _ = none

  abbrev as_string_map : Cell t → Option (GoMap)
  as_string_map (Cell.string_map a) = some a
  as_string_map _ = none

  abbrev as_condition_array : Cell t → Option (List t.Condition)
  as_condition_array (Cell.condition_array a) = some a
  as_condition_array _ = none

  abbrev as_machine : Cell t → Option (MachineStruct t)
  as_machine (Cell.machine a) = some a
  as_machine _ = none

  abbrev as_machine_array : Cell t → Option (List (MachineStruct t))
  as_machine_array (Cell.machine_array a) = some a
  as_machine_array _ = none

  abbrev as_machine_list : Cell t → Option (ListStruct t)
  as_machine_list (Cell.machine_list a) = some a
  as_machine_list _ = none

  abbrev as_machine_spec : Cell t → Option (MachineSpecStruct)
  as_machine_spec (Cell.machine_spec a) = some a
  as_machine_spec _ = none

  abbrev as_machine_status : Cell t → Option (MachineStatusStruct)
  as_machine_status (Cell.machine_status a) = some a
  as_machine_status _ = none

  abbrev as_driver : Cell t → Option (DriverStruct t)
  as_driver (Cell.driver a) = some a
  as_driver _ = none

  abbrev as_driver_array : Cell t → Option (List (DriverStruct t))
  as_driver_array (Cell.driver_array a) = some a
  as_driver_array _ = none

  abbrev as_driver_list : Cell t → Option (ListStruct t)
  as_driver_list (Cell.driver_list a) = some a
  as_driver_list _ = none

  abbrev as_driver_spec : Cell t → Option (DriverSpec)
  as_driver_spec (Cell.driver_spec a) = some a
  as_driver_spec _ = none

  abbrev as_driver_status_cell : Cell t → Option (DriverStatus)
  as_driver_status_cell (Cell.driver_status_cell a) = some a
  as_driver_status_cell _ = none

  abbrev pub local_object_reference : Kind (Cell t) (LocalObjectReference)
  local_object_reference = record {
    wrap = Cell.local_object_reference;
    unwrap = as_local_object_reference;
    unwrap-wrap = λ a. refl;
  }

  abbrev pub object_reference : Kind (Cell t) (ObjectReference)
  object_reference = record {
    wrap = Cell.object_reference;
    unwrap = as_object_reference;
    unwrap-wrap = λ a. refl;
  }

  abbrev pub string_map : Kind (Cell t) (GoMap)
  string_map = record { wrap = Cell.string_map; unwrap = as_string_map; unwrap-wrap = λ a. refl }

  abbrev pub condition_array : Kind (Cell t) (List t.Condition)
  condition_array = record {
    wrap = Cell.condition_array;
    unwrap = as_condition_array;
    unwrap-wrap = λ a. refl;
  }

  abbrev pub machine : Kind (Cell t) (MachineStruct t)
  machine = record { wrap = Cell.machine; unwrap = as_machine; unwrap-wrap = λ a. refl }

  abbrev pub machine_array : Kind (Cell t) (List (MachineStruct t))
  machine_array = record {
    wrap = Cell.machine_array;
    unwrap = as_machine_array;
    unwrap-wrap = λ a. refl;
  }

  abbrev pub machine_list : Kind (Cell t) (ListStruct t)
  machine_list = record {
    wrap = Cell.machine_list;
    unwrap = as_machine_list;
    unwrap-wrap = λ a. refl;
  }

  abbrev pub machine_spec : Kind (Cell t) (MachineSpecStruct)
  machine_spec = record {
    wrap = Cell.machine_spec;
    unwrap = as_machine_spec;
    unwrap-wrap = λ a. refl;
  }

  abbrev pub machine_status : Kind (Cell t) (MachineStatusStruct)
  machine_status = record {
    wrap = Cell.machine_status;
    unwrap = as_machine_status;
    unwrap-wrap = λ a. refl;
  }

  abbrev pub driver : Kind (Cell t) (DriverStruct t)
  driver = record { wrap = Cell.driver; unwrap = as_driver; unwrap-wrap = λ a. refl }

  abbrev pub driver_array : Kind (Cell t) (List (DriverStruct t))
  driver_array = record {
    wrap = Cell.driver_array;
    unwrap = as_driver_array;
    unwrap-wrap = λ a. refl;
  }

  abbrev pub driver_list : Kind (Cell t) (ListStruct t)
  driver_list = record { wrap = Cell.driver_list; unwrap = as_driver_list; unwrap-wrap = λ a. refl }

  abbrev pub driver_spec : Kind (Cell t) (DriverSpec)
  driver_spec = record { wrap = Cell.driver_spec; unwrap = as_driver_spec; unwrap-wrap = λ a. refl }

  abbrev pub driver_status_cell : Kind (Cell t) (DriverStatus)
  driver_status_cell = record {
    wrap = Cell.driver_status_cell;
    unwrap = as_driver_status_cell;
    unwrap-wrap = λ a. refl;
  }
