-- ===== src/Memory/DeepCopy.antt =====
-- api/v1alpha1/zz_generated.deepcopy.go: the copies of machines, drivers and their lists. What the
-- source writes to `*out` is the result of an action here: `*out = *in` comes first, so that what
-- stood in `*out` before does not matter, and a cell is made once its content is there.
use docker_machine_operator.Base.{Option, none, some, List, [], ◌∷◌}
use docker_machine_operator.Go.Map.{GoMap, put}
use docker_machine_operator.Api.Types.{DriverSpec}
use docker_machine_operator.Memory.{Address, M, Kind, pure, ◌>>=◌, load, new}
use docker_machine_operator.Memory.Objects.{
  Foreign, MachineStruct, MachineSpecStruct, MachineStatusStruct, DriverStruct, DriverStatus,
  ListStruct, Cell,
}
use docker_machine_operator.Memory.Kinds as Kinds

-- Nil stays nil; of another pointer the target is copied to a new cell.
unfoldable pub copy_pointer :
    {C A : Type 0} → Kind C A → (A → M C A) → Option Address → M C (Option Address)
copy_pointer kind copy none = pure none
copy_pointer kind copy (some p) = do a ← load kind p; b ← copy a; q ← new kind b; pure (some q)

-- `for i := range *in`
unfoldable pub copy_each : {C A : Type 0} → (A → M C A) → List A → M C (List A)
copy_each copy [] = pure []
copy_each copy (x ∷ xs) = do y ← copy x; ys ← copy_each copy xs; pure (y ∷ ys)

-- `for key, val := range *in`
unfoldable pub copy_entries : GoMap → GoMap → GoMap
copy_entries [] out = out
copy_entries ((key, val) ∷ m) out = copy_entries m (put key val out)

-- The copies of the libraries.
pub record Copiers (t : Foreign) : Type 0 where
  pub object_meta : t.ObjectMeta → M (Cell t) t.ObjectMeta
  pub list_meta : t.ListMeta → M (Cell t) t.ListMeta
  pub condition : t.Condition → M (Cell t) t.Condition

-- `runtime.Object`: a pointer with its type.
pub data Object : Type 0 where
  machine_object : Option Address → Object
  machine_list_object : Option Address → Object
  driver_object : Option Address → Object
  driver_list_object : Option Address → Object

-- `if c := in.DeepCopy(); c != nil { return c }; return nil`
unfoldable pub object_of : (Option Address → Object) → Option Address → Option Object
object_of type_of none = none
object_of type_of (some c) = some (type_of (some c))

module _ {t : Foreign} where
  unfoldable pub machine_spec_deep_copy_into : MachineSpecStruct → M (Cell t) MachineSpecStruct
  machine_spec_deep_copy_into in' = do
    driver ← copy_pointer (Kinds.local_object_reference t) pure in'.driver
    script_ref ← copy_pointer (Kinds.object_reference t) pure in'.script_ref
    auth_secret ← copy_pointer (Kinds.object_reference t) pure in'.auth_secret
    parameters ← copy_pointer (Kinds.string_map t) (λ m. pure (copy_entries m [])) in'.parameters
    pure (record {
      driver = driver;
      script_ref = script_ref;
      auth_secret = auth_secret;
      parameters = parameters;
    })

  unfoldable pub driver_spec_deep_copy_into : DriverSpec → M (Cell t) DriverSpec
  driver_spec_deep_copy_into in' = pure in'

  unfoldable pub driver_status_deep_copy_into : DriverStatus → M (Cell t) DriverStatus
  driver_status_deep_copy_into in' = pure in'

  unfoldable pub machine_spec_deep_copy : Option Address → M (Cell t) (Option Address)
  machine_spec_deep_copy = copy_pointer (Kinds.machine_spec t) machine_spec_deep_copy_into

  unfoldable pub driver_spec_deep_copy : Option Address → M (Cell t) (Option Address)
  driver_spec_deep_copy = copy_pointer (Kinds.driver_spec t) driver_spec_deep_copy_into

  unfoldable pub driver_status_deep_copy : Option Address → M (Cell t) (Option Address)
  driver_status_deep_copy = copy_pointer (Kinds.driver_status_cell t) driver_status_deep_copy_into

module _ {t : Foreign} (copiers : Copiers t) where
  unfoldable pub machine_status_deep_copy_into :
      MachineStatusStruct → M (Cell t) MachineStatusStruct
  machine_status_deep_copy_into in' = do
    conditions ← copy_pointer (Kinds.condition_array t) (copy_each copiers.condition) in'.conditions
    pure (record in' { conditions = conditions })

  unfoldable pub machine_deep_copy_into : MachineStruct t → M (Cell t) (MachineStruct t)
  machine_deep_copy_into in' = do
    object_meta ← copiers.object_meta in'.object_meta
    spec ← machine_spec_deep_copy_into in'.spec
    status ← machine_status_deep_copy_into in'.status
    pure (record in' { object_meta = object_meta; spec = spec; status = status })

  unfoldable pub machine_list_deep_copy_into : ListStruct t → M (Cell t) (ListStruct t)
  machine_list_deep_copy_into in' = do
    list_meta ← copiers.list_meta in'.list_meta
    items ← copy_pointer (Kinds.machine_array t) (copy_each machine_deep_copy_into) in'.items
    pure (record in' { list_meta = list_meta; items = items })

  unfoldable pub driver_deep_copy_into : DriverStruct t → M (Cell t) (DriverStruct t)
  driver_deep_copy_into in' = do
    object_meta ← copiers.object_meta in'.object_meta
    pure (record in' { object_meta = object_meta })

  unfoldable pub driver_list_deep_copy_into : ListStruct t → M (Cell t) (ListStruct t)
  driver_list_deep_copy_into in' = do
    list_meta ← copiers.list_meta in'.list_meta
    items ← copy_pointer (Kinds.driver_array t) (copy_each driver_deep_copy_into) in'.items
    pure (record in' { list_meta = list_meta; items = items })

  unfoldable pub machine_status_deep_copy : Option Address → M (Cell t) (Option Address)
  machine_status_deep_copy = copy_pointer (Kinds.machine_status t) machine_status_deep_copy_into

  unfoldable pub machine_deep_copy : Option Address → M (Cell t) (Option Address)
  machine_deep_copy = copy_pointer (Kinds.machine t) machine_deep_copy_into

  unfoldable pub machine_list_deep_copy : Option Address → M (Cell t) (Option Address)
  machine_list_deep_copy = copy_pointer (Kinds.machine_list t) machine_list_deep_copy_into

  unfoldable pub driver_deep_copy : Option Address → M (Cell t) (Option Address)
  driver_deep_copy = copy_pointer (Kinds.driver t) driver_deep_copy_into

  unfoldable pub driver_list_deep_copy : Option Address → M (Cell t) (Option Address)
  driver_list_deep_copy = copy_pointer (Kinds.driver_list t) driver_list_deep_copy_into

  -- The `DeepCopyObject` of the type that the pointer has.
  unfoldable pub deep_copy_object : Object → M (Cell t) (Option Object)
  unfolding object_of
  deep_copy_object (machine_object in') = do
    c ← machine_deep_copy in'
    pure (object_of machine_object c)
  deep_copy_object (machine_list_object in') = do
    c ← machine_list_deep_copy in'
    pure (object_of machine_list_object c)
  deep_copy_object (driver_object in') = do
    c ← driver_deep_copy in'
    pure (object_of driver_object c)
  deep_copy_object (driver_list_object in') = do
    c ← driver_list_deep_copy in'
    pure (object_of driver_list_object c)
