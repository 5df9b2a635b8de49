-- ===== src/Memory/Values.antt =====
-- What machines, drivers and their lists say when their pointers are followed: all that the
-- generated copies of api/v1alpha1 have to preserve.
use docker_machine_operator.Base.{◌≡◌, Option, none, List, [], ◌∷◌}
use docker_machine_operator.Go.Map.{GoMap, find}
use docker_machine_operator.Api.Types.{
  LocalObjectReference, ObjectReference, MachinePhase, DriverSpec,
}
use docker_machine_operator.Memory.{Heap}
use docker_machine_operator.Memory.Objects.{
  Foreign, TypeMeta, MachineStruct, MachineSpecStruct, MachineStatusStruct, DriverStruct,
  DriverStatus, ListStruct, Cell,
}
use docker_machine_operator.Memory.Kinds as Kinds
use docker_machine_operator.Memory.DeepCopy.{Copiers}
use docker_machine_operator.Memory.Deep.{IsDeep, Points, Each, Plain}

-- The keys of a map differ.
abbrev pub Distinct : GoMap → Type 0
Distinct [] = Unit
Distinct ((k, v) ∷ m) = (find k m ≡ none) × Distinct m

abbrev pub Entries : {C : Type 0} → Heap C → GoMap → GoMap → Type 0
Entries h m v = (m ≡ v) × Distinct m

pub record SpecValue : Type 0 where
  pub driver : Option LocalObjectReference
  pub script_ref : Option ObjectReference
  pub auth_secret : Option ObjectReference
  pub parameters : Option GoMap

module _ (t : Foreign) where
  pub record StatusValue : Type 0 where
    pub conditions : Option (List t.ConditionValue)
    pub phase : MachinePhase

  pub record MachineValue : Type 0 where
    pub type_meta : TypeMeta
    pub object_meta : t.ObjectMetaValue
    pub spec : SpecValue
    pub status : StatusValue

  pub record DriverValue : Type 0 where
    pub type_meta : TypeMeta
    pub object_meta : t.ObjectMetaValue
    pub spec : DriverSpec
    pub status : DriverStatus

  pub record ListValue (Item : Type 0) : Type 0 where
    pub type_meta : TypeMeta
    pub list_meta : t.ListMetaValue
    pub items : Option (List Item)

  -- What the libraries' copies promise: they are deep copies as well.
  pub record Promise (copiers : Copiers t) : Type 1 where
    pub Meta : Heap (Cell t) → t.ObjectMeta → t.ObjectMetaValue → Type 0
    pub Many : Heap (Cell t) → t.ListMeta → t.ListMetaValue → Type 0
    pub Says : Heap (Cell t) → t.Condition → t.ConditionValue → Type 0
    pub object_meta : IsDeep Meta copiers.object_meta
    pub list_meta : IsDeep Many copiers.list_meta
    pub condition : IsDeep Says copiers.condition

module _ {t : Foreign} where
  pub record SpecSays (h : Heap (Cell t)) (s : MachineSpecStruct) (v : SpecValue) : Type 0 where
    pub driver : Points (Kinds.local_object_reference t) Plain h s.driver v.driver
    pub script_ref : Points (Kinds.object_reference t) Plain h s.script_ref v.script_ref
    pub auth_secret : Points (Kinds.object_reference t) Plain h s.auth_secret v.auth_secret
    pub parameters : Points (Kinds.string_map t) Entries h s.parameters v.parameters

module _ {t : Foreign} {copiers : Copiers t} (promise : Promise t copiers) where
  pub record StatusSays (h : Heap (Cell t)) (s : MachineStatusStruct) (v : StatusValue t)
      : Type 0 where
    pub conditions :
        Points (Kinds.condition_array t) (Each promise.Says) h s.conditions v.conditions
    pub phase : s.phase ≡ v.phase

  pub record MachineSays (h : Heap (Cell t)) (m : MachineStruct t) (v : MachineValue t)
      : Type 0 where
    pub type_meta : m.type_meta ≡ v.type_meta
    pub object_meta : promise.Meta h m.object_meta v.object_meta
    pub spec : SpecSays h m.spec v.spec
    pub status : StatusSays h m.status v.status

  pub record DriverSays (h : Heap (Cell t)) (d : DriverStruct t) (v : DriverValue t) : Type 0 where
    pub type_meta : d.type_meta ≡ v.type_meta
    pub object_meta : promise.Meta h d.object_meta v.object_meta
    pub spec : d.spec ≡ v.spec
    pub status : d.status ≡ v.status

  pub record MachineListSays (h : Heap (Cell t)) (l : ListStruct t)
      (v : ListValue t (MachineValue t)) : Type 0 where
    pub type_meta : l.type_meta ≡ v.type_meta
    pub list_meta : promise.Many h l.list_meta v.list_meta
    pub items : Points (Kinds.machine_array t) (Each MachineSays) h l.items v.items

  pub record DriverListSays (h : Heap (Cell t)) (l : ListStruct t) (v : ListValue t (DriverValue t))
      : Type 0 where
    pub type_meta : l.type_meta ≡ v.type_meta
    pub list_meta : promise.Many h l.list_meta v.list_meta
    pub items : Points (Kinds.driver_array t) (Each DriverSays) h l.items v.items
