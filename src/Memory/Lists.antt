-- ===== src/Memory/Lists.antt =====
-- The copies of the lists of machines and of drivers are deep, if those of the libraries are.
use docker_machine_operator.Memory.{Heap}
use docker_machine_operator.Memory.Objects.{Foreign, ListStruct, Cell}
use docker_machine_operator.Memory.Kinds as Kinds
use docker_machine_operator.Memory.Agree.{Agree-then, Fresh, Fresh-pure, Fresh-bind}
use docker_machine_operator.Memory.DeepCopy.{
  Copiers, copy_pointer, copy_each, machine_deep_copy_into, machine_list_deep_copy_into,
  driver_deep_copy_into, driver_list_deep_copy_into,
}
use docker_machine_operator.Memory.Deep.{
  IsDeep, IsDeep-later, Points, Each, copy_pointer-IsDeep, copy_each-IsDeep,
}
use docker_machine_operator.Memory.Values.{
  Promise, MachineValue, DriverValue, ListValue, MachineSays, DriverSays, MachineListSays,
  DriverListSays,
}
use docker_machine_operator.Memory.Structs.{
  machine_deep_copy_into-IsDeep, driver_deep_copy_into-IsDeep,
}

module _ {t : Foreign} {copiers : Copiers t} (promise : Promise t copiers) where
  machines :
      IsDeep
        (Points (Kinds.machine_array t) (Each (MachineSays promise)))
        (copy_pointer (Kinds.machine_array t) (copy_each (machine_deep_copy_into copiers)))
  machines = copy_pointer-IsDeep (copy_each-IsDeep (machine_deep_copy_into-IsDeep promise)) _

  machine_list_deep_copy_into-Fresh :
      (h : Heap (Cell t)) (l : ListStruct t) (v : ListValue t (MachineValue t))
      → MachineListSays promise h l v
      → Fresh h.next h
          (machine_list_deep_copy_into copiers l)
          (λ k l'. MachineListSays promise k l' v)
  unfolding machine_list_deep_copy_into
  machine_list_deep_copy_into-Fresh h l v r =
      Fresh-bind _ _ (promise.list_meta.copies h _ _ r.list_meta) λ o h1 g1 meta.
        Fresh-bind _ _ (IsDeep-later machines _ _ g1 r.items) λ i h2 g2 items. Fresh-pure _ λ k a.
          record {
            type_meta = r.type_meta;
            list_meta = meta k (Agree-then g2 a);
            items = items k a;
          }

  pub machine_list_deep_copy_into-IsDeep :
      IsDeep (MachineListSays promise) (machine_list_deep_copy_into copiers)
  machine_list_deep_copy_into-IsDeep = record {
    stable = λ h k l v g r. record {
      type_meta = r.type_meta;
      list_meta = promise.list_meta.stable h k _ _ g r.list_meta;
      items = machines.stable h k _ _ g r.items;
    };
    copies = machine_list_deep_copy_into-Fresh;
  }

  drivers :
      IsDeep
        (Points (Kinds.driver_array t) (Each (DriverSays promise)))
        (copy_pointer (Kinds.driver_array t) (copy_each (driver_deep_copy_into copiers)))
  drivers = copy_pointer-IsDeep (copy_each-IsDeep (driver_deep_copy_into-IsDeep promise)) _

  driver_list_deep_copy_into-Fresh :
      (h : Heap (Cell t)) (l : ListStruct t) (v : ListValue t (DriverValue t))
      → DriverListSays promise h l v
      → Fresh h.next h
          (driver_list_deep_copy_into copiers l)
          (λ k l'. DriverListSays promise k l' v)
  unfolding driver_list_deep_copy_into
  driver_list_deep_copy_into-Fresh h l v r =
      Fresh-bind _ _ (promise.list_meta.copies h _ _ r.list_meta) λ o h1 g1 meta.
        Fresh-bind _ _ (IsDeep-later drivers _ _ g1 r.items) λ i h2 g2 items. Fresh-pure _ λ k a.
          record {
            type_meta = r.type_meta;
            list_meta = meta k (Agree-then g2 a);
            items = items k a;
          }

  pub driver_list_deep_copy_into-IsDeep :
      IsDeep (DriverListSays promise) (driver_list_deep_copy_into copiers)
  driver_list_deep_copy_into-IsDeep = record {
    stable = λ h k l v g r. record {
      type_meta = r.type_meta;
      list_meta = promise.list_meta.stable h k _ _ g r.list_meta;
      items = drivers.stable h k _ _ g r.items;
    };
    copies = driver_list_deep_copy_into-Fresh;
  }
