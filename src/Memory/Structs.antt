-- ===== src/Memory/Structs.antt =====
-- The copies of machines, drivers and their lists are deep, if those of the libraries are.
use docker_machine_operator.Memory.{Heap}
use docker_machine_operator.Memory.Objects.{
  Foreign, MachineStruct, MachineStatusStruct, DriverStruct, Cell,
}
use docker_machine_operator.Memory.Kinds as Kinds
use docker_machine_operator.Memory.Agree.{Agree, Agree-then, Fresh, Fresh-pure, Fresh-bind}
use docker_machine_operator.Memory.DeepCopy.{
  Copiers, copy_pointer, copy_each, machine_status_deep_copy_into, machine_deep_copy_into,
  driver_deep_copy_into,
}
use docker_machine_operator.Memory.Deep.{
  IsDeep, IsDeep-later, Points, Each, copy_pointer-IsDeep, copy_each-IsDeep,
}
use docker_machine_operator.Memory.Values.{
  Promise, StatusValue, MachineValue, DriverValue, StatusSays, MachineSays, DriverSays,
}
use docker_machine_operator.Memory.Spec.{machine_spec_deep_copy_into-IsDeep}

module _ {t : Foreign} {copiers : Copiers t} (promise : Promise t copiers) where
  conditions :
      IsDeep
        (Points (Kinds.condition_array t) (Each promise.Says))
        (copy_pointer (Kinds.condition_array t) (copy_each copiers.condition))
  conditions = copy_pointer-IsDeep (copy_each-IsDeep promise.condition) _

  machine_status_deep_copy_into-Fresh :
      (h : Heap (Cell t)) (s : MachineStatusStruct) (v : StatusValue t)
      → StatusSays promise h s v
      → Fresh h.next h (machine_status_deep_copy_into copiers s) (λ k s'. StatusSays promise k s' v)
  unfolding machine_status_deep_copy_into
  machine_status_deep_copy_into-Fresh h s v r =
      Fresh-bind _ _ (conditions.copies h _ _ r.conditions)
        λ c h1 g1 says. Fresh-pure _ λ k m. record { conditions = says k m; phase = r.phase }

  pub machine_status_deep_copy_into-IsDeep :
      IsDeep (StatusSays promise) (machine_status_deep_copy_into copiers)
  machine_status_deep_copy_into-IsDeep = record {
    stable = λ h k s v g r. record {
      conditions = conditions.stable h k _ _ g r.conditions;
      phase = r.phase;
    };
    copies = machine_status_deep_copy_into-Fresh;
  }

  MachineSays-stable :
      (h k : Heap (Cell t)) (m : MachineStruct t) (v : MachineValue t)
      → Agree 0 h k
      → MachineSays promise h m v
      → MachineSays promise k m v
  MachineSays-stable h k m v g r = record {
    type_meta = r.type_meta;
    object_meta = promise.object_meta.stable h k _ _ g r.object_meta;
    spec = machine_spec_deep_copy_into-IsDeep.stable h k _ _ g r.spec;
    status = machine_status_deep_copy_into-IsDeep.stable h k _ _ g r.status;
  }

  machine_deep_copy_into-Fresh :
      (h : Heap (Cell t)) (m : MachineStruct t) (v : MachineValue t)
      → MachineSays promise h m v
      → Fresh h.next h (machine_deep_copy_into copiers m) (λ k m'. MachineSays promise k m' v)
  unfolding machine_deep_copy_into
  machine_deep_copy_into-Fresh h m v r =
      Fresh-bind _ _ (promise.object_meta.copies h _ _ r.object_meta) λ o h1 g1 meta.
        Fresh-bind _ _ (IsDeep-later machine_spec_deep_copy_into-IsDeep _ _ g1 r.spec)
          λ s h2 g2 spec.
            Fresh-bind _ _
              (IsDeep-later machine_status_deep_copy_into-IsDeep _ _ (Agree-then g1 g2) r.status)
              λ u h3 g3 status. Fresh-pure _ λ k a. record {
                type_meta = r.type_meta;
                object_meta = meta k (Agree-then g2 (Agree-then g3 a));
                spec = spec k (Agree-then g3 a);
                status = status k a;
              }

  pub machine_deep_copy_into-IsDeep : IsDeep (MachineSays promise) (machine_deep_copy_into copiers)
  machine_deep_copy_into-IsDeep = record {
    stable = MachineSays-stable;
    copies = machine_deep_copy_into-Fresh;
  }

  driver_deep_copy_into-Fresh :
      (h : Heap (Cell t)) (d : DriverStruct t) (v : DriverValue t)
      → DriverSays promise h d v
      → Fresh h.next h (driver_deep_copy_into copiers d) (λ k d'. DriverSays promise k d' v)
  unfolding driver_deep_copy_into
  driver_deep_copy_into-Fresh h d v r =
      Fresh-bind _ _ (promise.object_meta.copies h _ _ r.object_meta) λ o h1 g1 meta.
        Fresh-pure _ λ k a. record {
          type_meta = r.type_meta;
          object_meta = meta k a;
          spec = r.spec;
          status = r.status;
        }

  pub driver_deep_copy_into-IsDeep : IsDeep (DriverSays promise) (driver_deep_copy_into copiers)
  driver_deep_copy_into-IsDeep = record {
    stable = λ h k d v g r. record {
      type_meta = r.type_meta;
      object_meta = promise.object_meta.stable h k _ _ g r.object_meta;
      spec = r.spec;
      status = r.status;
    };
    copies = driver_deep_copy_into-Fresh;
  }
