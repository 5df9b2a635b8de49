-- ===== src/Tests/Memory.antt =====
-- The copy of a machine whose metadata, driver, parameters and conditions stand in memory.
use docker_machine_operator.Base.{
  ◌≡◌, refl, eqb, Option, none, some, List, [], ◌∷◌, if◌then◌else◌, String, inl, inr, arith,
}
use docker_machine_operator.Go.Map.{GoMap}
use docker_machine_operator.Api.Types.{Condition, LocalObjectReference}
use docker_machine_operator.Memory.{Address, Heap, pure, ◌>>=◌, load, at, new, extend, store}
use docker_machine_operator.Memory.Objects.{Foreign, TypeMeta, MachineStruct, Cell}
use docker_machine_operator.Memory.Kinds as Kinds
use docker_machine_operator.Memory.Agree.{Agree, Agree-refl, extend-Agree, store-Agree}
use docker_machine_operator.Memory.DeepCopy.{
  Copiers, Object, machine_object, copy_pointer, copy_each, copy_entries, object_of,
  machine_spec_deep_copy_into, machine_status_deep_copy_into, machine_deep_copy_into,
  machine_deep_copy, deep_copy_object,
}
use docker_machine_operator.Memory.Deep.{IsNew, Points, Plain, pure-IsDeep, copy_pointer-IsDeep}
use docker_machine_operator.Memory.Values.{Promise, Entries}
use docker_machine_operator.Memory.Spec.{entries-IsDeep}
use docker_machine_operator.Memory.Isolated.{
  ObjectValue, ObjectSays, address_of, deep_copy_object-IsCopy, deep_copy_object-IsIsolated,
}

-- The metadata of an object is a pointer to its annotations.
abbrev libraries : Foreign
libraries = record {
  ObjectMeta = Option Address;
  ListMeta = String;
  Condition = Condition;
  Content = Unit {0};
  ObjectMetaValue = Option GoMap;
  ListMetaValue = String;
  ConditionValue = Condition;
}

abbrev copiers : Copiers libraries
copiers = record {
  object_meta = copy_pointer (Kinds.string_map libraries) (λ m. pure (copy_entries m []));
  list_meta = pure;
  condition = pure;
}

abbrev promise : Promise libraries copiers
promise = record {
  Meta = Points (Kinds.string_map libraries) Entries;
  Many = Plain;
  Says = Plain;
  object_meta = copy_pointer-IsDeep entries-IsDeep (Kinds.string_map libraries);
  list_meta = pure-IsDeep;
  condition = pure-IsDeep;
}

abbrev annotations : GoMap
annotations = ("vpc", "v-1") ∷ []

abbrev parameters : GoMap
parameters = ("google-zone", "us-central1-a") ∷ ("google-project", "p") ∷ []

abbrev google : LocalObjectReference
google = record { name = "google" }

abbrev conditions : List Condition
conditions =
    record { kind = "MachineReady"; status = "True"; severity = ""; reason = ""; message = "" } ∷ []

abbrev type_meta : TypeMeta
type_meta = record { kind = "Machine"; api_version = "docker-machine.klusters.dev/v1alpha1" }

-- A machine whose pointers are the four addresses.
abbrev machine_at : Address → Address → Address → Address → MachineStruct libraries
machine_at a d p c = record {
  type_meta = type_meta;
  object_meta = some a;
  spec = record { driver = some d; script_ref = none; auth_secret = none; parameters = some p };
  status = record { conditions = some c; phase = "Success" };
}

abbrev machine : ObjectValue libraries
machine = ObjectValue.machine (record {
  type_meta = type_meta;
  object_meta = some annotations;
  spec = record {
    driver = some google;
    script_ref = none;
    auth_secret = none;
    parameters = some parameters;
  };
  status = record { conditions = some conditions; phase = "Success" };
})

abbrev before : Heap (Cell libraries)
before = record {
  next = 5;
  cell = λ p.
      if eqb p 0
      then Cell.string_map annotations
      else if eqb p 1
      then Cell.local_object_reference google
      else if eqb p 2
      then Cell.string_map parameters
      else if eqb p 3
      then Cell.condition_array conditions
      else Cell.machine (machine_at 0 1 2 3);
}

-- The copies are made in the order annotations, driver, parameters, conditions, machine.
abbrev after : Heap (Cell libraries)
after = extend (Kinds.machine libraries) (machine_at 5 6 7 8) (
    extend (Kinds.condition_array libraries) conditions (
      extend (Kinds.string_map libraries) parameters (
        extend (Kinds.local_object_reference libraries) google
          (extend (Kinds.string_map libraries) annotations before))))

before-says : ObjectSays promise before (machine_object (some 4)) machine
unfolding at
before-says = ObjectSays.machine (some 4) _ (
  machine_at 0 1 2 3,
  refl,
  record {
    type_meta = refl;
    object_meta = (annotations, refl, (refl, (refl, tt)));
    spec = record {
      driver = (google, refl, refl);
      script_ref = tt;
      auth_secret = tt;
      parameters = (parameters, refl, (refl, (refl, (refl, tt))));
    };
    status = record { conditions = (conditions, refl, (refl, tt)); phase = refl };
  },
)

deep_copy_object_example :
    deep_copy_object copiers (machine_object (some 4)) before
    ≡ some (some (machine_object (some 9)), after)
unfolding deep_copy_object machine_deep_copy machine_deep_copy_into machine_spec_deep_copy_into
    machine_status_deep_copy_into copy_pointer copy_entries copy_each object_of ◌>>=◌ load at new
    extend
deep_copy_object_example = refl

before-after : Agree 0 before after
before-after =
    extend-Agree _ _ (
      extend-Agree _ _ (extend-Agree _ _ (extend-Agree _ _ (extend-Agree _ _ (Agree-refl before)))))

-- The copy keeps its parameters when those of the machine are cleared, and the other way round.
deep_copy_object-IsIsolated_example :
    ObjectSays promise
      (store (Kinds.string_map libraries) 2 [] after)
      (machine_object (some 9))
      machine
    × ObjectSays promise
        (store (Kinds.string_map libraries) 7 [] after)
        (machine_object (some 4))
        machine
deep_copy_object-IsIsolated_example =
    deep_copy_object-IsIsolated promise before after _ _ (machine_object (some 4))
      (machine_object (some 9)) machine before-says deep_copy_object_example
      (store-Agree (Kinds.string_map libraries) [] 2 (inl (omega arith)) (Agree-refl after))
      (store-Agree (Kinds.string_map libraries) [] 7 (inr (omega arith)) before-after)

deep_copy_object-IsCopy_example :
    (c : Object) × (k : Heap (Cell libraries)) × (deep_copy_object copiers
        (machine_object (some 4))
        before
      ≡ some (some c, k))
    × IsNew 5 (address_of c)
    × Agree 0 before k
    × ObjectSays promise k c machine
deep_copy_object-IsCopy_example =
    deep_copy_object-IsCopy promise before (machine_object (some 4)) machine before-says
