-- ===== src/Memory/Isolated.antt =====
-- The copy of an object, as client-go and controller-runtime ask for it, shares no cell with the
-- object: api/v1alpha1/zz_generated.deepcopy.go.
use docker_machine_operator.Base.{◌≡◌, ◌≤◌, refl, sym, ap, ◌∙◌, Option, none, some}
use mathlib.Core.Path.{subst}
use docker_machine_operator.Memory.{Address, Heap, M, Kind, pure, ◌>>=◌}
use docker_machine_operator.Memory.Objects.{Foreign, Cell}
use docker_machine_operator.Memory.Kinds as Kinds
use docker_machine_operator.Memory.Agree.{Agree, Agree-refl, Fresh, Fresh-pure, Fresh-bind}
use docker_machine_operator.Memory.DeepCopy.{
  Copiers, Object, machine_object, machine_list_object, driver_object, driver_list_object,
  object_of, copy_pointer, machine_deep_copy, machine_list_deep_copy, driver_deep_copy,
  driver_list_deep_copy, deep_copy_object,
}
use docker_machine_operator.Memory.Deep.{IsDeep, IsNew, Points, Points-stable, copy_pointer-Fresh}
use docker_machine_operator.Memory.Values.{
  Promise, MachineValue, DriverValue, ListValue, MachineSays, DriverSays, MachineListSays,
  DriverListSays,
}
use docker_machine_operator.Memory.Structs.{
  machine_deep_copy_into-IsDeep, driver_deep_copy_into-IsDeep,
}
use docker_machine_operator.Memory.Lists.{
  machine_list_deep_copy_into-IsDeep, driver_list_deep_copy_into-IsDeep,
}

abbrev pub address_of : Object → Option Address
address_of (machine_object p) = p
address_of (machine_list_object p) = p
address_of (driver_object p) = p
address_of (driver_list_object p) = p

pub data ObjectValue (t : Foreign) : Type 0 where
  machine : MachineValue t → ObjectValue t
  machine_list : ListValue t (MachineValue t) → ObjectValue t
  driver : DriverValue t → ObjectValue t
  driver_list : ListValue t (DriverValue t) → ObjectValue t

module _ {t : Foreign} {copiers : Copiers t} (promise : Promise t copiers) where
  -- What an object says: it has the type of the value, and its pointer is not nil.
  pub data ObjectSays (h : Heap (Cell t)) : Object → ObjectValue t → Type 0 where
    machine :
        (o : Option Address) (v : MachineValue t)
        → Points (Kinds.machine t) (MachineSays promise) h o (some v)
        → ObjectSays h (machine_object o) (ObjectValue.machine v)
    machine_list :
        (o : Option Address) (v : ListValue t (MachineValue t))
        → Points (Kinds.machine_list t) (MachineListSays promise) h o (some v)
        → ObjectSays h (machine_list_object o) (ObjectValue.machine_list v)
    driver :
        (o : Option Address) (v : DriverValue t)
        → Points (Kinds.driver t) (DriverSays promise) h o (some v)
        → ObjectSays h (driver_object o) (ObjectValue.driver v)
    driver_list :
        (o : Option Address) (v : ListValue t (DriverValue t))
        → Points (Kinds.driver_list t) (DriverListSays promise) h o (some v)
        → ObjectSays h (driver_list_object o) (ObjectValue.driver_list v)

  -- An object at an address from `n` on that says the value.
  abbrev Copied : Address → ObjectValue t → Heap (Cell t) → Option Object → Type 0
  Copied n v k a = (c : Object) × (a ≡ some c) × IsNew n (address_of c) × ObjectSays k c v

  object_of-Copied :
      {A V : Type 0} (R : Heap (Cell t) → A → V → Type 0) (kind : Kind (Cell t) A)
      (type_of : Option Address → Object) (value_of : V → ObjectValue t) (n : Address)
      (k : Heap (Cell t)) (v : V)
      → ((q : Address) → n ≤ q → IsNew n (address_of (type_of (some q))))
      → ((o : Option Address) → Points kind R k o (some v) → ObjectSays k (type_of o) (value_of v))
      → (o : Option Address) → IsNew n o
      → Points kind R k o (some v)
      → Copied n (value_of v) k (object_of type_of o)
  unfolding object_of
  object_of-Copied R kind type_of value_of n k v new says none i r = elim r [ ]
  object_of-Copied R kind type_of value_of n k v new says (some q) i r =
      (type_of (some q), refl, new q i, says (some q) r)

  copied :
      {A V : Type 0} {R : Heap (Cell t) → A → V → Type 0} {copy : A → M (Cell t) A}
      (d : IsDeep R copy) (kind : Kind (Cell t) A) (type_of : Option Address → Object)
      (value_of : V → ObjectValue t) (h : Heap (Cell t)) (o : Option Address) (v : V)
      → Points kind R h o (some v)
      → ((q : Address) → h.next ≤ q → IsNew h.next (address_of (type_of (some q))))
      → ((k : Heap (Cell t)) (p : Option Address)
          → Points kind R k p (some v)
          → ObjectSays k (type_of p) (value_of v))
      → Fresh h.next h
          (copy_pointer kind copy o >>= λ c. pure (object_of type_of c))
          (Copied h.next (value_of v))
  copied {R} d kind type_of value_of h o v r new says =
      Fresh-bind _ _ (copy_pointer-Fresh d kind h o (some v) r) λ c h1 g there. Fresh-pure _ λ k m.
        object_of-Copied R kind type_of value_of h.next k v new (says k) c (there k m).0
          (there k m).1

  deep_copy_object-Fresh :
      (h : Heap (Cell t)) (o : Object) (v : ObjectValue t)
      → ObjectSays h o v
      → Fresh h.next h (deep_copy_object copiers o) (Copied h.next v)
  unfolding deep_copy_object machine_deep_copy machine_list_deep_copy driver_deep_copy
      driver_list_deep_copy
  deep_copy_object-Fresh h o v (machine p m r) =
      copied (machine_deep_copy_into-IsDeep promise) _ _ ObjectValue.machine h p m r (λ q l. l)
        (λ k q. machine q m)
  deep_copy_object-Fresh h o v (machine_list p m r) =
      copied (machine_list_deep_copy_into-IsDeep promise) _ _ ObjectValue.machine_list h p m r
        (λ q l. l) (λ k q. machine_list q m)
  deep_copy_object-Fresh h o v (driver p m r) =
      copied (driver_deep_copy_into-IsDeep promise) _ _ ObjectValue.driver h p m r (λ q l. l)
        (λ k q. driver q m)
  deep_copy_object-Fresh h o v (driver_list p m r) =
      copied (driver_list_deep_copy_into-IsDeep promise) _ _ ObjectValue.driver_list h p m r
        (λ q l. l) (λ k q. driver_list q m)

  -- If the copies of the libraries are deep, then the copy of an object that can be read succeeds,
  -- changes no cell that was in use, and returns a pointer of the same type to a new cell, which
  -- says the same as the object.
  pub deep_copy_object-IsCopy :
      (h : Heap (Cell t)) (o : Object) (v : ObjectValue t)
      → ObjectSays h o v
      → (c : Object) × (k : Heap (Cell t)) × (deep_copy_object copiers o h ≡ some (some c, k))
        × IsNew h.next (address_of c)
        × Agree 0 h k
        × ObjectSays k c v
  deep_copy_object-IsCopy h o v r =
      let f = deep_copy_object-Fresh h o v r in
      let (c, e, i, s) = f.holds f.heap (Agree-refl f.heap) in
      (c, f.heap, f.runs ∙ ap (λ (a : Option Object). some (a, f.heap)) e, i, f.kept, s)

  ObjectSays-stable :
      (h k : Heap (Cell t)) (o : Object) (v : ObjectValue t)
      → Agree 0 h k
      → ObjectSays h o v
      → ObjectSays k o v
  ObjectSays-stable h k o v g (machine p m r) =
      machine p m (Points-stable (machine_deep_copy_into-IsDeep promise) _ h k p (some m) g r)
  ObjectSays-stable h k o v g (machine_list p m r) =
      machine_list p m
        (Points-stable (machine_list_deep_copy_into-IsDeep promise) _ h k p (some m) g r)
  ObjectSays-stable h k o v g (driver p m r) =
      driver p m (Points-stable (driver_deep_copy_into-IsDeep promise) _ h k p (some m) g r)
  ObjectSays-stable h k o v g (driver_list p m r) =
      driver_list p m
        (Points-stable (driver_list_deep_copy_into-IsDeep promise) _ h k p (some m) g r)

  -- If the copies of the libraries are deep, then the copy of an object that can be read says the
  -- same as the object in every memory that still has the cells which the copy made, whatever was
  -- written to the cells that were in use before; and the object says the same in every memory that
  -- still has those, whatever was written to the cells of the copy.
  pub deep_copy_object-IsIsolated :
      (h k l m : Heap (Cell t)) (o c : Object) (v : ObjectValue t)
      → ObjectSays h o v
      → deep_copy_object copiers o h ≡ some (some c, k)
      → Agree h.next k l
      → Agree 0 h m
      → ObjectSays l c v × ObjectSays m o v
  deep_copy_object-IsIsolated h k l m o c v r e g g' =
      let f = deep_copy_object-Fresh h o v r in
      let same : ◌≡◌ {A = Option (Option Object × Heap (Cell t))} (some (f.result, f.heap))
          (some (some c, k)) =
        sym f.runs ∙ e in
      let heaps : k ≡ f.heap = cc in
      let (d, e', i, s) = f.holds l (subst (λ x. Agree h.next x l) heaps g) in
      let objects : d ≡ c = cc in
      (subst (λ a. ObjectSays l a v) objects s, ObjectSays-stable h m o v g' r)
