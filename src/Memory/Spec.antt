-- ===== src/Memory/Spec.antt =====
-- The copy of a machine's specification, with the loop over its parameters, is deep.
use docker_machine_operator.Base.{
  String, eq_iff, ◌≡◌, ◌≢◌, refl, sym, ap, ◌∙◌, none, [], ◌∷◌, ◌++◌, All, arith,
}
use mathlib.Core.List.{append_assoc, append-nil}
use docker_machine_operator.Go.Map.{GoMap, find, put}
use docker_machine_operator.Memory.{Heap, pure}
use docker_machine_operator.Memory.Objects.{Foreign, MachineSpecStruct, Cell}
use docker_machine_operator.Memory.Kinds as Kinds
use docker_machine_operator.Memory.Agree.{Agree, Agree-then, Fresh, Fresh-pure, Fresh-bind}
use docker_machine_operator.Memory.DeepCopy.{
  copy_pointer, copy_entries, machine_spec_deep_copy_into,
}
use docker_machine_operator.Memory.Deep.{
  IsDeep, IsDeep-later, Plain, Points, copy_pointer-IsDeep, pure-IsDeep,
}
use docker_machine_operator.Memory.Values.{Distinct, Entries, SpecValue, SpecSays}

put-new : (k v : String) (m : GoMap) → find k m ≡ none → put k v m ≡ m ++ (k, v) ∷ []
put-new k v [] e = refl
put-new k v ((j, w) ∷ m) e = ground (arith, put-new k v m)

find-append_new :
    (j k v : String) (out : GoMap) → find j out ≡ none → k ≢ j → find j (out ++ (k, v) ∷ []) ≡ none
find-append_new j k v [] e n = ground (arith, eq_iff k j)
find-append_new j k v ((i, w) ∷ out) e n = ground (arith, find-append_new j k v out)

-- No key of the first map is in the second.
abbrev Apart : GoMap → GoMap → Type 0
Apart m out = All (λ e. find e.0 out ≡ none) m

Apart-append_new :
    (k v : String) (m out : GoMap) → find k m ≡ none → Apart m out → Apart m (out ++ (k, v) ∷ [])
Apart-append_new k v [] out e a = tt
Apart-append_new k v ((j, w) ∷ m) out e (a, as') = (
  find-append_new j k v out a (ground (arith, eq_iff j k)),
  Apart-append_new k v m out (ground arith) as',
)

copy_entries-append : (m out : GoMap) → Distinct m → Apart m out → copy_entries m out ≡ out ++ m
unfolding copy_entries
copy_entries-append [] out d a = sym (append-nil out)
copy_entries-append ((k, v) ∷ m) out (d, ds) (a, as') =
    ap (copy_entries m) (put-new k v out a)
    ∙ copy_entries-append m (out ++ (k, v) ∷ []) ds (Apart-append_new k v m out d as')
    ∙ append_assoc out ((k, v) ∷ []) m

Apart-nil : (m : GoMap) → Apart m []
Apart-nil [] = tt
Apart-nil (e ∷ m) = (refl, Apart-nil m)

-- The loop over a map gives a map with the same entries.
pub copy_entries_lem : (m : GoMap) → Distinct m → copy_entries m [] ≡ m
copy_entries_lem m d = copy_entries-append m [] d (Apart-nil m)

pub entries-IsDeep : {C : Type 0} → IsDeep {C = C} Entries (λ m. pure (copy_entries m []))
entries-IsDeep = record {
  stable = λ h k a v g r. r;
  copies =
      λ h m v (e, d). Fresh-pure _ λ k g. (copy_entries_lem m d ∙ e, rw (copy_entries_lem m d) d);
}

module _ {t : Foreign} where
  reference :
      IsDeep
        (Points (Kinds.object_reference t) Plain)
        (copy_pointer (Kinds.object_reference t) pure)
  reference = copy_pointer-IsDeep pure-IsDeep _

  local_reference :
      IsDeep
        (Points (Kinds.local_object_reference t) Plain)
        (copy_pointer (Kinds.local_object_reference t) pure)
  local_reference = copy_pointer-IsDeep pure-IsDeep _

  parameters :
      IsDeep
        (Points (Kinds.string_map t) Entries)
        (copy_pointer (Kinds.string_map t) (λ m. pure (copy_entries m [])))
  parameters = copy_pointer-IsDeep entries-IsDeep _

  SpecSays-stable :
      (h k : Heap (Cell t)) (s : MachineSpecStruct) (v : SpecValue)
      → Agree 0 h k
      → SpecSays h s v
      → SpecSays k s v
  SpecSays-stable h k s v g r = record {
    driver = local_reference.stable h k _ _ g r.driver;
    script_ref = reference.stable h k _ _ g r.script_ref;
    auth_secret = reference.stable h k _ _ g r.auth_secret;
    parameters = parameters.stable h k _ _ g r.parameters;
  }

  machine_spec_deep_copy_into-Fresh :
      (h : Heap (Cell t)) (s : MachineSpecStruct) (v : SpecValue)
      → SpecSays h s v
      → Fresh h.next h (machine_spec_deep_copy_into s) (λ k s'. SpecSays k s' v)
  unfolding machine_spec_deep_copy_into
  machine_spec_deep_copy_into-Fresh h s v r =
      Fresh-bind _ _ (local_reference.copies h _ _ r.driver) λ d h1 g1 driver.
        Fresh-bind _ _ (IsDeep-later reference _ _ g1 r.script_ref) λ c h2 g2 script_ref.
          let g12 = Agree-then g1 g2 in
          Fresh-bind _ _ (IsDeep-later reference _ _ g12 r.auth_secret) λ a h3 g3 auth_secret.
            Fresh-bind _ _ (IsDeep-later parameters _ _ (Agree-then g12 g3) r.parameters)
              λ p h4 g4 last. Fresh-pure _ λ k m.
                let m3 = Agree-then g4 m in
                let m2 = Agree-then g3 m3 in
                record {
                  driver = driver k (Agree-then g2 m2);
                  script_ref = script_ref k m2;
                  auth_secret = auth_secret k m3;
                  parameters = last k m;
                }

  pub machine_spec_deep_copy_into-IsDeep :
      IsDeep (SpecSays {t = t}) (machine_spec_deep_copy_into {t = t})
  machine_spec_deep_copy_into-IsDeep = record {
    stable = SpecSays-stable;
    copies = machine_spec_deep_copy_into-Fresh;
  }
