-- ===== src/Controller/Args/Flags.antt =====
-- The flags that are made of a map, pkg/controller/machine.go.
use mathlib.Core.List.{append-nil, append_assoc}
use docker_machine_operator.Base.{
  String, ◌<>◌, ◌≡◌, sym, ap, ◌∙◌, ◌↔◌, false, List, [], ◌∷◌, ◌++◌, All, arith,
}
use docker_machine_operator.Go.Error.{ok}
use docker_machine_operator.Go.Map.{GoMap}
use docker_machine_operator.Go.Text.{is_empty}
use docker_machine_operator.Controller.Args.{flag, append_parameters, auth_data, append_auth}

-- One flag and one value for each entry, in the map's order.
abbrev pub flags_of : (String → String) → GoMap → List String
flags_of f [] = []
flags_of f ((k, v) ∷ m) = ("--" <> k) ∷ f v ∷ flags_of f m

abbrev pub same_text : String → String
same_text v = v

-- The parameters follow what is there, each as its flag and its value.
pub append_parameters_lem :
    (args : List String) (m : GoMap) → append_parameters args m ≡ args ++ flags_of same_text m
unfolding append_parameters
append_parameters_lem args [] = sym (append-nil args)
append_parameters_lem args ((k, v) ∷ m) =
    append_parameters_lem ((args ++ flag k ∷ []) ++ v ∷ []) m ∙ simp append_assoc

module _ (driver : String) where
  -- An entry whose key and data are not empty.
  abbrev pub IsUsable : String × String → Type 0
  IsUsable (key, value) = (is_empty (auth_data driver value) ≡ false) × (is_empty key ≡ false)

  usable :
      (args : List String) (m : GoMap)
      → All IsUsable m
      → append_auth driver args m ≡ ok (args ++ flags_of (auth_data driver) m)
  unfolding append_auth
  usable args [] h = ap ok (sym (append-nil args))
  usable args ((key, value) ∷ m) ((v, k), h) =
      rw (v, k)
        (usable ((args ++ flag key ∷ []) ++ auth_data driver value ∷ []) m h
          ∙ ap ok (simp append_assoc))

  ok-injective : {a b : List String} → ok a ≡ ok b → a ≡ b
  ok-injective e = cc

  accepted :
      (args : List String) (m : GoMap) (found : List String)
      → append_auth driver args m ≡ ok found
      → All IsUsable m
  unfolding append_auth
  accepted args [] found e = tt
  accepted args ((key, value) ∷ m) found e =
      ground (arith, accepted ((args ++ flag key ∷ []) ++ auth_data driver value ∷ []) m found)

  -- The secret is accepted exactly when no key and no data of it is empty, and then the arguments are
  -- one flag and one value for each of its entries: base64 of the value for Google, and else the
  -- value.
  pub append_auth-eq-ok :
      (m : GoMap) (found : List String)
      → (append_auth driver [] m ≡ ok found)
        ↔ (All IsUsable m × (found ≡ flags_of (auth_data driver) m))
  append_auth-eq-ok m found = (
    λ e. (accepted [] m found e, ok-injective (sym e ∙ usable [] m (accepted [] m found e))),
    λ (h, e). usable [] m h ∙ ap ok (sym e),
  )
