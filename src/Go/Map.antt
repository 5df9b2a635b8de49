-- ===== src/Go/Map.antt =====
-- `map[string]string`: its entries in the order in which this run ranges over them. Go leaves that
-- order open, so a theorem about every list holds of every order.
use docker_machine_operator.Base.{
  String, ◌==◌, eq_iff, ◌≡◌, refl, Option, none, some, List, [], ◌∷◌, arith, if◌then◌else◌,
}

abbrev pub GoMap : Type 0
GoMap = List (String × String)

-- `v, ok := m[k]`
abbrev pub find : String → GoMap → Option String
find k [] = none
find k ((j, v) ∷ m) = if j == k then some v else find k m

-- `m[k]`: the empty text where the key is missing.
abbrev pub get : String → GoMap → String
get k [] = ""
get k ((j, v) ∷ m) = if j == k then v else get k m

-- `m[k] = v`
abbrev pub put : String → String → GoMap → GoMap
put k v [] = (k, v) ∷ []
put k v ((j, w) ∷ m) = if j == k then (k, v) ∷ m else (j, w) ∷ put k v m

pub get-put : (k j v : String) (m : GoMap) → get j (put k v m) ≡ (if k == j then v else get j m)
get-put k j v [] = refl
get-put k j v ((i, w) ∷ m) = ground (arith, eq_iff k j, eq_iff i k, eq_iff i j, get-put k j v m)
