-- ===== src/Go/Text.antt =====
-- Texts. A Go `string` or `[]byte` is a `String` whose characters stand for its bytes.
use Prim.Native.String.{String as NativeString}
use docker_machine_operator.Base.{
  String, ◌==◌, ◌≡◌, refl, ℕ, code, Bool, true, false, ◌||◌, ◌&&◌, eqb, List, [], ◌∷◌,
}

-- The bytes of a text.
abbrev pub codes : String → List ℕ
codes NativeString.[] = []
codes (NativeString.◌∷◌ c s) = code c ∷ codes s

-- `len(s) == 0`
abbrev pub is_empty : String → Bool
is_empty s = s == ""

abbrev pub has_prefix : List ℕ → List ℕ → Bool
has_prefix [] s = true
has_prefix (p ∷ ps) [] = false
has_prefix (p ∷ ps) (c ∷ s) = eqb p c && has_prefix ps s

abbrev contains_codes : List ℕ → List ℕ → Bool
contains_codes [] sub = has_prefix sub []
contains_codes (c ∷ s) sub = has_prefix sub (c ∷ s) || contains_codes s sub

-- `strings.Contains(s, sub)`
pub contains : String → String → Bool
contains s sub = contains_codes (codes s) (codes sub)

contains_already_exists : contains "Host already exists: \"m\"" "already exists" ≡ true
unfolding contains
contains_already_exists = refl
