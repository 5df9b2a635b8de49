-- ===== src/Go/Base64.antt =====
-- `base64.StdEncoding.EncodeToString`.
pub mod Decode
use Prim.Native.Char.{nul}
use Prim.Native.String.{String as Text}
use docker_machine_operator.Base.{String, Char, ℕ, zero, suc, ◌+◌, ◌*◌, ◌/◌, ◌%◌, List, [], ◌∷◌}
use docker_machine_operator.Go.Text.{codes}

abbrev pub alphabet : String
alphabet = "ABCDEFGHIJKLMNOPQRSTUVWXYZabcdefghijklmnopqrstuvwxyz0123456789+/"

abbrev pub char_at : String → ℕ → Char
char_at Text.[] n = nul
char_at (Text.◌∷◌ c s) zero = c
char_at (Text.◌∷◌ c s) (suc n) = char_at s n

-- The digit for six bits.
unfoldable pub sextet : ℕ → Char
sextet n = char_at alphabet n

-- Three bytes become four digits; what is left at the end is padded.
unfoldable pub encode : List ℕ → String
encode [] = ""
encode (a ∷ []) = Text.◌∷◌ (sextet (a / 4)) (Text.◌∷◌ (sextet (a % 4 * 16)) "==")
encode (a ∷ b ∷ []) =
    Text.◌∷◌ (sextet (a / 4))
      (Text.◌∷◌ (sextet (a % 4 * 16 + b / 16)) (Text.◌∷◌ (sextet (b % 16 * 4)) "="))
encode (a ∷ b ∷ c ∷ rest) = Text.◌∷◌ (sextet (a / 4)) (
    Text.◌∷◌ (sextet (a % 4 * 16 + b / 16))
      (Text.◌∷◌ (sextet (b % 16 * 4 + c / 64)) (Text.◌∷◌ (sextet (c % 64)) (encode rest))))

unfoldable pub encode_to_string : String → String
unfolding encode sextet
encode_to_string value = encode (codes value)
