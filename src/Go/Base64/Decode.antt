-- ===== src/Go/Base64/Decode.antt =====
-- A decoder of base64 (RFC 4648).
use docker_machine_operator.Base.{
  code, ℕ, zero, suc, ◌+◌, ◌-◌, ◌*◌, ◌/◌, ◌%◌, ◌<◌, ◌≡◌, refl, sym, ap, ◌∙◌, Bool, true, false, not,
  ◌&&◌, leb, eqb, List, [], ◌∷◌, All, arith, if◌then◌else◌,
}
use docker_machine_operator.Go.Text.{codes}
use docker_machine_operator.Go.Base64.{sextet, encode}

-- The six bits of a digit.
sextet_of : ℕ → ℕ
sextet_of c =
    if leb 97 c
    then c - 71
    else if leb 65 c
    then c - 65
    else if leb 48 c
    then c + 4
    else if eqb c 43
    then 62
    else 63

abbrev IsByte : ℕ → Type 0
IsByte b = b < 256

abbrev pad : ℕ
pad = b'='

-- Four digits to a time, with one or two `=` at the end.
pub decode : List ℕ → List ℕ
decode (p ∷ q ∷ r ∷ s ∷ rest) =
    let a = sextet_of p * 4 + sextet_of q / 16 in
    let b = sextet_of q % 16 * 16 + sextet_of r / 4 in
    let c = sextet_of r % 4 * 64 + sextet_of s in
    let more = decode rest in
    if eqb r pad then a ∷ [] else if eqb s pad then a ∷ b ∷ [] else a ∷ b ∷ c ∷ more
decode _ = []

-- The test holds of as many numbers as are asked for, from the first on.
checked : (ℕ → Bool) → ℕ → ℕ → Bool
checked test first zero = true
checked test first (suc count) = test first && checked test (suc first) count

checked_lem :
    (test : ℕ → Bool) (first count k : ℕ)
    → k < count
    → checked test first count ≡ true
    → test (first + k) ≡ true
unfolding checked
checked_lem test first zero k lt e = absurd (omega (arith, lt))
checked_lem test first (suc count) zero lt e = ground (arith, e)
checked_lem test first (suc count) (suc k) lt e =
    let shifted : suc first + k ≡ first + suc k = omega arith in
    ap test (sym shifted)
    ∙ checked_lem test (suc first) count k (omega (arith, lt)) (ground (arith, e))

reads_back : ℕ → Bool
reads_back n = eqb (sextet_of (code (sextet n))) n && not (eqb (code (sextet n)) pad)

sextet_table : checked reads_back 0 64 ≡ true
unfolding checked reads_back sextet_of sextet
sextet_table = refl

-- The digit for `n` stands for `n`, and is no padding.
abbrev Reads : ℕ → Type 0
Reads n = (sextet_of (code (sextet n)) ≡ n) × (eqb (code (sextet n)) pad ≡ false)

reads_back-Reads : (n : ℕ) → reads_back n ≡ true → Reads n
unfolding reads_back
reads_back-Reads n h = ground arith

sextet-Reads : (n : ℕ) → n < 64 → Reads n
sextet-Reads n h =
    let start : n ≡ 0 + n = omega arith in
    reads_back-Reads n (ap reads_back start ∙ checked_lem reads_back 0 64 n h sextet_table)

-- Decoding what the encoder gives, on bytes, gives the bytes back.
pub decode-encode : (bytes : List ℕ) → All IsByte bytes → decode (codes (encode bytes)) ≡ bytes
unfolding decode encode
decode-encode [] h = refl
decode-encode (a ∷ []) h = ground (arith, sextet-Reads (a / 4), sextet-Reads (a % 4 * 16))
decode-encode (a ∷ b ∷ []) h =
    ground
      (arith, sextet-Reads (a / 4), sextet-Reads (a % 4 * 16 + b / 16), sextet-Reads (b % 16 * 4))
decode-encode (a ∷ b ∷ c ∷ rest) h = ground (
  arith,
  sextet-Reads (a / 4),
  sextet-Reads (a % 4 * 16 + b / 16),
  sextet-Reads (b % 16 * 4 + c / 64),
  sextet-Reads (c % 64),
  decode-encode rest,
)
