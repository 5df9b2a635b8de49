-- ===== src/Go/Number.antt =====
-- `strconv.Atoi` of a text, on a 64-bit platform.
pub mod Zero
use docker_machine_operator.Base.{
  ℕ, zero, suc, ◌+◌, ◌-◌, ◌*◌, ◌^◌, Bool, leb, ltb, eqb, ◌&&◌, Option, none, some, List, [], ◌∷◌,
  if◌then◌else◌,
}

-- `negsuc n` is -(n + 1).
pub data ℤ : Type 0 where
  pos : ℕ → ℤ
  negsuc : ℕ → ℤ

abbrev pub is_digit : ℕ → Bool
is_digit c = leb b'0' c && leb c b'9'

-- The value of a run of digits, after those that stand for `acc`.
abbrev pub digits_from : ℕ → List ℕ → Option ℕ
digits_from acc [] = some acc
digits_from acc (c ∷ cs) = if is_digit c then digits_from (acc * 10 + (c - b'0')) cs else none

-- At least one digit.
abbrev pub digits : List ℕ → Option ℕ
digits [] = none
digits (c ∷ cs) = digits_from 0 (c ∷ cs)

abbrev pub int_limit : ℕ
int_limit = 2 ^ 63

abbrev pub positive : ℕ → Option ℤ
positive n = if ltb n int_limit then some (pos n) else none

abbrev negated : ℕ → ℤ
negated zero = pos 0
negated (suc n) = negsuc n

abbrev pub negative : ℕ → Option ℤ
negative n = if leb n int_limit then some (negated n) else none

abbrev pub in_range : (ℕ → Option ℤ) → Option ℕ → Option ℤ
in_range f none = none
in_range f (some n) = f n

-- `none` is a syntax or range error.
unfoldable pub atoi : List ℕ → Option ℤ
atoi [] = none
atoi (c ∷ cs) =
    if eqb c b'-'
    then in_range negative (digits cs)
    else if eqb c b'+'
    then in_range positive (digits cs)
    else in_range positive (digits (c ∷ cs))
