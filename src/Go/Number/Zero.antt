-- ===== src/Go/Number/Zero.antt =====
-- Which texts `atoi` reads as 0.
use docker_machine_operator.Base.{
  ℕ, ◌+◌, ◌-◌, ◌*◌, ◌≤◌, ◌≡◌, ◌⊎◌, inl, inr, refl, ◌↔◌, some, List, [], ◌∷◌, All, arith,
  Option-cases,
}
use docker_machine_operator.Go.Number.{pos, digits_from, digits, positive, negative, in_range, atoi}

abbrev pub IsZero : ℕ → Type 0
IsZero c = c ≡ b'0'

-- One or more zeros.
abbrev pub IsZeros : List ℕ → Type 0
IsZeros [] = ⊥
IsZeros (c ∷ cs) = IsZero c × All IsZero cs

-- One or more zeros, after a sign or none.
abbrev pub IsZeroText : List ℕ → Type 0
IsZeroText [] = ⊥
IsZeroText (c ∷ cs) = IsZeros (c ∷ cs) ⊎ (((c ≡ b'-') ⊎ (c ≡ b'+')) × IsZeros cs)

digits_from-pos : (acc : ℕ) (cs : List ℕ) (n : ℕ) → digits_from acc cs ≡ some n → acc ≤ n
digits_from-pos acc [] n h = ground arith
digits_from-pos acc (c ∷ cs) n h = ground (arith, digits_from-pos (acc * 10 + (c - b'0')) cs n)

digits_from-IsZero : (cs : List ℕ) → digits_from 0 cs ≡ some 0 → All IsZero cs
digits_from-IsZero [] h = tt
digits_from-IsZero (c ∷ cs) h =
    ground (arith, digits_from-pos (0 * 10 + (c - b'0')) cs 0, digits_from-IsZero cs)

zero-digits_from : (cs : List ℕ) → All IsZero cs → digits_from 0 cs ≡ some 0
zero-digits_from [] h = refl
zero-digits_from (c ∷ cs) (e, h) = ground (arith, zero-digits_from cs h)

digits-zero : (cs : List ℕ) → (digits cs ≡ some 0) ↔ IsZeros cs
digits-zero [] = (λ h. cc, λ h. absurd h)
digits-zero (c ∷ cs) = (digits_from-IsZero (c ∷ cs), zero-digits_from (c ∷ cs))

positive-zero :
    (cs : List ℕ) → (in_range positive (digits cs) ≡ some (pos 0)) ↔ (digits cs ≡ some 0)
positive-zero cs = elim (Option-cases (digits cs)) [
  | inl e ↦ ground arith
  | inr (n, e) ↦ ground arith
]

negative-zero :
    (cs : List ℕ) → (in_range negative (digits cs) ≡ some (pos 0)) ↔ (digits cs ≡ some 0)
negative-zero cs = elim (Option-cases (digits cs)) [
  | inl e ↦ ground arith
  | inr (n, e) ↦ ground arith
]

-- `atoi` gives 0 exactly for one or more zeros, after a sign or none.
pub atoi-zero_iff : (s : List ℕ) → (atoi s ≡ some (pos 0)) ↔ IsZeroText s
unfolding atoi
atoi-zero_iff [] = (λ h. cc, λ h. absurd h)
atoi-zero_iff (c ∷ cs) = ground (
  arith,
  positive-zero cs,
  negative-zero cs,
  digits-zero cs,
  positive-zero (c ∷ cs),
  digits-zero (c ∷ cs),
)
