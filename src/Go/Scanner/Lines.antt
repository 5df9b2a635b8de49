-- ===== src/Go/Scanner/Lines.antt =====
-- Reading back the lines that were written, each with its newline.
use mathlib.Core.List.{reverse_aux, reverse-reverse}
use docker_machine_operator.Base.{
  ℕ, ◌+◌, ◌<◌, ◌≡◌, refl, ap, ◌∙◌, false, leb, eqb, List, [], ◌∷◌, ◌++◌, length, All, arith,
}
use docker_machine_operator.Go.Scanner.{max_token, drop_cr, scan_from, scan_lines}

-- A character that does not end a line and is not dropped at its end.
abbrev pub IsPlain : ℕ → Type 0
IsPlain c = (eqb c 10 ≡ false) × (eqb c 13 ≡ false)

-- A line that fits into the scanner's buffer.
abbrev pub IsLine : List ℕ → Type 0
IsLine line = All IsPlain line × (length line < max_token)

abbrev pub unlines : List (List ℕ) → List ℕ
unlines [] = []
unlines (line ∷ lines) = line ++ 10 ∷ unlines lines

length-reverse_aux : (xs ys : List ℕ) → length (reverse_aux xs ys) ≡ length xs + length ys
length-reverse_aux [] ys = omega arith
length-reverse_aux (x ∷ xs) ys = omega (arith, length-reverse_aux xs (x ∷ ys))

All-reverse_aux :
    (xs ys : List ℕ) → All IsPlain xs → All IsPlain ys → All IsPlain (reverse_aux xs ys)
All-reverse_aux [] ys h k = k
All-reverse_aux (x ∷ xs) ys (p, h) k = All-reverse_aux xs (x ∷ ys) h (p, k)

drop_cr-plain : (line : List ℕ) → All IsPlain line → drop_cr line ≡ line
drop_cr-plain [] h = refl
drop_cr-plain (c ∷ line) h = ground arith

-- The characters of a line are collected backwards.
scan_from-line :
    (back line rest : List ℕ)
    → All IsPlain line
    → scan_from back (line ++ rest) ≡ scan_from (reverse_aux line back) rest
scan_from-line back [] rest h = refl
scan_from-line back (c ∷ line) rest (p, h) = rw p.0 (scan_from-line (c ∷ back) line rest h)

-- A newline ends a line that fits.
scan_from-newline :
    (line rest : List ℕ) → IsLine line → scan_from [] (line ++ 10 ∷ rest) ≡ line ∷ scan_from [] rest
scan_from-newline line rest (plain, fits) =
    let short : leb max_token (length (reverse_aux line [])) ≡ false =
      ground (arith, length-reverse_aux line []) in
    let back : drop_cr (reverse_aux line []) ≡ reverse_aux line [] =
      drop_cr-plain _ (All-reverse_aux line [] plain tt) in
    scan_from-line [] line (10 ∷ rest) plain
    ∙ rw (short, back) (ap (λ l. l ∷ scan_from [] rest) (reverse-reverse line))

-- Of lines that fit the buffer and hold no line ends, each written with its newline, the scanner
-- yields these lines again.
pub scan_lines-unlines :
    (lines : List (List ℕ)) → All IsLine lines → scan_lines (unlines lines) ≡ lines
unfolding scan_lines
scan_lines-unlines [] h = refl
scan_lines-unlines (line ∷ lines) (fits, h) =
    scan_from-newline line (unlines lines) fits ∙ ap (λ l. line ∷ l) (scan_lines-unlines lines h)
