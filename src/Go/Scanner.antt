-- ===== src/Go/Scanner.antt =====
-- `bufio.Scanner` over a file, with its default split into lines and its default limit.
pub mod Lines
use docker_machine_operator.Base.{ℕ, zero, suc, leb, eqb, List, [], ◌∷◌, length, if◌then◌else◌}
use mathlib.Core.List.{reverse}

-- `bufio.MaxScanTokenSize`
abbrev pub max_token : ℕ
max_token = 65536

-- A trailing carriage return is dropped; the line is read backwards.
abbrev drop_cr : List ℕ → List ℕ
drop_cr [] = []
drop_cr (c ∷ cs) = if eqb c 13 then cs else c ∷ cs

-- The lines that `Scan` yields, from the bytes of the current line, read backwards, and those to
-- come. A line that fills the buffer ends the scan; the last line needs no newline, unless it is
-- empty.
abbrev pub scan_from : List ℕ → List ℕ → List (List ℕ)
scan_from [] [] = []
scan_from (c ∷ line) [] =
    if leb max_token (length (c ∷ line)) then [] else reverse (drop_cr (c ∷ line)) ∷ []
scan_from line (c ∷ cs) =
    let rest = scan_from [] cs in
    let longer = scan_from (c ∷ line) cs in
    if eqb c 10
    then (if leb max_token (length line) then [] else reverse (drop_cr line) ∷ rest)
    else longer

unfoldable pub scan_lines : List ℕ → List (List ℕ)
scan_lines cs = scan_from [] cs
