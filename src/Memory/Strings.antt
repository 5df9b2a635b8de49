-- ===== src/Memory/Strings.antt =====
-- pkg/controller/util.go: `stringToP` and `stringPSlice`, which make pointers for the calls of EC2.
use docker_machine_operator.Base.{
  String, ℕ, zero, suc, ◌≡◌, refl, sym, ap, ◌∙◌, Option, none, some, List, [], ◌∷◌, ◌++◌, map,
  length,
}
use mathlib.Core.List.{append_assoc}
use docker_machine_operator.Memory.{
  Address, Heap, M, Kind, pure, ◌>>=◌, and_then, keep, at, load, new,
}

-- `&sl[i]`: a pointer into an array.
pub record Element : Type 0 where
  pub array : Address
  pub index : ℕ

-- The loop of `stringPSlice`, from `i` on, with the elements that are left.
unfoldable pub pointers : Address → ℕ → List String → List Element
pointers sl i [] = []
pointers sl i (st ∷ rest) = record { array = sl; index = i } ∷ pointers sl (suc i) rest

module _ {A : Type 0} where
  abbrev pub get_elem? : List A → ℕ → Option A
  get_elem? [] i = none
  get_elem? (x ∷ xs) zero = some x
  get_elem? (x ∷ xs) (suc i) = get_elem? xs i

-- What a pointer into an array reads.
abbrev pub element_of : Option (List String) → ℕ → Option String
element_of none i = none
element_of (some elements) i = get_elem? elements i

get_elem?-length :
    (before : List String) (st : String) (rest : List String)
    → get_elem? (before ++ st ∷ rest) (length before) ≡ some st
get_elem?-length [] st rest = refl
get_elem?-length (x ∷ before) st rest = get_elem?-length before st rest

length-snoc :
    (before : List String) (st : String) → length (before ++ st ∷ []) ≡ suc (length before)
length-snoc [] st = refl
length-snoc (x ∷ before) st = ap suc (length-snoc before st)

module _ {C : Type 0} where
  -- The parameter moves to a cell of its own.
  unfoldable pub string_to_p : Kind C String → String → M C Address
  string_to_p kind st = new kind st

  -- A slice that is nil has no elements.
  unfoldable pub string_p_slice : Kind C (List String) → Option Address → M C (List Element)
  unfolding pointers
  string_p_slice kind none = pure []
  string_p_slice kind (some sl) = do elements ← load kind sl; pure (pointers sl 0 elements)

  abbrev pub read : Kind C (List String) → Heap C → Element → Option String
  read kind h e = element_of (at kind e.array h) e.index

module _ {C : Type 0} (kind : Kind C (List String)) (h : Heap C) (sl : Address) where
  -- The pointers from the end of `before` on read what is left.
  pointers-read :
      (before rest : List String)
      → at kind sl h ≡ some (before ++ rest)
      → map (read kind h) (pointers sl (length before) rest) ≡ map some rest
  unfolding pointers
  pointers-read before [] e = refl
  pointers-read before (st ∷ rest) e =
      let here : element_of (at kind sl h) (length before) ≡ some st =
        rw e (get_elem?-length before st rest) in
      let later =
        pointers-read (before ++ st ∷ []) rest
          (e ∙ ap some (sym (append_assoc before (st ∷ []) rest))) in
      λ i.
        here i
        ∷ (ap (λ n. map (read kind h) (pointers sl n rest)) (sym (length-snoc before st)) ∙ later) i

  -- Of an array, each pointer reads its element, and no cell is made.
  pub string_p_slice-reads :
      (elements : List String)
      → at kind sl h ≡ some elements
      → (ps : List Element) × (string_p_slice kind (some sl) h ≡ some (ps, h))
        × (map (read kind h) ps ≡ map some elements)
  unfolding string_p_slice ◌>>=◌ and_then load keep
  string_p_slice-reads elements e = (pointers sl 0 elements, rw e refl, pointers-read [] elements e)
