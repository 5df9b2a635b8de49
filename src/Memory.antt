-- ===== src/Memory.antt =====
-- Memory, for the generated copies of api/v1alpha1/zz_generated.deepcopy.go: cells at addresses, and
-- actions that read cells and make new ones. A pointer, a map and a slice of Go is an address; a
-- slice is its whole array. What stands in a cell is left open, since the libraries keep cells too.
pub mod Agree
pub mod Objects
pub mod Kinds
pub mod DeepCopy
pub mod Deep
pub mod Values
pub mod Spec
pub mod Structs
pub mod Lists
pub mod Isolated
pub mod Strings
use docker_machine_operator.Base.{
  ℕ, ◌+◌, ◌≡◌, eqb, ltb, Option, none, some, if◌then◌else◌, Bool, List, [], ◌∷◌,
}

abbrev pub Address : Type 0
Address = ℕ

-- The addresses below `next` are in use.
pub record Heap (C : Type 0) : Type 0 where
  pub next : Address
  pub cell : Address → C

-- An action that reads a cell which is not there, or is of another type, is a fault.
abbrev pub M : Type 0 → Type 0 → Type 0
M C A = Heap C → Option (A × Heap C)

-- A type of Go as it stands in a cell.
pub record Kind (C : Type 0) (A : Type 0) : Type 0 where
  pub wrap : A → C
  pub unwrap : C → Option A
  pub unwrap-wrap : (a : A) → unwrap (wrap a) ≡ some a

module _ {C A : Type 0} where
  abbrev pub pure : A → M C A
  pure a h = some (a, h)

  pub and_then : {B : Type 0} → Option (A × Heap C) → (A → M C B) → Option (B × Heap C)
  and_then none f = none
  and_then (some (a, h)) f = f a h

  infixl 5 ◌>>=◌
  unfoldable pub ◌>>=◌ : {B : Type 0} → M C A → (A → M C B) → M C B
  unfolding and_then
  (m >>= f) h = and_then (m h) f

  -- What a pointer of this type reads.
  unfoldable pub at : Kind C A → Address → Heap C → Option A
  at kind p h = if ltb p h.next then kind.unwrap (h.cell p) else none

  pub keep : Heap C → Option A → Option (A × Heap C)
  keep h none = none
  keep h (some a) = some (a, h)

  -- `*p`
  unfoldable pub load : Kind C A → Address → M C A
  unfolding at keep
  load kind p h = keep h (at kind p h)

  -- The memory with one more cell.
  unfoldable pub extend : Kind C A → A → Heap C → Heap C
  extend kind a h = record {
    next = h.next + 1;
    cell = λ p. if eqb p h.next then kind.wrap a else h.cell p;
  }

  -- `new`, and `make`, with the value that is then written there.
  unfoldable pub new : Kind C A → A → M C Address
  new kind a h = some (h.next, extend kind a h)

  -- A write through a pointer.
  unfoldable pub store : Kind C A → Address → A → Heap C → Heap C
  store kind p a h = record h { cell = λ q. if eqb q p then kind.wrap a else h.cell q }
