-- ===== src/Effect/Triple.antt =====
-- Actions with a condition on the state before them, one on every state after them, and one on the
-- states in which they return a value.
use docker_machine_operator.Base.{Bool, true, false, Option, none, some, ◌≡◌, refl, if◌then◌else◌}
use docker_machine_operator.Api.Types.{Machine}
use docker_machine_operator.Effect.{
  State, Outcome, done, failed, aborted, Action, continue, or_abort, machine, ◌>>=◌,
}
use docker_machine_operator.Effect.Returns.{OnDone, OnDone-const}

pub record Triple {A : Type 0} (before : State → Type 0) (m : Action A) (always : State → Type 0)
    (on_value : A → State → Type 0) : Type 0 where
  pub at : (s : State) → before s → always (m s).1 × OnDone (λ a. on_value a (m s).1) (m s).0

module _ {A : Type 0} {before always : State → Type 0} {on_value : A → State → Type 0} where
  pub Triple-if :
      (b : Bool) (m n : Action A)
      → Triple before m always on_value
      → Triple before n always on_value
      → Triple before (if b then m else n) always on_value
  Triple-if true m n k l = k
  Triple-if false m n k l = l

-- Where the condition after a value is the one after every end.
pub Triple-of :
    {A : Type 0} {before always : State → Type 0} (m : Action A)
    → ((s : State) → before s → always (m s).1)
    → Triple before m always (λ _. always)
Triple-of m k = record { at = λ s h. (k s h, OnDone-const (m s).0 (k s h)) }

module _ {A B : Type 0} {always : State → Type 0} (middle : A → State → Type 0)
    {on_value : B → State → Type 0} where
  continue-Triple :
      (r : Outcome A) (f : A → Action B) (s : State)
      → always s × OnDone (λ a. middle a s) r
      → ((a : A) → Triple (middle a) (f a) always on_value)
      → always (continue r f s).1 × OnDone (λ b. on_value b (continue r f s).1) (continue r f s).0
  continue-Triple (done a) f s (h, q) k = (k a).at s q
  continue-Triple (failed e) f s (h, q) k = (h, tt)
  continue-Triple (aborted x) f s (h, q) k = (h, tt)

  pub Triple-bind :
      {before : State → Type 0} (m : Action A) (f : A → Action B)
      → Triple before m always middle
      → ((a : A) → Triple (middle a) (f a) always on_value)
      → Triple before (m >>= f) always on_value
  unfolding ◌>>=◌
  Triple-bind m f k l = record {
    at = λ s h. let (r, s') = m s in continue-Triple r f s' (k.at s h) l;
  }

module _ (before always : State → Type 0) where
  or_abort-OnDone :
      (s : State) (o : Option Machine)
      → before s
      → OnDone (λ m. before s × (o ≡ some m)) (or_abort o)
  unfolding or_abort
  or_abort-OnDone s none h = tt
  or_abort-OnDone s (some m) h = (h, refl)

  -- Where `r.machineObj` can be read, it is what was read.
  pub Triple-machine :
      ((s : State) → before s → always s)
      → Triple before machine always (λ m s. before s × (s.machine_obj ≡ some m))
  unfolding machine
  Triple-machine k = record { at = λ s h. (k s h, or_abort-OnDone s s.machine_obj h) }
