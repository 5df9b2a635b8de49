-- ===== src/Effect/Footprint.antt =====
-- Which calls an action may make: the history only grows, and each new event satisfies a predicate.
use docker_machine_operator.Base.{Bool, true, false, Option, some, ◌∷◌, All, if◌then◌else◌}
use docker_machine_operator.Go.Error.{Error, Except}
use docker_machine_operator.Api.Types.{Machine}
use docker_machine_operator.Env.Event.{Event, History}
use docker_machine_operator.Effect.{
  State, Fault, Outcome, done, failed, aborted, Action, pure, fail, abort, lift, call, attempt,
  call_error, call_value, continue, ◌>>=◌, ◌>>◌, deref, machine, set_machine, skip,
}

-- `new` is `old` with events on top that satisfy `P`.
pub data Extends (P : Event → Type 0) (old : History) : History → Type 0 where
  same : Extends P old old
  more : {e : Event} {new : History} → P e → Extends P old new → Extends P old (e ∷ new)

module _ {P : Event → Type 0} where
  pub Extends-trans : {a b c : History} → Extends P a b → Extends P b c → Extends P a c
  Extends-trans ab same = ab
  Extends-trans ab (more p bc) = more p (Extends-trans ab bc)

  pub Extends-All : {a b : History} → Extends P a b → All P a → All P b
  Extends-All same h = h
  Extends-All (more p ab) h = (p, Extends-All ab h)

-- From every state, and however it ends, the action makes only calls that satisfy `P`.
pub record Emits {A : Type 0} (P : Event → Type 0) (m : Action A) : Type 0 where
  pub at : (s : State) → Extends P s.log (m s).1.log

module _ {A : Type 0} {P : Event → Type 0} where
  pub Emits-pure : (a : A) → Emits P (pure a)
  unfolding pure
  Emits-pure a = record { at = λ s. same }

  pub Emits-fail : (e : Error) → Emits P (fail {A = A} e)
  unfolding fail
  Emits-fail e = record { at = λ s. same }

  pub Emits-abort : (f : Fault) → Emits P (abort {A = A} f)
  unfolding abort
  Emits-abort f = record { at = λ s. same }

  pub Emits-lift : (r : Except A) → Emits P (lift r)
  unfolding lift
  Emits-lift r = record { at = λ s. same }

  pub Emits-deref : (o : Option A) → Emits P (deref o)
  unfolding deref
  Emits-deref o = record { at = λ s. same }

  pub Emits-call :
      (ask : History → Except A) (note : Except A → Event)
      → ((r : Except A) → P (note r))
      → Emits P (call ask note)
  unfolding call
  Emits-call ask note p = record { at = λ s. more (p (ask s.log)) same }

  pub Emits-call_value :
      (ask : History → A) (note : A → Event)
      → ((r : A) → P (note r))
      → Emits P (call_value ask note)
  unfolding call_value
  Emits-call_value ask note p = record { at = λ s. more (p (ask s.log)) same }

  pub Emits-attempt : (m : Action A) → Emits P m → Emits P (attempt m)
  unfolding attempt
  Emits-attempt m k = record { at = λ s. k.at s }

  pub Emits-if : (b : Bool) (m n : Action A) → Emits P m → Emits P n → Emits P (if b then m else n)
  Emits-if true m n k l = k
  Emits-if false m n k l = l

module _ {P : Event → Type 0} where
  pub Emits-call_error :
      (ask : History → Option Error) (note : Option Error → Event)
      → ((r : Option Error) → P (note r))
      → Emits P (call_error ask note)
  unfolding call_error
  Emits-call_error ask note p = record { at = λ s. more (p (ask s.log)) same }

  pub Emits-machine : Emits P machine
  unfolding machine
  Emits-machine = record { at = λ s. same }

  pub Emits-set_machine : (m : Machine) → Emits P (set_machine m)
  unfolding set_machine
  Emits-set_machine m = record { at = λ s. same }

  pub Emits-skip : Emits P skip
  unfolding skip
  Emits-skip = record { at = λ s. same }

module _ {A B : Type 0} {P : Event → Type 0} where
  continue-Extends :
      (r : Outcome A) (f : A → Action B) (s : State)
      → ((a : A) → Emits P (f a))
      → Extends P s.log (continue r f s).1.log
  continue-Extends (done a) f s k = (k a).at s
  continue-Extends (failed e) f s k = same
  continue-Extends (aborted x) f s k = same

  pub Emits-bind :
      (m : Action A) (f : A → Action B) → Emits P m → ((a : A) → Emits P (f a)) → Emits P (m >>= f)
  unfolding ◌>>=◌
  Emits-bind m f k l = record {
    at = λ s. let (r, s') = m s in Extends-trans (k.at s) (continue-Extends r f s' l);
  }

module _ {B : Type 0} {P : Event → Type 0} where
  -- What is read back is what was set.
  pub Emits-set_machine-machine :
      (m : Machine) (f : Machine → Action B)
      → Emits P (f m)
      → Emits P (set_machine m >> (machine >>= f))
  unfolding ◌>>=◌ set_machine machine
  Emits-set_machine-machine m f k = record { at = λ s. k.at (record s { machine_obj = some m }) }

pub ruleset emits_rules = (
  Emits-pure, Emits-fail, Emits-abort, Emits-lift, Emits-deref, Emits-call, Emits-call_value,
  Emits-attempt, Emits-if, Emits-call_error, Emits-machine, Emits-set_machine, Emits-skip,
  Emits-bind,
)
