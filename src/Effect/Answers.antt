-- ===== src/Effect/Answers.antt =====
-- Actions that never abort, and keep a promise on the machine in memory.
use docker_machine_operator.Base.{
  Bool, true, false, ◌≡◌, refl, Option, none, some, ◌∷◌, inl, inr, if◌then◌else◌,
}
use docker_machine_operator.Go.Error.{Error, Except, ok, err, Except-cases, of_error}
use docker_machine_operator.Api.Types.{Machine}
use docker_machine_operator.Env.Event.{Event, History}
use docker_machine_operator.Effect.{
  State, Outcome, done, failed, aborted, Action, pure, fail, lift, call, attempt, attempted,
  call_error, call_value, continue, ◌>>=◌, deref, machine, set_machine, skip, outcome_of, or_abort,
}

-- The action came to an end of its own.
abbrev pub IsAnswer : {A : Type 0} → Outcome A → Type 0
IsAnswer (done a) = Unit
IsAnswer (failed e) = Unit
IsAnswer (aborted f) = ⊥

abbrev pub IsSome : {A : Type 0} → Option A → Type 0
IsSome none = ⊥
IsSome (some a) = Unit

module _ {A : Type 0} where
  outcome_of-IsAnswer : (r : Except A) → IsAnswer (outcome_of r)
  outcome_of-IsAnswer (ok a) = tt
  outcome_of-IsAnswer (err e) = tt

  attempted-IsAnswer : (r : Outcome A) → IsAnswer r → IsAnswer (attempted r)
  attempted-IsAnswer (done a) h = tt
  attempted-IsAnswer (failed e) h = tt
  attempted-IsAnswer (aborted f) h = h

of_error-IsAnswer : (o : Option Error) → IsAnswer (outcome_of (of_error o))
of_error-IsAnswer none = tt
of_error-IsAnswer (some e) = tt

module _ (Q : Machine → Type 0) where
  -- A machine is in memory, and it keeps the promise.
  abbrev pub Holds : State → Type 0
  Holds s = (m : Machine) × (s.machine_obj ≡ some m) × Q m

  -- What is so after an action.
  abbrev pub IsHeld : {A : Type 0} → Outcome A × State → Type 0
  IsHeld (r, s) = Holds s × IsAnswer r

  pub record Answers {A : Type 0} (m : Action A) : Type 0 where
    pub at : (s : State) → Holds s → IsHeld (m s)

module _ {Q : Machine → Type 0} {A : Type 0} where
  pub Answers-pure : (a : A) → Answers Q (pure a)
  unfolding pure
  Answers-pure a = record { at = λ s h. (h, tt) }

  pub Answers-fail : (e : Error) → Answers Q (fail {A = A} e)
  unfolding fail
  Answers-fail e = record { at = λ s h. (h, tt) }

  pub Answers-lift : (r : Except A) → Answers Q (lift r)
  unfolding lift
  Answers-lift r = record { at = λ s h. (h, outcome_of-IsAnswer r) }

  pub Answers-deref : (o : Option A) → IsSome o → Answers Q (deref o)
  unfolding deref or_abort
  Answers-deref none k = absurd k
  Answers-deref (some a) k = record { at = λ s h. (h, tt) }

  pub Answers-call :
      (ask : History → Except A) (note : Except A → Event) → Answers Q (call ask note)
  unfolding call
  Answers-call ask note = record { at = λ s h. (h, outcome_of-IsAnswer (ask s.log)) }

  pub Answers-call_value : (ask : History → A) (note : A → Event) → Answers Q (call_value ask note)
  unfolding call_value
  Answers-call_value ask note = record { at = λ s h. (h, tt) }

  pub Answers-attempt : (m : Action A) → Answers Q m → Answers Q (attempt m)
  unfolding attempt
  Answers-attempt m k = record {
    at = λ s h. ((k.at s h).0, attempted-IsAnswer (m s).0 (k.at s h).1);
  }

  pub Answers-if :
      (b : Bool) (m n : Action A) → Answers Q m → Answers Q n → Answers Q (if b then m else n)
  Answers-if true m n k l = k
  Answers-if false m n k l = l

module _ {Q : Machine → Type 0} where
  pub Answers-call_error :
      (ask : History → Option Error) (note : Option Error → Event) → Answers Q (call_error ask note)
  unfolding call_error
  Answers-call_error ask note = record { at = λ s h. (h, of_error-IsAnswer (ask s.log)) }

  pub Answers-skip : Answers Q skip
  unfolding skip pure
  Answers-skip = record { at = λ s h. (h, tt) }

  pub Answers-set_machine : (m : Machine) → Q m → Answers Q (set_machine m)
  unfolding set_machine
  Answers-set_machine m q = record { at = λ s h. ((m, refl, q), tt) }

module _ {Q : Machine → Type 0} {A B : Type 0} where
  pub continue-IsHeld :
      (r : Outcome A) (f : A → Action B) (s : State)
      → IsHeld Q (r, s)
      → ((a : A) → Answers Q (f a))
      → IsHeld Q (continue r f s)
  continue-IsHeld (done a) f s (h, t) k = (k a).at s h
  continue-IsHeld (failed e) f s (h, t) k = (h, tt)
  continue-IsHeld (aborted x) f s (h, t) k = absurd t

  pub Answers-bind :
      (m : Action A) (f : A → Action B)
      → Answers Q m
      → ((a : A) → Answers Q (f a))
      → Answers Q (m >>= f)
  unfolding ◌>>=◌
  Answers-bind m f k l = record { at = λ s h. continue-IsHeld (m s).0 f (m s).1 (k.at s h) l }

  -- What follows a call may use what the call answered.
  pub Answers-call_bind :
      (ask : History → Except A) (note : Except A → Event) (f : A → Action B)
      → ((h : History) (a : A) → ask h ≡ ok a → Answers Q (f a))
      → Answers Q (call ask note >>= f)
  unfolding ◌>>=◌ call
  Answers-call_bind ask note f k = record {
    at = λ s h. elim (Except-cases (ask s.log)) [
      | inl (e, r) ↦ rw r (h, tt)
      | inr (a, r) ↦ rw r ((k s.log a r).at (record s { log = note (ok a) ∷ s.log }) h)
    ];
  }

module _ {Q : Machine → Type 0} {B : Type 0} where
  -- The machine that is read keeps the promise.
  pub Answers-machine_bind :
      (f : Machine → Action B) → ((m : Machine) → Q m → Answers Q (f m)) → Answers Q (machine >>= f)
  unfolding ◌>>=◌ machine or_abort
  Answers-machine_bind f k = record {
    at = λ s (m, e, q). rw e ((k m q).at (record s { machine_obj = some m }) (m, refl, q));
  }

  -- The same, where the state matters too.
  pub Answers-machine_at :
      (f : Machine → Action B)
      → ((s : State) (m : Machine) → s.machine_obj ≡ some m → Q m → IsHeld Q (f m s))
      → Answers Q (machine >>= f)
  unfolding ◌>>=◌ machine or_abort
  Answers-machine_at f k = record {
    at = λ s (m, e, q). rw e (k (record s { machine_obj = some m }) m refl q);
  }

pub ruleset answers_rules = (
  Answers-pure, Answers-fail, Answers-lift, Answers-deref, Answers-call, Answers-call_value,
  Answers-attempt, Answers-if, Answers-call_error, Answers-skip, Answers-set_machine,
  Answers-machine_bind, Answers-bind,
)
