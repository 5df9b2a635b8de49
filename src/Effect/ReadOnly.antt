-- ===== src/Effect/ReadOnly.antt =====
-- Actions that leave `r.machineObj` alone, and a rule for actions with a state before and after.
use docker_machine_operator.Base.{Bool, true, false, Option, ◌≡◌, refl, ◌∙◌, if◌then◌else◌}
use docker_machine_operator.Go.Error.{Error, Except}
use docker_machine_operator.Env.Event.{Event, History}
use docker_machine_operator.Effect.{
  State, Outcome, done, failed, aborted, Action, pure, fail, lift, call, attempt, call_error,
  call_value, continue, ◌>>=◌, deref, machine, skip,
}

pub record IsReadOnly {A : Type 0} (m : Action A) : Type 0 where
  pub at : (s : State) → (m s).1.machine_obj ≡ s.machine_obj

module _ {A : Type 0} where
  pub pure-IsReadOnly : (a : A) → IsReadOnly (pure a)
  unfolding pure
  pure-IsReadOnly a = record { at = λ s. refl }

  pub fail-IsReadOnly : (e : Error) → IsReadOnly (fail {A = A} e)
  unfolding fail
  fail-IsReadOnly e = record { at = λ s. refl }

  pub lift-IsReadOnly : (r : Except A) → IsReadOnly (lift r)
  unfolding lift
  lift-IsReadOnly r = record { at = λ s. refl }

  pub deref-IsReadOnly : (o : Option A) → IsReadOnly (deref o)
  unfolding deref
  deref-IsReadOnly o = record { at = λ s. refl }

  pub call-IsReadOnly :
      (ask : History → Except A) (note : Except A → Event) → IsReadOnly (call ask note)
  unfolding call
  call-IsReadOnly ask note = record { at = λ s. refl }

  pub call_value-IsReadOnly :
      (ask : History → A) (note : A → Event) → IsReadOnly (call_value ask note)
  unfolding call_value
  call_value-IsReadOnly ask note = record { at = λ s. refl }

  pub attempt-IsReadOnly : (m : Action A) → IsReadOnly m → IsReadOnly (attempt m)
  unfolding attempt
  attempt-IsReadOnly m k = record { at = λ s. k.at s }

  pub if-IsReadOnly :
      (b : Bool) (m n : Action A) → IsReadOnly m → IsReadOnly n → IsReadOnly (if b then m else n)
  if-IsReadOnly true m n k l = k
  if-IsReadOnly false m n k l = l

pub call_error-IsReadOnly :
    (ask : History → Option Error) (note : Option Error → Event) → IsReadOnly (call_error ask note)
unfolding call_error
call_error-IsReadOnly ask note = record { at = λ s. refl }

pub machine-IsReadOnly : IsReadOnly machine
unfolding machine
machine-IsReadOnly = record { at = λ s. refl }

pub skip-IsReadOnly : IsReadOnly skip
unfolding skip
skip-IsReadOnly = record { at = λ s. refl }

module _ {A B : Type 0} where
  continue-IsReadOnly :
      (r : Outcome A) (f : A → Action B) (s : State)
      → ((a : A) → IsReadOnly (f a))
      → (continue r f s).1.machine_obj ≡ s.machine_obj
  continue-IsReadOnly (done a) f s k = (k a).at s
  continue-IsReadOnly (failed e) f s k = refl
  continue-IsReadOnly (aborted x) f s k = refl

  pub bind-IsReadOnly :
      (m : Action A) (f : A → Action B)
      → IsReadOnly m
      → ((a : A) → IsReadOnly (f a))
      → IsReadOnly (m >>= f)
  unfolding ◌>>=◌
  bind-IsReadOnly m f k l = record {
    at = λ s. let (r, s') = m s in continue-IsReadOnly r f s' l ∙ k.at s;
  }

pub ruleset read_only_rules = (
  pure-IsReadOnly, fail-IsReadOnly, lift-IsReadOnly, deref-IsReadOnly, call-IsReadOnly,
  call_value-IsReadOnly, attempt-IsReadOnly, if-IsReadOnly, call_error-IsReadOnly,
  machine-IsReadOnly, skip-IsReadOnly, bind-IsReadOnly,
)
