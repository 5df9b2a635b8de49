-- ===== src/Effect/Within.antt =====
-- Actions that leave the machine in memory as it is, and make only calls that fit it.
use docker_machine_operator.Base.{Bool, true, false, ◌≡◌, refl, Option, some, if◌then◌else◌}
use docker_machine_operator.Go.Error.{Error, Except}
use docker_machine_operator.Api.Types.{Machine}
use docker_machine_operator.Env.Event.{Event, History}
use docker_machine_operator.Effect.{
  State, Outcome, done, failed, aborted, Action, pure, fail, lift, call, attempt, call_error,
  call_value, continue, ◌>>=◌, deref, machine, skip,
}
use docker_machine_operator.Effect.Footprint.{Extends, same, more, Extends-trans}

-- Where the machine `m` is in memory, it stays there, and each new call satisfies `P`.
pub record Within {A : Type 0} (m : Machine) (P : Event → Type 0) (act : Action A) : Type 0 where
  pub at :
      (s : State)
      → s.machine_obj ≡ some m
      → Extends P s.log (act s).1.log × ((act s).1.machine_obj ≡ some m)

module _ {A : Type 0} {m : Machine} {P : Event → Type 0} where
  pub Within-pure : (a : A) → Within m P (pure a)
  unfolding pure
  Within-pure a = record { at = λ s h. (same, h) }

  pub Within-fail : (e : Error) → Within m P (fail {A = A} e)
  unfolding fail
  Within-fail e = record { at = λ s h. (same, h) }

  pub Within-lift : (r : Except A) → Within m P (lift r)
  unfolding lift
  Within-lift r = record { at = λ s h. (same, h) }

  pub Within-deref : (o : Option A) → Within m P (deref o)
  unfolding deref
  Within-deref o = record { at = λ s h. (same, h) }

  pub Within-call :
      (ask : History → Except A) (note : Except A → Event)
      → ((r : Except A) → P (note r))
      → Within m P (call ask note)
  unfolding call
  Within-call ask note p = record { at = λ s h. (more (p (ask s.log)) same, h) }

  pub Within-call_value :
      (ask : History → A) (note : A → Event)
      → ((r : A) → P (note r))
      → Within m P (call_value ask note)
  unfolding call_value
  Within-call_value ask note p = record { at = λ s h. (more (p (ask s.log)) same, h) }

  pub Within-attempt : (act : Action A) → Within m P act → Within m P (attempt act)
  unfolding attempt
  Within-attempt act k = record { at = λ s h. k.at s h }

  pub Within-if :
      (b : Bool) (x y : Action A) → Within m P x → Within m P y → Within m P (if b then x else y)
  Within-if true x y k l = k
  Within-if false x y k l = l

module _ {m : Machine} {P : Event → Type 0} where
  pub Within-call_error :
      (ask : History → Option Error) (note : Option Error → Event)
      → ((r : Option Error) → P (note r))
      → Within m P (call_error ask note)
  unfolding call_error
  Within-call_error ask note p = record { at = λ s h. (more (p (ask s.log)) same, h) }

  pub Within-skip : Within m P skip
  unfolding skip pure
  Within-skip = record { at = λ s h. (same, h) }

module _ {A B : Type 0} {m : Machine} {P : Event → Type 0} where
  continue-Within :
      (old : History) (r : Outcome A) (f : A → Action B) (s : State)
      → Extends P old s.log × (s.machine_obj ≡ some m)
      → ((a : A) → Within m P (f a))
      → Extends P old (continue r f s).1.log × ((continue r f s).1.machine_obj ≡ some m)
  continue-Within old (done a) f s (x, h) k = let (y, h') = (k a).at s h in (Extends-trans x y, h')
  continue-Within old (failed e) f s h k = h
  continue-Within old (aborted e) f s h k = h

  pub Within-bind :
      (act : Action A) (f : A → Action B)
      → Within m P act
      → ((a : A) → Within m P (f a))
      → Within m P (act >>= f)
  unfolding ◌>>=◌
  Within-bind act f k l = record {
    at = λ s h. continue-Within s.log (act s).0 f (act s).1 (k.at s h) l;
  }

module _ {B : Type 0} {m : Machine} {P : Event → Type 0} where
  -- What is read is the machine.
  pub Within-machine_bind : (f : Machine → Action B) → Within m P (f m) → Within m P (machine >>= f)
  unfolding ◌>>=◌ machine
  Within-machine_bind f k = record {
    at = λ s h. rw h (k.at (record s { machine_obj = some m }) refl);
  }

pub ruleset within_rules = (
  Within-pure, Within-fail, Within-lift, Within-deref, Within-call, Within-call_value,
  Within-attempt, Within-if, Within-call_error, Within-skip, Within-bind, Within-machine_bind,
)
