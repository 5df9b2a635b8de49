-- ===== src/Effect/Returns.antt =====
-- What holds of every value that an action returns.
use docker_machine_operator.Base.{Bool, true, false, ◌≡◌, refl, if◌then◌else◌}
use docker_machine_operator.Go.Error.{Error, ok}
use docker_machine_operator.Env.Event.{Event}
use docker_machine_operator.Effect.{
  State, Outcome, done, failed, aborted, Action, pure, fail, attempt, continue, ◌>>=◌,
}
use docker_machine_operator.Effect.Footprint.{Extends, same, Extends-trans, Emits}

-- `P` holds of the value, if the action ends with one.
abbrev pub OnDone : {A : Type 0} → (A → Type 0) → Outcome A → Type 0
OnDone P (done a) = P a
OnDone P (failed e) = Unit
OnDone P (aborted f) = Unit

pub OnDone-const : {A : Type 0} {Q : Type 0} (r : Outcome A) → Q → OnDone (λ _. Q) r
OnDone-const (done a) q = q
OnDone-const (failed e) q = tt
OnDone-const (aborted f) q = tt

pub record Returns {A : Type 0} (Q : A → Type 0) (m : Action A) : Type 0 where
  pub at : (s : State) → OnDone Q (m s).0

module _ {A : Type 0} {Q : A → Type 0} where
  pub Returns-pure : (a : A) → Q a → Returns Q (pure a)
  unfolding pure
  Returns-pure a q = record { at = λ s. q }

  pub Returns-fail : (e : Error) → Returns Q (fail e)
  unfolding fail
  Returns-fail e = record { at = λ s. tt }

  pub Returns-if :
      (b : Bool) (m n : Action A) → Returns Q m → Returns Q n → Returns Q (if b then m else n)
  Returns-if true m n k l = k
  Returns-if false m n k l = l

module _ {A B : Type 0} {Q : B → Type 0} where
  continue-OnDone :
      (r : Outcome A) (f : A → Action B) (s : State)
      → ((a : A) → Returns Q (f a))
      → OnDone Q (continue r f s).0
  continue-OnDone (done a) f s k = (k a).at s
  continue-OnDone (failed e) f s k = tt
  continue-OnDone (aborted x) f s k = tt

  pub Returns-bind :
      (m : Action A) (f : A → Action B) → ((a : A) → Returns Q (f a)) → Returns Q (m >>= f)
  unfolding ◌>>=◌
  Returns-bind m f k = record { at = λ s. let (r, s') = m s in continue-OnDone r f s' k }

module _ {A B : Type 0} {P : Event → Type 0} (Q : A → Type 0) where
  continue-Extends :
      (r : Outcome A) (f : A → Action B) (s : State)
      → OnDone Q r
      → ((a : A) → Q a → Emits P (f a))
      → Extends P s.log (continue r f s).1.log
  continue-Extends (done a) f s q k = (k a q).at s
  continue-Extends (failed e) f s q k = same
  continue-Extends (aborted x) f s q k = same

  -- What follows may use what holds of the value.
  pub Emits-bind-Returns :
      (m : Action A) (f : A → Action B)
      → Emits P m
      → Returns Q m
      → ((a : A) → Q a → Emits P (f a))
      → Emits P (m >>= f)
  unfolding ◌>>=◌
  Emits-bind-Returns m f k q l = record {
    at = λ s. let (r, s') = m s in Extends-trans (k.at s) (continue-Extends r f s' (q.at s) l);
  }

-- An action that is done hands its value on.
pub done-bind :
    {A B : Type 0} (m : Action A) (f : A → Action B) (s s' : State) (a : A)
    → m s ≡ (done a, s')
    → (m >>= f) s ≡ f a s'
unfolding ◌>>=◌
done-bind m f s s' a e = rw e refl

pub attempt-done :
    {A : Type 0} (act : Action A) (s s' : State) (a : A)
    → act s ≡ (done a, s')
    → attempt act s ≡ (done (ok a), s')
unfolding attempt
attempt-done act s s' a e = rw e refl

pub ruleset returns_rules = (Returns-pure, Returns-fail, Returns-if, Returns-bind)
