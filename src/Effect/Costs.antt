-- ===== src/Effect/Costs.antt =====
-- How often an action makes the calls that count, whatever it is answered: each event has a weight,
-- and the weights of the new events have a sum.
use docker_machine_operator.Base.{
  ℕ, ◌+◌, ◌≤◌, ◌≡◌, refl, Bool, true, false, ◌∷◌, [], arith, if◌then◌else◌,
}
use docker_machine_operator.Go.Error.{Except}
use docker_machine_operator.Env.Event.{Event, History}
use docker_machine_operator.Effect.{
  State, Outcome, done, failed, aborted, Action, call, call_value, attempt, continue, ◌>>=◌,
}
use docker_machine_operator.Effect.Footprint.{Extends, same, more, Emits}

abbrev pub total : (Event → ℕ) → History → ℕ
total weight [] = 0
total weight (e ∷ log) = weight e + total weight log

module _ (weight : Event → ℕ) where
  -- An event that does not count.
  abbrev pub IsFree : Event → Type 0
  IsFree e = weight e ≡ 0

  pub record Costs {A : Type 0} (n : ℕ) (m : Action A) : Type 0 where
    pub at : (s : State) → total weight (m s).1.log ≤ n + total weight s.log

  free-total : (old new : History) → Extends IsFree old new → total weight new ≡ total weight old
  free-total old _ same = refl
  free-total old _ (more {new = new} p k) = omega (arith, p, free-total old new k)

  module _ {A : Type 0} where
    pub Costs-free : (n : ℕ) (m : Action A) → Emits IsFree m → Costs n m
    Costs-free n m k = record { at = λ s. omega (arith, free-total s.log (m s).1.log (k.at s)) }

    pub Costs-weaken : (n k : ℕ) (m : Action A) → n ≤ k → Costs n m → Costs k m
    Costs-weaken n k m h c = record { at = λ s. omega (arith, h, c.at s) }

    pub Costs-if :
        (n : ℕ) (b : Bool) (x y : Action A) → Costs n x → Costs n y → Costs n (if b then x else y)
    Costs-if n true x y k l = k
    Costs-if n false x y k l = l

    pub Costs-call :
        (n : ℕ) (ask : History → Except A) (note : Except A → Event)
        → ((r : Except A) → weight (note r) ≤ n)
        → Costs n (call ask note)
    unfolding call
    Costs-call n ask note h = record { at = λ s. omega (arith, h (ask s.log)) }

    pub Costs-call_value :
        (n : ℕ) (ask : History → A) (note : A → Event)
        → ((r : A) → weight (note r) ≤ n)
        → Costs n (call_value ask note)
    unfolding call_value
    Costs-call_value n ask note h = record { at = λ s. omega (arith, h (ask s.log)) }

    pub Costs-attempt : (n : ℕ) (m : Action A) → Costs n m → Costs n (attempt m)
    unfolding attempt
    Costs-attempt n m k = record { at = λ s. k.at s }

  module _ {A B : Type 0} (n k : ℕ) where
    continue-total :
        (r : Outcome A) (f : A → Action B) (s : State)
        → ((a : A) → Costs k (f a))
        → total weight (continue r f s).1.log ≤ k + total weight s.log
    continue-total (done a) f s l = (l a).at s
    continue-total (failed e) f s l = omega arith
    continue-total (aborted x) f s l = omega arith

    pub Costs-bind :
        (m : Action A) (f : A → Action B)
        → Costs n m
        → ((a : A) → Costs k (f a))
        → Costs (n + k) (m >>= f)
    unfolding ◌>>=◌
    Costs-bind m f c l = record {
      at = λ s. omega (arith, c.at s, continue-total (m s).0 f (m s).1 l);
    }

  module _ {A B : Type 0} (n : ℕ) (m : Action A) (f : A → Action B) where
    -- What comes first, or what follows, is free.
    pub Costs-after : Emits IsFree m → ((a : A) → Costs n (f a)) → Costs n (m >>= f)
    Costs-after k l =
        Costs-weaken (0 + n) n _ (omega arith) (Costs-bind 0 n m f (Costs-free 0 m k) l)

    pub Costs-before : Costs n m → ((a : A) → Emits IsFree (f a)) → Costs n (m >>= f)
    Costs-before k l =
        Costs-weaken (n + 0) n _ (omega arith)
          (Costs-bind n 0 m f k (λ a. Costs-free 0 (f a) (l a)))
