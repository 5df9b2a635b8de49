-- ===== src/Effect/Staged.antt =====
-- The order of the calls of an action: a function gives each call a stage, or none, and the stages
-- never fall.
use docker_machine_operator.Base.{
  ℕ, ◌≤◌, ◌≡◌, Bool, true, false, Option, none, some, ◌∷◌, ◌⊎◌, inl, inr, arith, if◌then◌else◌,
}
use docker_machine_operator.Env.Event.{Event, History}
use docker_machine_operator.Effect.{
  State, Outcome, done, failed, aborted, Action, continue, attempt, ◌>>=◌,
}
use docker_machine_operator.Effect.Footprint.{Extends, same, more, Emits}

-- The history is `old` with events on top; those with a stage are at `lo` to `hi`, and none is at a
-- lower stage than one before it.
pub data Staged (stage : Event → Option ℕ) (lo : ℕ) (old : History) : ℕ → History → Type 0 where
  start : {hi : ℕ} → lo ≤ hi → Staged stage lo old hi old
  free :
      {hi : ℕ} {h : History} {e : Event}
      → stage e ≡ none
      → Staged stage lo old hi h
      → Staged stage lo old hi (e ∷ h)
  step :
      {k hi : ℕ} {h : History} {e : Event}
      → stage e ≡ some k
      → k ≤ hi
      → Staged stage lo old k h
      → Staged stage lo old hi (e ∷ h)

-- The call is at stage `k`, or at none.
abbrev pub AtStage : (Event → Option ℕ) → ℕ → Event → Type 0
AtStage stage k e = (stage e ≡ none) ⊎ (stage e ≡ some k)

module _ {stage : Event → Option ℕ} where
  pub Staged-widen :
      {lo : ℕ} {a : History} {mid hi : ℕ} {b : History}
      → Staged stage lo a mid b
      → mid ≤ hi
      → Staged stage lo a hi b
  Staged-widen (start q) l = start (omega arith)
  Staged-widen (free e s) l = free e (Staged-widen s l)
  Staged-widen (step e q s) l = step e (omega arith) s

  pub Staged-trans :
      {lo mid : ℕ} {a b : History} {hi : ℕ} {c : History}
      → Staged stage lo a mid b
      → Staged stage mid b hi c
      → Staged stage lo a hi c
  Staged-trans s (start q) = Staged-widen s q
  Staged-trans s (free e t) = free e (Staged-trans s t)
  Staged-trans s (step e q t) = step e q (Staged-trans s t)

  pub Extends-Staged :
      {k : ℕ} {a b : History} → Extends (AtStage stage k) a b → Staged stage k a k b
  Extends-Staged same = start (omega arith)
  Extends-Staged (more (inl e) x) = free e (Extends-Staged x)
  Extends-Staged (more (inr e) x) = step e (omega arith) (Extends-Staged x)

-- From every state, and however it ends, the calls of the action come in stages.
pub record Ordered {A : Type 0} (stage : Event → Option ℕ) (lo hi : ℕ) (m : Action A) : Type 0 where
  pub at : (s : State) → Staged stage lo s.log hi (m s).1.log

module _ {stage : Event → Option ℕ} {A : Type 0} where
  pub Emits-Ordered : {k : ℕ} (m : Action A) → Emits (AtStage stage k) m → Ordered stage k k m
  Emits-Ordered m e = record { at = λ s. Extends-Staged (e.at s) }

  pub Ordered-attempt :
      {lo hi : ℕ} (m : Action A) → Ordered stage lo hi m → Ordered stage lo hi (attempt m)
  unfolding attempt
  Ordered-attempt m o = record { at = λ s. o.at s }

  pub Ordered-if :
      {lo hi : ℕ} (b : Bool) (m n : Action A)
      → Ordered stage lo hi m
      → Ordered stage lo hi n
      → Ordered stage lo hi (if b then m else n)
  Ordered-if true m n o p = o
  Ordered-if false m n o p = p

  -- Other stages may come before it and after it.
  pub Ordered-within :
      {lo lo' hi hi' : ℕ} (m : Action A)
      → lo ≤ lo'
      → hi' ≤ hi
      → Ordered stage lo' hi' m
      → Ordered stage lo hi m
  Ordered-within m p q o = record { at = λ s. Staged-trans (start p) (Staged-widen (o.at s) q) }

  -- The calls of the action are at one stage.
  pub Emits-within :
      {lo hi : ℕ} (k : ℕ) (m : Action A)
      → lo ≤ k
      → k ≤ hi
      → Emits (AtStage stage k) m
      → Ordered stage lo hi m
  Emits-within k m p q e = Ordered-within m p q (Emits-Ordered m e)

module _ {stage : Event → Option ℕ} {A B : Type 0} {hi : ℕ} where
  continue-Staged :
      {mid : ℕ} (r : Outcome A) (f : A → Action B) (s : State)
      → mid ≤ hi
      → ((a : A) → Ordered stage mid hi (f a))
      → Staged stage mid s.log hi (continue r f s).1.log
  continue-Staged (done a) f s q o = (o a).at s
  continue-Staged (failed e) f s q o = start q
  continue-Staged (aborted x) f s q o = start q

  -- The stages of what follows are no lower than those of what comes first.
  pub Ordered-bind :
      {lo mid : ℕ} (m : Action A) (f : A → Action B)
      → mid ≤ hi
      → Ordered stage lo mid m
      → ((a : A) → Ordered stage mid hi (f a))
      → Ordered stage lo hi (m >>= f)
  unfolding ◌>>=◌
  Ordered-bind m f q o p = record {
    at = λ s. let (r, s') = m s in Staged-trans (o.at s) (continue-Staged r f s' q p);
  }

  -- First calls at one stage, then calls at no lower one.
  pub Ordered-then :
      {lo : ℕ} (k : ℕ) (m : Action A) (f : A → Action B)
      → lo ≤ k
      → k ≤ hi
      → Emits (AtStage stage k) m
      → ((a : A) → Ordered stage k hi (f a))
      → Ordered stage lo hi (m >>= f)
  Ordered-then k m f p q e o = Ordered-bind m f q (Emits-within k m p (omega arith) e) o
