-- ===== src/Controller/Requeue.antt =====
-- When a reconcile asks for another one (pkg/controller/machine_controller.go and cluster.go).
pub mod Whole
use docker_machine_operator.Base.{
  String, ℕ, zero, suc, ◌+◌, ◌≤◌, ◌<◌, Bool, true, false, not, ◌≡◌, refl, ◌⊎◌, inl, inr, Option,
  none, some, List, [], ◌∷◌, arith, ◌==◌, if◌then◌else◌,
}
use docker_machine_operator.Go.Error.{Error, Except, ok, err}
use docker_machine_operator.Go.Text.{is_empty}
use docker_machine_operator.Go.Number.{ℤ}
use docker_machine_operator.Api.Types.{ObjectKey, Machine}
use docker_machine_operator.Env.Event.{Event, History, Command, ran}
use docker_machine_operator.Env.{Env}
use docker_machine_operator.Effect.{
  State, Outcome, done, failed, aborted, Action, pure, attempt, attempted, continue, call_value,
  ◌>>=◌,
}
use docker_machine_operator.Effect.Returns.{
  OnDone, OnDone-const, Returns, Returns-pure, Returns-fail, Returns-bind,
}
use docker_machine_operator.Effect.Footprint.{Extends, same, more, Emits}
use docker_machine_operator.Controller.Safety.Events.{is_command, IsPhaseRight}
use docker_machine_operator.Controller.Footprint.Status.{mark_false-Emits}
use docker_machine_operator.Controller.Footprint.Creation.{get_scp_args-Emits}
use docker_machine_operator.Controller.Files.{run_docker_machine}
use docker_machine_operator.Controller.Script.{
  finish, take_result, copied, create_error, fetch_result, get_scp_args,
}
use docker_machine_operator.Controller.Reconcile.{Reply}

abbrev pub failures : Option Error → ℕ
failures none = 0
failures (some e) = 1

-- How many of the calls are a `docker-machine scp` that failed.
abbrev pub failed_copy : Event → ℕ
failed_copy (ran deadline args c) = if is_command "scp" args then failures c.error else 0
failed_copy _ = 0

abbrev pub failed_copies : History → ℕ
failed_copies [] = 0
failed_copies (e ∷ h) = failed_copy e + failed_copies h

grows : {P : Event → Type 0} {a b : History} → Extends P a b → failed_copies a ≤ failed_copies b
grows same = omega arith
grows (more {e} k x) = let le = grows x in omega arith

-- From where this many copies have failed, what is so of a value that is returned, and of the number
-- by then.
pub record Ends {A : Type 0} (n : ℕ) (R : A → ℕ → Type 0) (act : Action A) : Type 0 where
  pub at :
      (s : State)
      → n ≤ failed_copies s.log
      → OnDone (λ a. R a (failed_copies (act s).1.log)) (act s).0

abbrev pub Nothing : {A : Type 0} → A → ℕ → Type 0
Nothing a k = Unit

-- The same of a result that is handled.
abbrev pub Handled : {A : Type 0} → (A → ℕ → Type 0) → Except A → ℕ → Type 0
Handled R (ok a) k = R a k
Handled R (err e) k = Unit

Handled-OnDone :
    {A : Type 0} (R : A → ℕ → Type 0) (k : ℕ) (r : Outcome A)
    → OnDone (λ a. R a k) r
    → OnDone (λ a. Handled R a k) (attempted r)
Handled-OnDone R k (done a) q = q
Handled-OnDone R k (failed e) q = tt
Handled-OnDone R k (aborted x) q = tt

module _ {A : Type 0} {n : ℕ} where
  pub any : (act : Action A) → Ends n Nothing act
  any act = record { at = λ s l. OnDone-const (act s).0 tt }

  pub Ends-attempt :
      {R : A → ℕ → Type 0} (act : Action A) → Ends n R act → Ends n (Handled R) (attempt act)
  unfolding attempt
  Ends-attempt {R} act q = record {
    at = λ s l. Handled-OnDone R (failed_copies (act s).1.log) (act s).0 (q.at s l);
  }

module _ {A : Type 0} {n : ℕ} {R : A → ℕ → Type 0} where
  pub Ends-pure : (a : A) → ((k : ℕ) → n ≤ k → R a k) → Ends n R (pure a)
  unfolding pure
  Ends-pure a h = record { at = λ s l. h (failed_copies s.log) l }

  pub Ends-if :
      (b : Bool) (x y : Action A) → Ends n R x → Ends n R y → Ends n R (if b then x else y)
  Ends-if true x y k l = k
  Ends-if false x y k l = l

  module _ {B : Type 0} {M : B → ℕ → Type 0} where
    continue-Ends :
        (r : Outcome B) (f : B → Action A) (s : State)
        → n ≤ failed_copies s.log
        → OnDone (λ b. M b (failed_copies s.log)) r
        → ((b : B) (k : ℕ) → n ≤ k → M b k → Ends k R (f b))
        → OnDone (λ a. R a (failed_copies (continue r f s).1.log)) (continue r f s).0
    continue-Ends (done b) f s l m q = (q b (failed_copies s.log) l m).at s (omega arith)
    continue-Ends (failed e) f s l m q = tt
    continue-Ends (aborted x) f s l m q = tt

    pub Ends-bind :
        {P : Event → Type 0} (act : Action B) (f : B → Action A)
        → Emits P act
        → Ends n M act
        → ((b : B) (k : ℕ) → n ≤ k → M b k → Ends k R (f b))
        → Ends n R (act >>= f)
    unfolding ◌>>=◌
    Ends-bind act f e m q = record {
      at = λ s l.
          let le = grows (e.at s) in continue-Ends (act s).0 f (act s).1 (omega arith) (m.at s l) q;
    }

-- The script is to be looked at again only after a copy that failed.
abbrev Looked : ℕ → Bool → ℕ → Type 0
Looked n again k = again ≡ true → n < k

lower :
    (n k j : ℕ)
    → n ≤ k
    → (r : Outcome Bool) → OnDone (λ b. Looked k b j) r
    → OnDone (λ b. Looked n b j) r
lower n k j h (done b) q = λ t. let l = q t in omega arith
lower n k j h (failed e) q = tt
lower n k j h (aborted x) q = tt

pub Looked-weaker :
    {act : Action Bool} (n k : ℕ) → n ≤ k → Ends k (Looked k) act → Ends k (Looked n) act
Looked-weaker {act} n k h q = record {
  at = λ s l. lower n k (failed_copies (act s).1.log) h (act s).0 (q.at s l);
}

module _ (env : Env) where
  finish-Returns : (e : Option Error) → Returns (λ again. again ≡ false) (finish env e)
  finish-Returns none = Returns-pure false refl
  finish-Returns (some e) = Returns-fail e

  take_result-Returns : (r : Option ℤ) → Returns (λ again. again ≡ false) (take_result env r)
  unfolding take_result
  take_result-Returns none = Returns-fail create_error
  take_result-Returns (some z) =
      Returns-bind _ _ λ failure. Returns-bind _ _ λ _. finish-Returns failure

  copied-Returns : Returns (λ again. again ≡ false) (copied env none)
  unfolding copied
  copied-Returns = Returns-bind _ _ λ content. take_result-Returns _

  not_again :
      (n k : ℕ) (r : Outcome Bool)
      → OnDone (λ again. again ≡ false) r
      → OnDone (λ b. Looked n b k) r
  not_again n k (done b) e = λ t. ground (arith, e, t)
  not_again n k (failed x) e = tt
  not_again n k (aborted x) e = tt

  again-Ends : (n : ℕ) (e : Error) → Ends (suc n) (Looked n) (copied env (some e))
  unfolding copied
  again-Ends n e =
      Ends-bind {P = IsPhaseRight} _ _ (mark_false-Emits env _ _ _) (any _)
        λ _ k h _. Ends-pure true (λ k' h' t. omega arith)

  copied-Ends :
      (n : ℕ) (o : Option Error) (s : State)
      → n + failures o ≤ failed_copies s.log
      → OnDone (λ b. Looked n b (failed_copies (copied env o s).1.log)) (copied env o s).0
  copied-Ends n none s l = not_again n _ (copied env none s).0 (copied-Returns.at s)
  copied-Ends n (some e) s l = (again-Ends n e).at s (omega arith)

  failed_copy-scp :
      (args : List String) (c : Command)
      → is_command "scp" args ≡ true
      → failed_copy (ran none args c) ≡ failures c.error
  failed_copy-scp args c e = rw e refl

  run-Ends :
      (n : ℕ) (args : List String)
      → is_command "scp" args ≡ true
      → Ends n (Looked n) (run_docker_machine env args >>= λ c. copied env c.error)
  unfolding run_docker_machine call_value ◌>>=◌
  run-Ends n args scp = record {
    at = λ s l.
        let c = env.run s.log none args in
        let counted = failed_copy-scp args c scp in
        copied-Ends n c.error (record s { log = ran none args c ∷ s.log }) (omega arith);
  }

  scp_args-Returns : Returns (λ args. is_command "scp" args ≡ true) get_scp_args
  unfolding get_scp_args
  scp_args-Returns = Returns-bind _ _ λ m. Returns-bind _ _ λ driver. Returns-pure _ refl

  pub fetch_result-Ends : (n : ℕ) → Ends n (Looked n) (fetch_result env)
  unfolding fetch_result
  fetch_result-Ends n =
      Ends-bind {M = λ args _. is_command "scp" args ≡ true} {P = IsPhaseRight} _ _
        get_scp_args-Emits (record { at = λ s l. scp_args-Returns.at s })
        λ args k h scp. Looked-weaker n k h (run-Ends k args scp)
