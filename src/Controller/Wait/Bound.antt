-- ===== src/Controller/Wait/Bound.antt =====
-- The loop of `waitForState`, pkg/controller/util.go: its end, and its sleeps.
use native.Mathlib.Nat.{div-add-mod', mod-lt}
use docker_machine_operator.Base.{
  ℕ, zero, suc, ◌+◌, ◌*◌, ◌/◌, ◌≤◌, ◌<◌, ◌≡◌, Bool, true, false, leb, Bool-cases, inl, inr, arith,
  [], ◌∷◌, if◌then◌else◌,
}
use docker_machine_operator.Env.Event.{History, slept}
use docker_machine_operator.Effect.{
  State, Outcome, done, failed, aborted, nil_dereference, out_of_fuel, Action, skip, fail, pure,
  call_value, continue, ◌>>=◌, ◌>>◌,
}
use docker_machine_operator.Controller.Wait.{sleep, wait_loop, wait_for_state}

-- The sleeps in a history.
abbrev pub sleeps : History → ℕ
sleeps [] = 0
sleeps (slept d ∷ log) = suc (sleeps log)
sleeps (_ ∷ log) = sleeps log

-- The outcome of an action that did not use up its fuel.
abbrev pub IsEnd : {A : Type 0} → Outcome A → Type 0
IsEnd (done a) = Unit
IsEnd (failed e) = Unit
IsEnd (aborted nil_dereference) = Unit
IsEnd (aborted out_of_fuel) = ⊥

-- A test of the state that ends, and does not sleep.
pub record IsPoll (m : Action Bool) : Type 0 where
  pub no_sleep : (s : State) → sleeps (m s).1.log ≡ sleeps s.log
  pub ends : (s : State) → IsEnd (m s).0

-- The loop ended by itself, and slept at most `n` times since the state.
abbrev pub EndsWithin : ℕ → State → Outcome Unit × State → Type 0
EndsWithin n s (r, s') = IsEnd r × (sleeps s'.log ≤ sleeps s.log + n)

-- One round, on what the test returned.
round :
    (retry n : ℕ) (rest : Action Unit)
    → ((s : State) → EndsWithin n s (rest s))
    → (r : Outcome Bool) (s s' : State) → IsEnd r
    → sleeps s'.log ≡ sleeps s.log
    → EndsWithin
        (suc n)
        s
        (continue r (λ reached. if reached then skip else (do sleep retry; rest)) s')
unfolding sleep call_value ◌>>=◌ skip pure
round retry n rest h (done true) s s' k e = (tt, omega (arith, e))
round retry n rest h (done false) s s' k e =
    let h' = h (record s' { log = slept retry ∷ s'.log }) in (h'.0, omega (arith, h'.1, e))
round retry n rest h (failed x) s s' k e = (tt, omega (arith, e))
round retry n rest h (aborted nil_dereference) s s' k e = (tt, omega (arith, e))
round retry n rest h (aborted out_of_fuel) s s' k e = absurd k

module _ (retry timeout : ℕ) (status : Action Bool) (poll : IsPoll status) where
  loop :
      (n t : ℕ)
      → timeout < t + n * retry
      → (s : State) → EndsWithin n s (wait_loop (suc n) retry timeout status t s)
  unfolding wait_loop ◌>>=◌ fail
  loop zero t h s =
      let over : leb t timeout ≡ false = ground (arith, h) in rw over (tt, omega arith)
  loop (suc n) t h s = elim (Bool-cases (leb t timeout)) [
    | inl e ↦ rw e (
        round retry n _ (loop n (t + retry) (omega (arith, h))) (status s).0 s (status s).1
          (poll.ends s) (poll.no_sleep s))
    | inr e ↦ rw e (tt, omega arith)
  ]

  pub wait_for_state-EndsWithin :
      0 < retry
      → (s : State) → EndsWithin (timeout / retry + 1) s (wait_for_state retry timeout status s)
  unfolding wait_for_state
  wait_for_state-EndsWithin h s = rw add_two (loop (timeout / retry + 1) 0 enough s)
    where
      enough : timeout < 0 + (timeout / retry + 1) * retry
      enough = omega (arith, div-add-mod' timeout retry, mod-lt timeout h)

      add_two : timeout / retry + 2 ≡ suc (timeout / retry + 1)
      add_two = omega arith
