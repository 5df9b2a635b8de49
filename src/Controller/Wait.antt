-- ===== src/Controller/Wait.antt =====
-- pkg/controller/util.go: `waitForState`.
pub mod Bound
use docker_machine_operator.Base.{ℕ, zero, suc, ◌+◌, ◌/◌, Bool, leb, if◌then◌else◌}
use docker_machine_operator.Go.Error.{Error, other}
use docker_machine_operator.Env.Event.{slept}
use docker_machine_operator.Effect.{Action, skip, fail, abort, out_of_fuel, call_value, ◌>>=◌, ◌>>◌}

-- `time.Sleep`
unfoldable pub sleep : ℕ → Action Unit
sleep d = call_value (λ h. tt) (λ _. slept d)

abbrev pub wait_error : Error
wait_error = other "failed to get desired status"

-- The loop, from the time `t` on. Durations are nanoseconds, and none of the sums overflows.
unfoldable pub wait_loop : ℕ → ℕ → ℕ → Action Bool → ℕ → Action Unit
unfolding sleep
wait_loop zero retry timeout get_status t = abort out_of_fuel
wait_loop (suc fuel) retry timeout get_status t =
    let rest = wait_loop fuel retry timeout get_status (t + retry) in
    if leb t timeout
    then (do reached ← get_status; if reached then skip else (do sleep retry; rest))
    else fail wait_error

-- One round for each multiple of `retry` up to `timeout`, and the test that ends the loop.
unfoldable pub wait_for_state : ℕ → ℕ → Action Bool → Action Unit
unfolding wait_loop
wait_for_state retry timeout get_status = wait_loop (timeout / retry + 2) retry timeout get_status 0

abbrev pub second : ℕ
second = 1_000_000_000
