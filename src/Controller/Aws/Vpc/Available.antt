-- ===== src/Controller/Aws/Vpc/Available.antt =====
-- The wait of `createAwsVpc` for a new VPC, pkg/controller/aws.go.
use docker_machine_operator.Base.{String, ◌*◌, ◌≡◌, refl, [], ◌∷◌, arith, inl, inr}
use docker_machine_operator.Go.Error.{Except-cases}
use docker_machine_operator.Env.Event.{Handle}
use docker_machine_operator.Env.{Env}
use docker_machine_operator.Effect.{State, call, lift, pure, ◌>>=◌}
use docker_machine_operator.Controller.Wait.{second, wait_for_state}
use docker_machine_operator.Controller.Wait.Bound.{
  sleeps, IsEnd, EndsWithin, wait_for_state-EndsWithin,
}
use docker_machine_operator.Controller.Aws.Vpc.{find_vpc, get_vpc, is_available}

module _ (env : Env) (c : Handle) (vpc_id : String) where
  -- The state of a VPC is asked for with one call, and an error of it ends the test.
  asks :
      (s : State)
      → IsEnd (is_available env c vpc_id s).0
        × (sleeps (is_available env c vpc_id s).1.log ≡ sleeps s.log)
  unfolding is_available get_vpc call lift pure ◌>>=◌
  asks s = elim (Except-cases (env.describe_vpcs s.log c (vpc_id ∷ []))) [
    | inl (e, r) ↦ rw r (tt, refl)
    | inr (vpcs, r) ↦ elim (Except-cases (find_vpc vpc_id vpcs)) [
      | inl (e, f) ↦ rw (r, f) (tt, refl)
      | inr (v, f) ↦ rw (r, f) (tt, refl)
    ]
  ]

  -- Whatever EC2 answers, the wait of `createAwsVpc` for a new VPC ends after at most 13 sleeps.
  pub wait_available-EndsWithin :
      (s : State)
      → EndsWithin 13 s (wait_for_state (5 * second) (60 * second) (is_available env c vpc_id) s)
  wait_available-EndsWithin s =
      wait_for_state-EndsWithin (5 * second) (60 * second) _
        (record { no_sleep = λ s. (asks s).1; ends = λ s. (asks s).0 }) (omega arith) s
