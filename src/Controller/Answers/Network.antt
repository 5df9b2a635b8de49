-- ===== src/Controller/Answers/Network.antt =====
-- `waitForState` (pkg/controller/util.go), and the helpers of pkg/controller/aws.go.
pub mod Clouds
use native.Mathlib.Nat.{div-add-mod', mod-lt}
use docker_machine_operator.Base.{
  String, ℕ, zero, suc, ◌+◌, ◌*◌, ◌/◌, ◌%◌, ◌≤◌, ◌<◌, ◌≡◌, Bool, true, false, leb, Bool-cases, inl,
  inr, arith, Option, none, some, List, [], ◌∷◌, if◌then◌else◌,
}
use docker_machine_operator.Go.Error.{Error, Except, ok, err}
use docker_machine_operator.Env.Event.{Handle, RouteTable, SecurityGroup}
use docker_machine_operator.Env.{Env}
use docker_machine_operator.Effect.{Action, skip}
use docker_machine_operator.Effect.Answers.{
  Answers, Answers-bind, Answers-if, Answers-fail, Answers-skip, Answers-call_value,
  Answers-machine_bind, answers_rules,
}
use docker_machine_operator.Controller.Wait.{sleep, wait_loop, wait_for_state, second}
use docker_machine_operator.Controller.Aws.{
  annotation, parameter, get_annotations_args_for_aws, logged, unless_missing, ignore_missing,
  after_failure, or_undo, get_aws_credentials, aws_ec2_client,
}
use docker_machine_operator.Controller.Aws.Gateway.{
  found_table, find_route_table, create_aws_route, delete_aws_route, attach_internet_gateway_to_vpc,
  detach_internet_gateway_to_vpc, delete_aws_internet_gateway, create_aws_internet_gateway,
  delete_aws_subnet, create_aws_subnet,
}
use docker_machine_operator.Controller.Aws.Vpc.{
  get_vpc, delete_groups, delete_security_group, delete_aws_vpc, is_available, new_vpc,
  existing_vpc, create_aws_vpc, create_aws_environment, cleanup_aws_resources,
}
use docker_machine_operator.Controller.Azure.{get_azure_credential, delete_azure_resource_group}
use docker_machine_operator.Controller.Answers.{
  IsValid, Validates, driver_name-Answers, get_secret-Answers, patch_annotation-Answers,
}

-- With `n` rounds of fuel for the time that is left, the loop ends before its fuel does.
wait_loop-Answers :
    (retry timeout : ℕ) (status : Action Bool)
    → Answers IsValid status
    → (n t : ℕ) → timeout < t + n * retry
    → Answers IsValid (wait_loop (suc n) retry timeout status t)
unfolding wait_loop sleep
wait_loop-Answers retry timeout status k zero t h =
    let over : leb t timeout ≡ false = ground (arith, h) in rw over (Answers-fail _)
wait_loop-Answers retry timeout status k (suc n) t h =
    Answers-if _ _ _
      (Answers-bind _ _ k λ reached. Answers-if reached _ _ Answers-skip (
        Answers-bind _ _ (Answers-call_value _ _)
          λ _. wait_loop-Answers retry timeout status k n (t + retry) (omega (arith, h))))
      (Answers-fail _)

pub wait_for_state-Answers :
    (retry timeout : ℕ) (status : Action Bool)
    → 0 < retry
    → Answers IsValid status
    → Answers IsValid (wait_for_state retry timeout status)
unfolding wait_for_state
wait_for_state-Answers retry timeout status h k =
    rw add_two (wait_loop-Answers retry timeout status k (timeout / retry + 1) 0 enough)
  where
    enough : timeout < 0 + (timeout / retry + 1) * retry
    enough = omega (arith, div-add-mod' timeout retry, mod-lt timeout h)

    add_two : timeout / retry + 2 ≡ suc (timeout / retry + 1)
    add_two = omega arith

pub annotation-Answers : (key : String) → Answers IsValid (annotation key)
unfolding annotation
annotation-Answers key = search answers_rules

pub parameter-Answers : (key : String) → Answers IsValid (parameter key)
unfolding parameter
parameter-Answers key = search answers_rules

pub get_annotations_args_for_aws-Answers : Answers IsValid get_annotations_args_for_aws
unfolding get_annotations_args_for_aws
get_annotations_args_for_aws-Answers = search (answers_rules, driver_name-Answers)

pub logged-Answers : (m : Action Unit) → Answers IsValid m → Answers IsValid (logged m)
unfolding logged
logged-Answers m k = search answers_rules

unless_missing-Answers : (r : Except Unit) → Answers IsValid (unless_missing r)
unless_missing-Answers (ok _) = search answers_rules
unless_missing-Answers (err e) = search answers_rules

pub ignore_missing-Answers :
    (m : Action Unit) → Answers IsValid m → Answers IsValid (ignore_missing m)
unfolding ignore_missing
ignore_missing-Answers m k = search (answers_rules, unless_missing-Answers)

after_failure-Answers :
    (undo : Action Unit) (r : Except Unit)
    → Answers IsValid undo
    → Answers IsValid (after_failure undo r)
after_failure-Answers undo (ok _) k = search answers_rules
after_failure-Answers undo (err e) k = search answers_rules

pub or_undo-Answers :
    (act undo : Action Unit)
    → Answers IsValid act
    → Answers IsValid undo
    → Answers IsValid (or_undo act undo)
unfolding or_undo
or_undo-Answers act undo k l = search (answers_rules, after_failure-Answers)

pub found_table-Answers :
    (vpc : String) (o : Option RouteTable) → Answers IsValid (found_table vpc o)
found_table-Answers vpc none = search answers_rules
found_table-Answers vpc (some rt) = search answers_rules

pub ruleset network_answers = (
  answers_rules, driver_name-Answers, annotation-Answers, parameter-Answers, logged-Answers,
  ignore_missing-Answers, or_undo-Answers, found_table-Answers,
)
