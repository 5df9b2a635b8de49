-- ===== src/Controller/Footprint/Network/Building.antt =====
-- The calls that build a network.
use docker_machine_operator.Base.{String, ℕ, zero, suc, ◌+◌, Bool}
use docker_machine_operator.Env.Event.{Event, Handle}
use docker_machine_operator.Env.{Env}
use docker_machine_operator.Effect.{Action}
use docker_machine_operator.Effect.Footprint.{
  Emits, Emits-bind, Emits-if, Emits-machine, Emits-skip, Emits-fail, Emits-call_value,
}
use docker_machine_operator.Controller.Finalizer.{patch_annotation}
use docker_machine_operator.Controller.Wait.{wait_loop, wait_for_state}
use docker_machine_operator.Controller.Aws.Gateway.{
  create_aws_route, attach_internet_gateway_to_vpc, create_aws_internet_gateway, create_aws_subnet,
}
use docker_machine_operator.Controller.Aws.Vpc.{
  get_vpc, is_available, new_vpc, existing_vpc, create_aws_vpc, create_aws_environment,
}
use docker_machine_operator.Controller.Footprint.{
  SecretCalls, NetworkDeletion, NetworkSteps, NetworkCreation,
}
use docker_machine_operator.Controller.Footprint.Network.{
  aws_ec2_client-Emits, find_route_table-Emits, delete_aws_internet_gateway-Emits,
  delete_aws_subnet-Emits, delete_aws_vpc-Emits, network_rules,
}

module _ (env : Env) {P : Event → Type 0} (deletion : NetworkDeletion P)
    (steps : NetworkSteps P) where
  pub patch_annotation-Emits : (key value : String) → Emits P (patch_annotation env key value)
  unfolding patch_annotation
  patch_annotation-Emits key value = search (network_rules, steps.annotate)

  wait_loop-Emits :
      (fuel retry timeout : ℕ) (status : Action Bool) (t : ℕ)
      → Emits P status
      → Emits P (wait_loop fuel retry timeout status t)
  unfolding wait_loop
  wait_loop-Emits zero retry timeout status t k = search network_rules
  wait_loop-Emits (suc fuel) retry timeout status t k =
      let rest = wait_loop-Emits fuel retry timeout status (t + retry) k in
      Emits-if _ _ _
        (Emits-bind _ _ k λ reached.
          Emits-if reached _ _ Emits-skip
            (Emits-bind _ _ (Emits-call_value _ _ (λ _. steps.sleep retry)) (λ _. rest)))
        (Emits-fail _)

  pub wait_for_state-Emits :
      (retry timeout : ℕ) (status : Action Bool)
      → Emits P status
      → Emits P (wait_for_state retry timeout status)
  unfolding wait_for_state
  wait_for_state-Emits retry timeout status k = wait_loop-Emits _ retry timeout status 0 k

  module _ (c : Handle) where
    pub create_aws_route-Emits : (vpc id : String) → Emits P (create_aws_route env c vpc id)
    unfolding create_aws_route
    create_aws_route-Emits vpc id =
        search (network_rules, find_route_table-Emits env deletion c, steps.route)

    pub attach-Emits : (id vpc : String) → Emits P (attach_internet_gateway_to_vpc env c id vpc)
    unfolding attach_internet_gateway_to_vpc
    attach-Emits id vpc = search (network_rules, steps.attach)

    get_vpc-Emits : (vpc : String) → Emits P (get_vpc env c vpc)
    unfolding get_vpc
    get_vpc-Emits vpc = search (network_rules, steps.vpcs)

    pub is_available-Emits : (vpc : String) → Emits P (is_available env c vpc)
    unfolding is_available
    is_available-Emits vpc = search (network_rules, get_vpc-Emits)

    pub existing_vpc-Emits : (known : String) → Emits P (existing_vpc env c known)
    unfolding existing_vpc
    existing_vpc-Emits known = search (network_rules, get_vpc-Emits)

module _ (env : Env) {P : Event → Type 0} (deletion : NetworkDeletion P)
    (creation : NetworkCreation P) where
  module _ (c : Handle) where
    create_aws_internet_gateway-Emits :
        (vpc : String) → Emits P (create_aws_internet_gateway env c vpc)
    unfolding create_aws_internet_gateway
    create_aws_internet_gateway-Emits vpc =
        Emits-bind _ _ (search (network_rules, creation.gateway)) λ id. search (
          network_rules,
          attach-Emits env deletion creation.steps c,
          create_aws_route-Emits env deletion creation.steps c,
          delete_aws_internet_gateway-Emits env deletion c,
          patch_annotation-Emits env deletion creation.steps,
        )

    create_aws_subnet-Emits : (vpc : String) → Emits P (create_aws_subnet env c vpc)
    unfolding create_aws_subnet
    create_aws_subnet-Emits vpc =
        search
          (
            network_rules,
            creation.subnet,
            create_aws_internet_gateway-Emits,
            delete_aws_subnet-Emits env deletion c,
            patch_annotation-Emits env deletion creation.steps,
          )
          depth 8

    new_vpc-Emits : Emits P (new_vpc env c)
    unfolding new_vpc
    new_vpc-Emits =
        search
          (
            network_rules,
            creation.vpc,
            patch_annotation-Emits env deletion creation.steps,
            wait_for_state-Emits env deletion creation.steps,
            is_available-Emits env deletion creation.steps c,
            delete_aws_vpc-Emits env deletion c,
          )
          depth 8

    create_aws_vpc-Emits : Emits P (create_aws_vpc env c)
    unfolding create_aws_vpc
    create_aws_vpc-Emits =
        search
          (
            network_rules,
            new_vpc-Emits,
            existing_vpc-Emits env deletion creation.steps c,
            create_aws_subnet-Emits,
            delete_aws_vpc-Emits env deletion c,
          )
          depth 8

  pub create_aws_environment-Emits : SecretCalls P → Emits P (create_aws_environment env)
  unfolding create_aws_environment
  create_aws_environment-Emits secrets = Emits-bind _ _ Emits-machine λ m.
      Emits-if _ _ _ Emits-skip
        (Emits-bind _ _ (aws_ec2_client-Emits env secrets) create_aws_vpc-Emits)
