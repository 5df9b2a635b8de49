-- ===== src/Controller/Bounds/Creation.antt =====
-- How many resources the creation of a machine makes (pkg/controller/aws.go, machine.go).
use docker_machine_operator.Base.{
  String, ◌==◌, ℕ, ◌+◌, ◌≤◌, Bool-cases, inl, inr, Option, some, List, [], ◌∷◌, arith,
}
use docker_machine_operator.Env.Event.{Handle, ran}
use docker_machine_operator.Env.{Env}
use docker_machine_operator.Effect.{Action}
use docker_machine_operator.Effect.Footprint.{Emits, Emits-machine, Emits-skip, Emits-fail}
use docker_machine_operator.Effect.Costs.{
  IsFree, Costs, Costs-free, Costs-if, Costs-call, Costs-call_value, Costs-attempt, Costs-bind,
  Costs-after, Costs-before,
}
use docker_machine_operator.Controller.Aws.{or_undo}
use docker_machine_operator.Controller.Aws.Gateway.{create_aws_internet_gateway, create_aws_subnet}
use docker_machine_operator.Controller.Aws.Vpc.{new_vpc, create_aws_vpc, create_aws_environment}
use docker_machine_operator.Controller.Create.{
  machine_creation_timeout, create_prerequisites_for_machine, run_with_timeout, run_creation,
  create_machine_now, create_machine,
}
use docker_machine_operator.Controller.Footprint.Network.{
  aws_ec2_client-Emits, delete_aws_internet_gateway-Emits, delete_aws_subnet-Emits,
  delete_aws_vpc-Emits, after_failure-Emits, annotation-Emits, parameter-Emits, driver_name-Emits,
  network_rules,
}
use docker_machine_operator.Controller.Footprint.Network.Building.{
  patch_annotation-Emits, create_aws_route-Emits, attach-Emits, wait_for_state-Emits,
  is_available-Emits, existing_vpc-Emits,
}
use docker_machine_operator.Controller.Footprint.Status.{
  mark_true-Emits, set_initial_conditions-Emits,
}
use docker_machine_operator.Controller.Footprint.Creation.{
  get_machine_creation_args-Emits, creation_result-Emits,
}
use docker_machine_operator.Controller.Bounds.{
  Resource, hosts, vpcs, subnets, gateways, units, units-StatusCalls, units-SecretCalls,
  units-NetworkDeletion, units-NetworkSteps, units-LiveCalls,
}

module _ (r : Resource) where
  -- What is undone costs what it cost.
  or_undo-Costs :
      (n : ℕ) (act undo : Action Unit)
      → Costs (units r) n act
      → Emits (IsFree (units r)) undo
      → Costs (units r) n (or_undo act undo)
  unfolding or_undo
  or_undo-Costs n act undo k l =
      Costs-before (units r) n _ _ (Costs-attempt (units r) n act k)
        λ a. after_failure-Emits undo a l

  module _ (env : Env) where
    module _ (c : Handle) where
      create_aws_internet_gateway-Costs :
          (id : String) → Costs (units r) (gateways r) (create_aws_internet_gateway env c id)
      unfolding create_aws_internet_gateway
      create_aws_internet_gateway-Costs id =
          Costs-before (units r) _ _ _ (Costs-call (units r) _ _ _ (λ _. omega arith)) λ gateway_id.
            search
              (
                network_rules,
                attach-Emits env (units-NetworkDeletion r) (units-NetworkSteps r) c,
                create_aws_route-Emits env (units-NetworkDeletion r) (units-NetworkSteps r) c,
                delete_aws_internet_gateway-Emits env (units-NetworkDeletion r) c,
                patch_annotation-Emits env (units-NetworkDeletion r) (units-NetworkSteps r),
              )
              depth 9

      create_aws_subnet-Costs :
          (id : String) → Costs (units r) (subnets r + gateways r) (create_aws_subnet env c id)
      unfolding create_aws_subnet
      create_aws_subnet-Costs id = Costs-after (units r) _ _ _ (parameter-Emits _) λ region.
          Costs-if (units r) _ _ _ _ (Costs-free (units r) _ _ (Emits-fail _)) (
            Costs-bind (units r) (subnets r) (gateways r) _ _
              (Costs-call (units r) _ _ _ (λ _. omega arith))
              λ subnet_id.
                Costs-before (units r) _ _ _
                  (or_undo-Costs _ _ _ (create_aws_internet_gateway-Costs id)
                    (delete_aws_subnet-Emits env (units-NetworkDeletion r) c subnet_id))
                  λ _.
                    patch_annotation-Emits env (units-NetworkDeletion r) (units-NetworkSteps r) _ _)

      new_vpc-Costs : Costs (units r) (vpcs r) (new_vpc env c)
      unfolding new_vpc
      new_vpc-Costs =
          Costs-before (units r) _ _ _ (Costs-call (units r) _ _ _ (λ _. omega arith)) λ vpc.
            search
              (
                network_rules,
                patch_annotation-Emits env (units-NetworkDeletion r) (units-NetworkSteps r),
                wait_for_state-Emits env (units-NetworkDeletion r) (units-NetworkSteps r),
                is_available-Emits env (units-NetworkDeletion r) (units-NetworkSteps r) c,
                delete_aws_vpc-Emits env (units-NetworkDeletion r) c,
              )
              depth 9

      create_aws_vpc-Costs :
          Costs (units r) (vpcs r + (subnets r + gateways r)) (create_aws_vpc env c)
      unfolding create_aws_vpc
      create_aws_vpc-Costs = Costs-after (units r) _ _ _ (annotation-Emits _) λ known.
          Costs-bind (units r) (vpcs r) (subnets r + gateways r) _ _
            (Costs-if (units r) _ _ _ _ new_vpc-Costs (
              Costs-free (units r) _ _
                (existing_vpc-Emits env (units-NetworkDeletion r) (units-NetworkSteps r) c known)))
            λ vpc_id. Costs-after (units r) _ _ _ (annotation-Emits _) λ subnet_id.
              Costs-if (units r) _ _ _ _
                (or_undo-Costs _ _ _ (create_aws_subnet-Costs vpc_id)
                  (delete_aws_vpc-Emits env (units-NetworkDeletion r) c vpc_id))
                (Costs-free (units r) _ _ Emits-skip)

    create_aws_environment-Costs :
        Costs (units r) (vpcs r + (subnets r + gateways r)) (create_aws_environment env)
    unfolding create_aws_environment
    create_aws_environment-Costs = Costs-after (units r) _ _ _ Emits-machine λ m.
        Costs-if (units r) _ _ _ _ (Costs-free (units r) _ _ Emits-skip) (
          Costs-after (units r) _ _ _ (aws_ec2_client-Emits env (units-SecretCalls r))
            create_aws_vpc-Costs)

    create_prerequisites-Costs :
        Costs (units r) (vpcs r + (subnets r + gateways r)) (create_prerequisites_for_machine env)
    unfolding create_prerequisites_for_machine
    create_prerequisites-Costs = Costs-after (units r) _ _ _ driver_name-Emits λ driver.
        Costs-if (units r) _ _ _ _ create_aws_environment-Costs
          (Costs-free (units r) _ _ Emits-skip)

    -- No command is more than one host.
    command-units :
        (deadline : Option ℕ) (args : List String) (c : _) → units r (ran deadline args c) ≤ hosts r
    command-units deadline [] c = omega arith
    command-units deadline (arg ∷ args) c = elim (Bool-cases (arg == "create")) [
      | inl e ↦ rw e (omega arith)
      | inr e ↦ rw e (omega arith)
    ]

    run_creation-Costs : (args : List String) → Costs (units r) (hosts r) (run_creation env args)
    unfolding run_creation run_with_timeout
    run_creation-Costs args = Costs-after (units r) _ _ _ (mark_true-Emits env _) λ _.
        Costs-before (units r) _ _ _
          (Costs-call_value (units r) _ _ (ran (some machine_creation_timeout) args)
            (command-units (some machine_creation_timeout) args))
          λ c. creation_result-Emits env (units-StatusCalls r) c.error c.stderr

    pub create_machine-Costs :
        Costs (units r) ((vpcs r + (subnets r + gateways r)) + hosts r) (create_machine env)
    unfolding create_machine create_machine_now
    create_machine-Costs = Costs-after (units r) _ _ _ Emits-machine λ m.
        Costs-if (units r) _ _ _ _ (Costs-free (units r) _ _ Emits-skip) (
          Costs-after (units r) _ _ _ (set_initial_conditions-Emits env (units-StatusCalls r)) λ _.
            Costs-bind (units r) _ (hosts r) _ _ create_prerequisites-Costs λ _.
              Costs-after (units r) _ _ _
                (get_machine_creation_args-Emits env (units-StatusCalls r) (units-SecretCalls r)
                  (units-LiveCalls r).script)
                run_creation-Costs)
