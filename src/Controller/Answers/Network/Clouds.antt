-- ===== src/Controller/Answers/Network/Clouds.antt =====
-- The network on AWS and the resource group on Azure (pkg/controller/aws.go, azure.go).
use docker_machine_operator.Base.{String, ◌*◌, arith, List, [], ◌∷◌}
use docker_machine_operator.Env.Event.{Handle, SecurityGroup}
use docker_machine_operator.Env.{Env}
use docker_machine_operator.Effect.Answers.{
  Answers, Answers-bind, Answers-machine_bind, answers_rules,
}
use docker_machine_operator.Controller.Wait.{wait_for_state, second}
use docker_machine_operator.Controller.Aws.{get_aws_credentials, aws_ec2_client}
use docker_machine_operator.Controller.Aws.Gateway.{
  find_route_table, create_aws_route, delete_aws_route, attach_internet_gateway_to_vpc,
  detach_internet_gateway_to_vpc, delete_aws_internet_gateway, create_aws_internet_gateway,
  delete_aws_subnet, create_aws_subnet,
}
use docker_machine_operator.Controller.Aws.Vpc.{
  get_vpc, delete_groups, delete_security_group, delete_aws_vpc, is_available, new_vpc,
  existing_vpc, create_aws_vpc, create_aws_environment, cleanup_aws_resources,
}
use docker_machine_operator.Controller.Azure.{get_azure_credential, delete_azure_resource_group}
use docker_machine_operator.Controller.Answers.{
  IsValid, Validates, get_secret-Answers, patch_annotation-Answers,
}
use docker_machine_operator.Controller.Answers.Network.{wait_for_state-Answers, network_answers}

module _ (env : Env) where
  get_aws_credentials-Answers : Answers IsValid (get_aws_credentials env)
  unfolding get_aws_credentials
  get_aws_credentials-Answers =
      Answers-machine_bind _ λ m (d, a). search (network_answers, get_secret-Answers env)

  aws_ec2_client-Answers : Answers IsValid (aws_ec2_client env)
  unfolding aws_ec2_client
  aws_ec2_client-Answers = search (network_answers, get_aws_credentials-Answers)

  get_azure_credential-Answers : Answers IsValid (get_azure_credential env)
  unfolding get_azure_credential
  get_azure_credential-Answers =
      Answers-machine_bind _ λ m (d, a). search (network_answers, get_secret-Answers env)

  pub delete_azure_resource_group-Answers : Answers IsValid (delete_azure_resource_group env)
  unfolding delete_azure_resource_group
  delete_azure_resource_group-Answers =
      search (network_answers, get_azure_credential-Answers) depth 12

  module _ (c : Handle) where
    find_route_table-Answers : (vpc : String) → Answers IsValid (find_route_table env c vpc)
    unfolding find_route_table
    find_route_table-Answers vpc = search network_answers

    create_aws_route-Answers : (vpc id : String) → Answers IsValid (create_aws_route env c vpc id)
    unfolding create_aws_route
    create_aws_route-Answers vpc id = search (network_answers, find_route_table-Answers)

    delete_aws_route-Answers : (vpc : String) → Answers IsValid (delete_aws_route env c vpc)
    unfolding delete_aws_route
    delete_aws_route-Answers vpc = search (network_answers, find_route_table-Answers)

    pub delete_aws_internet_gateway-Answers :
        (id vpc : String) → Answers IsValid (delete_aws_internet_gateway env c id vpc)
    unfolding delete_aws_internet_gateway detach_internet_gateway_to_vpc
    delete_aws_internet_gateway-Answers id vpc =
        search (network_answers, delete_aws_route-Answers) depth 9

    delete_aws_subnet-Answers : (id : String) → Answers IsValid (delete_aws_subnet env c id)
    unfolding delete_aws_subnet
    delete_aws_subnet-Answers id =
        search (network_answers, delete_aws_internet_gateway-Answers) depth 9

    delete_groups-Answers :
        (groups : List SecurityGroup) → Answers IsValid (delete_groups env c groups)
    unfolding delete_groups
    delete_groups-Answers [] = search answers_rules
    delete_groups-Answers (g ∷ groups) =
        Answers-bind _ _ (search network_answers) λ _. delete_groups-Answers groups

    delete_security_group-Answers :
        (vpc : String) → Answers IsValid (delete_security_group env c vpc)
    unfolding delete_security_group
    delete_security_group-Answers vpc = search (network_answers, delete_groups-Answers)

    delete_aws_vpc-Answers : (vpc : String) → Answers IsValid (delete_aws_vpc env c vpc)
    unfolding delete_aws_vpc
    delete_aws_vpc-Answers vpc =
        search (network_answers, delete_aws_subnet-Answers, delete_security_group-Answers) depth 9

    get_vpc-Answers : (vpc : String) → Answers IsValid (get_vpc env c vpc)
    unfolding get_vpc
    get_vpc-Answers vpc = search network_answers

    is_available-Answers : (vpc : String) → Answers IsValid (is_available env c vpc)
    unfolding is_available
    is_available-Answers vpc = search (network_answers, get_vpc-Answers)

    existing_vpc-Answers : (known : String) → Answers IsValid (existing_vpc env c known)
    unfolding existing_vpc
    existing_vpc-Answers known = search (network_answers, get_vpc-Answers)

  pub cleanup_aws_resources-Answers : Answers IsValid (cleanup_aws_resources env)
  unfolding cleanup_aws_resources
  cleanup_aws_resources-Answers =
      search (network_answers, aws_ec2_client-Answers, delete_aws_vpc-Answers)

  module _ (laws : Validates env) (c : Handle) where
    pub create_aws_internet_gateway-Answers :
        (vpc : String) → Answers IsValid (create_aws_internet_gateway env c vpc)
    unfolding create_aws_internet_gateway attach_internet_gateway_to_vpc
    create_aws_internet_gateway-Answers vpc =
        search
          (
            network_answers,
            create_aws_route-Answers c,
            delete_aws_internet_gateway-Answers c,
            patch_annotation-Answers env laws,
          )
          depth 9

    create_aws_subnet-Answers : (vpc : String) → Answers IsValid (create_aws_subnet env c vpc)
    unfolding create_aws_subnet
    create_aws_subnet-Answers vpc =
        search
          (
            network_answers,
            create_aws_internet_gateway-Answers,
            delete_aws_subnet-Answers c,
            patch_annotation-Answers env laws,
          )
          depth 9

    wait_available-Answers :
        (vpc : String)
        → Answers IsValid (wait_for_state (5 * second) (60 * second) (is_available env c vpc))
    wait_available-Answers vpc =
        wait_for_state-Answers _ _ _ (omega arith) (is_available-Answers c vpc)

    new_vpc-Answers : Answers IsValid (new_vpc env c)
    unfolding new_vpc
    new_vpc-Answers =
        search
          (
            network_answers,
            wait_available-Answers,
            delete_aws_vpc-Answers c,
            patch_annotation-Answers env laws,
          )
          depth 9

    create_aws_vpc-Answers : Answers IsValid (create_aws_vpc env c)
    unfolding create_aws_vpc
    create_aws_vpc-Answers =
        search
          (
            network_answers,
            new_vpc-Answers,
            existing_vpc-Answers c,
            create_aws_subnet-Answers,
            delete_aws_vpc-Answers c,
          )
          depth 9

  pub create_aws_environment-Answers : Validates env → Answers IsValid (create_aws_environment env)
  unfolding create_aws_environment
  create_aws_environment-Answers laws =
      search (network_answers, aws_ec2_client-Answers, create_aws_vpc-Answers laws)
