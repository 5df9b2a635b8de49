-- ===== src/Controller/Footprint/Network.antt =====
-- The calls on networks: what they share, and those that take one down.
pub mod Building
use docker_machine_operator.Base.{
  String, ℕ, zero, suc, ◌+◌, Bool, Option, none, some, List, [], ◌∷◌,
}
use docker_machine_operator.Go.Error.{Except, ok, err}
use docker_machine_operator.Api.Types.{ObjectReference}
use docker_machine_operator.Env.Event.{Event, Handle, RouteTable, SecurityGroup}
use docker_machine_operator.Env.{Env}
use docker_machine_operator.Effect.{Action}
use docker_machine_operator.Effect.Footprint.{
  Emits, Emits-bind, Emits-if, Emits-machine, Emits-skip, Emits-fail, Emits-call_value, emits_rules,
}
use docker_machine_operator.Controller.Finalizer.{patch_annotation}
use docker_machine_operator.Controller.Wait.{wait_loop, wait_for_state}
use docker_machine_operator.Controller.Secret.{driver_name, get_secret}
use docker_machine_operator.Controller.Aws.{
  annotation, parameter, get_annotations_args_for_aws, logged, unless_missing, ignore_missing,
  after_failure, or_undo, get_aws_credentials, aws_ec2_client,
}
use docker_machine_operator.Controller.Aws.Gateway.{
  found_table, find_route_table, create_aws_route, delete_aws_route, attach_internet_gateway_to_vpc,
  detach_internet_gateway_to_vpc, delete_aws_internet_gateway, create_aws_internet_gateway,
  delete_aws_subnet, create_aws_subnet,
}
use docker_machine_operator.Controller.Aws.Vpc.{
  get_vpc, delete_groups, delete_security_group, delete_aws_vpc, is_available, new_vpc,
  existing_vpc, create_aws_vpc, create_aws_environment, cleanup_aws_resources,
}
use docker_machine_operator.Controller.Footprint.{SecretCalls, NetworkDeletion, NetworkCreation}

module _ {P : Event → Type 0} where
  pub driver_name-Emits : Emits P driver_name
  unfolding driver_name
  driver_name-Emits = search emits_rules

  pub annotation-Emits : (key : String) → Emits P (annotation key)
  unfolding annotation
  annotation-Emits key = search emits_rules

  pub parameter-Emits : (key : String) → Emits P (parameter key)
  unfolding parameter
  parameter-Emits key = search emits_rules

  pub get_annotations_args_for_aws-Emits : Emits P get_annotations_args_for_aws
  unfolding get_annotations_args_for_aws
  get_annotations_args_for_aws-Emits = search (emits_rules, driver_name-Emits)

  pub logged-Emits : (m : Action Unit) → Emits P m → Emits P (logged m)
  unfolding logged
  logged-Emits m k = search emits_rules

  unless_missing-Emits : (r : Except Unit) → Emits P (unless_missing r)
  unless_missing-Emits (ok _) = search emits_rules
  unless_missing-Emits (err e) = search emits_rules

  pub ignore_missing-Emits : (m : Action Unit) → Emits P m → Emits P (ignore_missing m)
  unfolding ignore_missing
  ignore_missing-Emits m k = search (emits_rules, unless_missing-Emits)

  pub after_failure-Emits :
      (undo : Action Unit) (r : Except Unit) → Emits P undo → Emits P (after_failure undo r)
  after_failure-Emits undo (ok _) k = search emits_rules
  after_failure-Emits undo (err e) k = search emits_rules

  pub or_undo-Emits : (m undo : Action Unit) → Emits P m → Emits P undo → Emits P (or_undo m undo)
  unfolding or_undo
  or_undo-Emits m undo k l = search (emits_rules, after_failure-Emits)

  pub found_table-Emits : (vpc : String) (o : Option RouteTable) → Emits P (found_table vpc o)
  found_table-Emits vpc none = search emits_rules
  found_table-Emits vpc (some rt) = search emits_rules

pub ruleset network_rules = (
  emits_rules, driver_name-Emits, annotation-Emits, parameter-Emits, logged-Emits,
  ignore_missing-Emits, or_undo-Emits, found_table-Emits,
)

module _ (env : Env) {P : Event → Type 0} (secrets : SecretCalls P) where
  pub get_secret-Emits : (ref : Option ObjectReference) → Emits P (get_secret env ref)
  unfolding get_secret
  get_secret-Emits ref = search (emits_rules, secrets.secret)

  get_aws_credentials-Emits : Emits P (get_aws_credentials env)
  unfolding get_aws_credentials
  get_aws_credentials-Emits = search (network_rules, get_secret-Emits)

  pub aws_ec2_client-Emits : Emits P (aws_ec2_client env)
  unfolding aws_ec2_client
  aws_ec2_client-Emits = search (network_rules, get_aws_credentials-Emits, secrets.session)

module _ (env : Env) {P : Event → Type 0} (deletion : NetworkDeletion P) (c : Handle) where
  pub find_route_table-Emits : (vpc : String) → Emits P (find_route_table env c vpc)
  unfolding find_route_table
  find_route_table-Emits vpc = search (network_rules, deletion.tables)

  delete_aws_route-Emits : (vpc : String) → Emits P (delete_aws_route env c vpc)
  unfolding delete_aws_route
  delete_aws_route-Emits vpc = search (network_rules, find_route_table-Emits, deletion.route)

  detach-Emits : (id vpc : String) → Emits P (detach_internet_gateway_to_vpc env c id vpc)
  unfolding detach_internet_gateway_to_vpc
  detach-Emits id vpc = search (network_rules, deletion.detach)

  pub delete_aws_internet_gateway-Emits :
      (id vpc : String) → Emits P (delete_aws_internet_gateway env c id vpc)
  unfolding delete_aws_internet_gateway
  delete_aws_internet_gateway-Emits id vpc =
      search (network_rules, delete_aws_route-Emits, detach-Emits, deletion.gateway)

  pub delete_aws_subnet-Emits : (id : String) → Emits P (delete_aws_subnet env c id)
  unfolding delete_aws_subnet
  delete_aws_subnet-Emits id =
      search (network_rules, delete_aws_internet_gateway-Emits, deletion.subnet) depth 8

  delete_groups-Emits : (groups : List SecurityGroup) → Emits P (delete_groups env c groups)
  unfolding delete_groups
  delete_groups-Emits [] = search network_rules
  delete_groups-Emits (g ∷ groups) =
      Emits-bind _ _ (search (network_rules, deletion.group)) (λ _. delete_groups-Emits groups)

  delete_security_group-Emits : (vpc : String) → Emits P (delete_security_group env c vpc)
  unfolding delete_security_group
  delete_security_group-Emits vpc = search (network_rules, deletion.groups, delete_groups-Emits)

  pub delete_aws_vpc-Emits : (vpc : String) → Emits P (delete_aws_vpc env c vpc)
  unfolding delete_aws_vpc
  delete_aws_vpc-Emits vpc =
      search (network_rules, delete_aws_subnet-Emits, delete_security_group-Emits, deletion.vpc)
        depth 8

module _ (env : Env) {P : Event → Type 0} (secrets : SecretCalls P)
    (deletion : NetworkDeletion P) where
  pub cleanup_aws_resources-Emits : Emits P (cleanup_aws_resources env)
  unfolding cleanup_aws_resources
  cleanup_aws_resources-Emits =
      Emits-bind _ _ (aws_ec2_client-Emits env secrets)
        λ c. search (network_rules, delete_aws_vpc-Emits env deletion)
