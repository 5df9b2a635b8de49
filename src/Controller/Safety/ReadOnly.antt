-- ===== src/Controller/Safety/ReadOnly.antt =====
-- The clean-up of AWS and Azure (aws.go, azure.go), and `r.machineObj`.
use docker_machine_operator.Base.{String, Option, none, some, List, [], ◌∷◌}
use docker_machine_operator.Go.Error.{Except, ok, err}
use docker_machine_operator.Api.Types.{ObjectReference}
use docker_machine_operator.Env.Event.{Handle, RouteTable, SecurityGroup}
use docker_machine_operator.Env.{Env}
use docker_machine_operator.Effect.{Action}
use docker_machine_operator.Effect.ReadOnly.{
  IsReadOnly, bind-IsReadOnly, if-IsReadOnly, skip-IsReadOnly, read_only_rules,
}
use docker_machine_operator.Controller.Secret.{driver_name, get_secret}
use docker_machine_operator.Controller.Aws.{
  annotation, parameter, logged, unless_missing, ignore_missing, aws_ec2_client,
}
use docker_machine_operator.Controller.Aws.Gateway.{
  found_table, find_route_table, delete_aws_internet_gateway, delete_aws_subnet,
}
use docker_machine_operator.Controller.Aws.Vpc.{
  delete_groups, delete_security_group, delete_aws_vpc, cleanup_aws_resources,
}
use docker_machine_operator.Controller.Azure.{delete_azure_resource_group}
use docker_machine_operator.Controller.Cleanup.{cleanup_cloud}

pub driver_name-IsReadOnly : IsReadOnly driver_name
unfolding driver_name
driver_name-IsReadOnly = search read_only_rules

annotation-IsReadOnly : (key : String) → IsReadOnly (annotation key)
unfolding annotation
annotation-IsReadOnly key = search read_only_rules

parameter-IsReadOnly : (key : String) → IsReadOnly (parameter key)
unfolding parameter
parameter-IsReadOnly key = search read_only_rules

logged-IsReadOnly : (m : Action Unit) → IsReadOnly m → IsReadOnly (logged m)
unfolding logged
logged-IsReadOnly m k = search read_only_rules

unless_missing-IsReadOnly : (r : Except Unit) → IsReadOnly (unless_missing r)
unless_missing-IsReadOnly (ok _) = search read_only_rules
unless_missing-IsReadOnly (err e) = search read_only_rules

ignore_missing-IsReadOnly : (m : Action Unit) → IsReadOnly m → IsReadOnly (ignore_missing m)
unfolding ignore_missing
ignore_missing-IsReadOnly m k = search (read_only_rules, unless_missing-IsReadOnly)

found_table-IsReadOnly : (vpc : String) (o : Option RouteTable) → IsReadOnly (found_table vpc o)
found_table-IsReadOnly vpc none = search read_only_rules
found_table-IsReadOnly vpc (some rt) = search read_only_rules

ruleset cleanup_rules = (
  read_only_rules, annotation-IsReadOnly, parameter-IsReadOnly, logged-IsReadOnly,
  ignore_missing-IsReadOnly, found_table-IsReadOnly,
)

module _ (env : Env) where
  get_secret-IsReadOnly : (ref : Option ObjectReference) → IsReadOnly (get_secret env ref)
  unfolding get_secret
  get_secret-IsReadOnly ref = search cleanup_rules

  aws_ec2_client-IsReadOnly : IsReadOnly (aws_ec2_client env)
  unfolding aws_ec2_client
  aws_ec2_client-IsReadOnly = search (cleanup_rules, get_secret-IsReadOnly) depth 9

  delete_azure_resource_group-IsReadOnly : IsReadOnly (delete_azure_resource_group env)
  unfolding delete_azure_resource_group
  delete_azure_resource_group-IsReadOnly = search (cleanup_rules, get_secret-IsReadOnly) depth 12

  module _ (c : Handle) where
    find_route_table-IsReadOnly : (vpc : String) → IsReadOnly (find_route_table env c vpc)
    unfolding find_route_table
    find_route_table-IsReadOnly vpc = search cleanup_rules

    delete_aws_internet_gateway-IsReadOnly :
        (id vpc : String) → IsReadOnly (delete_aws_internet_gateway env c id vpc)
    unfolding delete_aws_internet_gateway
    delete_aws_internet_gateway-IsReadOnly id vpc =
        search (cleanup_rules, find_route_table-IsReadOnly) depth 9

    delete_aws_subnet-IsReadOnly : (id : String) → IsReadOnly (delete_aws_subnet env c id)
    unfolding delete_aws_subnet
    delete_aws_subnet-IsReadOnly id =
        search (cleanup_rules, delete_aws_internet_gateway-IsReadOnly) depth 9

    delete_groups-IsReadOnly :
        (groups : List SecurityGroup) → IsReadOnly (delete_groups env c groups)
    unfolding delete_groups
    delete_groups-IsReadOnly [] = search cleanup_rules
    delete_groups-IsReadOnly (g ∷ groups) =
        bind-IsReadOnly _ _ (search cleanup_rules) (λ _. delete_groups-IsReadOnly groups)

    delete_security_group-IsReadOnly : (vpc : String) → IsReadOnly (delete_security_group env c vpc)
    unfolding delete_security_group
    delete_security_group-IsReadOnly vpc = search (cleanup_rules, delete_groups-IsReadOnly)

    delete_aws_vpc-IsReadOnly : (vpc : String) → IsReadOnly (delete_aws_vpc env c vpc)
    unfolding delete_aws_vpc
    delete_aws_vpc-IsReadOnly vpc =
        search (cleanup_rules, delete_aws_subnet-IsReadOnly, delete_security_group-IsReadOnly) depth
          9

  cleanup_aws_resources-IsReadOnly : IsReadOnly (cleanup_aws_resources env)
  unfolding cleanup_aws_resources
  cleanup_aws_resources-IsReadOnly =
      bind-IsReadOnly _ _ aws_ec2_client-IsReadOnly
        λ c. search (cleanup_rules, delete_aws_vpc-IsReadOnly)

  pub cleanup_cloud-IsReadOnly : (driver : String) → IsReadOnly (cleanup_cloud env driver)
  unfolding cleanup_cloud
  cleanup_cloud-IsReadOnly driver =
      if-IsReadOnly _ _ _ cleanup_aws_resources-IsReadOnly
        (if-IsReadOnly _ _ _ delete_azure_resource_group-IsReadOnly skip-IsReadOnly)
