-- ===== src/Controller/Aws/Gateway.antt =====
-- pkg/controller/aws.go: internet gateways, routes and subnets.
pub mod Rollback
pub mod Subnet
use docker_machine_operator.Base.{
  String, ◌==◌, ◌<>◌, Option, none, some, List, [], ◌∷◌, if◌then◌else◌,
}
use docker_machine_operator.Go.Error.{Error, other}
use docker_machine_operator.Go.Text.{is_empty}
use docker_machine_operator.Env.Event.{
  Handle, RouteTable, created_gateway, deleted_gateway, attached_gateway, detached_gateway,
  described_route_tables, created_route, deleted_route, created_subnet, deleted_subnet,
}
use docker_machine_operator.Env.{Env}
use docker_machine_operator.Effect.{Action, pure, skip, fail, call, call_error, ◌>>=◌, ◌>>◌}
use docker_machine_operator.Controller.Finalizer.{patch_annotation}
use docker_machine_operator.Controller.Aws.{
  aws_vpc_id_annotation, aws_subnet_id_annotation, aws_internet_gateway_id_annotation, aws_vpc_cidr,
  allow_all_ips, default_zone, region_parameter, annotation, parameter, logged, ignore_missing,
  or_undo,
}

-- The loop over the route tables, which keeps the last of the VPC.
abbrev pub route_table_of : String → Option RouteTable → List RouteTable → Option RouteTable
route_table_of vpc_id found [] = found
route_table_of vpc_id found (rt ∷ tables) =
    route_table_of vpc_id (if rt.vpc_id == vpc_id then some rt else found) tables

abbrev pub no_route_table : String → Error
no_route_table vpc_id = other ("no route table found in vpc " <> vpc_id)

abbrev pub found_table : String → Option RouteTable → Action RouteTable
found_table vpc_id none = fail (no_route_table vpc_id)
found_table vpc_id (some rt) = pure rt

module _ (env : Env) (c : Handle) where
  unfoldable pub find_route_table : String → Action RouteTable
  find_route_table vpc_id = do
    tables ← call (λ h. env.describe_route_tables h c) (described_route_tables c)
    found_table vpc_id (route_table_of vpc_id none tables)

  unfoldable pub create_aws_route : String → String → Action Unit
  unfolding find_route_table
  create_aws_route vpc_id gateway_id = do
    rt ← find_route_table vpc_id
    call_error (λ h. env.create_route h c allow_all_ips gateway_id rt.route_table_id)
        (created_route c allow_all_ips gateway_id rt.route_table_id)

  unfoldable pub delete_aws_route : String → Action Unit
  unfolding find_route_table
  delete_aws_route vpc_id = do
    rt ← find_route_table vpc_id
    call_error (λ h. env.delete_route h c allow_all_ips rt.route_table_id)
        (deleted_route c allow_all_ips rt.route_table_id)

  unfoldable pub attach_internet_gateway_to_vpc : String → String → Action Unit
  attach_internet_gateway_to_vpc gateway_id vpc_id =
      call_error (λ h. env.attach_internet_gateway h c gateway_id vpc_id)
        (attached_gateway c gateway_id vpc_id)

  unfoldable pub detach_internet_gateway_to_vpc : String → String → Action Unit
  detach_internet_gateway_to_vpc gateway_id vpc_id =
      call_error (λ h. env.detach_internet_gateway h c gateway_id vpc_id)
        (detached_gateway c gateway_id vpc_id)

  unfoldable pub delete_aws_internet_gateway : String → String → Action Unit
  unfolding delete_aws_route detach_internet_gateway_to_vpc
  delete_aws_internet_gateway gateway_id vpc_id = do
    logged (delete_aws_route vpc_id)
    logged (detach_internet_gateway_to_vpc gateway_id vpc_id)
    ignore_missing (
        call_error (λ h. env.delete_internet_gateway h c gateway_id) (deleted_gateway c gateway_id))

  unfoldable pub create_aws_internet_gateway : String → Action Unit
  create_aws_internet_gateway vpc_id = do
    gateway_id ← call (λ h. env.create_internet_gateway h c) (created_gateway c)
    or_undo (attach_internet_gateway_to_vpc gateway_id vpc_id)
        (delete_aws_internet_gateway gateway_id vpc_id)
    or_undo (create_aws_route vpc_id gateway_id) (delete_aws_internet_gateway gateway_id vpc_id)
    patch_annotation env aws_internet_gateway_id_annotation gateway_id

  unfoldable pub delete_aws_subnet : String → Action Unit
  delete_aws_subnet subnet_id = do
    gateway_id ← annotation aws_internet_gateway_id_annotation
    vpc_id ← annotation aws_vpc_id_annotation
    (if is_empty gateway_id then skip else logged (delete_aws_internet_gateway gateway_id vpc_id))
    ignore_missing (call_error (λ h. env.delete_subnet h c subnet_id) (deleted_subnet c subnet_id))

  unfoldable pub create_aws_subnet : String → Action Unit
  create_aws_subnet vpc_id = do
    region ← parameter region_parameter
    if is_empty region then fail (other "region not specified") else do
      subnet_id ←
          call (λ h. env.create_subnet h c aws_vpc_cidr vpc_id (region <> default_zone))
            (created_subnet c aws_vpc_cidr vpc_id (region <> default_zone))
      or_undo (create_aws_internet_gateway vpc_id) (delete_aws_subnet subnet_id)
      patch_annotation env aws_subnet_id_annotation subnet_id
