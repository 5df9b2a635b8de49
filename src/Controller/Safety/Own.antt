-- ===== src/Controller/Safety/Own.antt =====
-- What the clean-up of a machine may touch, and the helpers of pkg/controller/util.go and aws.go.
pub mod Network
pub mod Whole
use docker_machine_operator.Base.{
  String, ◌==◌, ◌<>◌, ◌≡◌, ◌≢◌, refl, ◌⊎◌, inl, inr, ℕ, Bool, Option, none, some, List, [], ◌∷◌,
}
use docker_machine_operator.Go.Error.{Error, Except, ok, err}
use docker_machine_operator.Go.Map.{GoMap, get}
use docker_machine_operator.Go.Text.{is_empty}
use docker_machine_operator.Api.Types.{Machine, ObjectReference}
use docker_machine_operator.Env.Event.{
  Event, Handle, RouteTable, SecurityGroup, ran, removed_file, wrote_file, patched, committed,
  created_vpc, created_subnet, created_gateway, created_route, attached_gateway, deleted_vpc,
  deleted_subnet, deleted_gateway, detached_gateway, described_security_groups, began_delete,
}
use docker_machine_operator.Env.{Env}
use docker_machine_operator.Effect.{State, Action, machine, pure, ◌>>=◌}
use docker_machine_operator.Effect.Footprint.{Extends}
use docker_machine_operator.Effect.Within.{
  Within, Within-bind, Within-machine_bind, Within-call, Within-call_error, Within-call_value,
  Within-if, Within-skip, Within-attempt, Within-fail, Within-pure, within_rules,
}
use docker_machine_operator.Controller.Files.{
  fail_if_exist, remove_file, delete_files, rm_args, script_path, get_script_file_path,
  deleted_result_path, run_docker_machine, ignore_not_found, delete_docker_machine,
}
use docker_machine_operator.Controller.Secret.{driver_name, get_secret}
use docker_machine_operator.Controller.Aws.{
  aws_vpc_id_annotation, aws_subnet_id_annotation, aws_internet_gateway_id_annotation, annotation,
  parameter, logged, unless_missing, ignore_missing, get_aws_credentials, aws_ec2_client,
}
use docker_machine_operator.Controller.Aws.Gateway.{
  found_table, find_route_table, delete_aws_route, detach_internet_gateway_to_vpc,
  delete_aws_internet_gateway, delete_aws_subnet,
}
use docker_machine_operator.Controller.Aws.Vpc.{
  delete_groups, delete_security_group, delete_aws_vpc, cleanup_aws_resources,
}
use docker_machine_operator.Controller.Azure.{
  get_resource_group_name, get_azure_credential, delete_azure_resource_group,
}
use docker_machine_operator.Controller.Cleanup.{cleanup_cloud, cleanup_machine_resources}

-- The resource group of a machine's parameters: the first entry for it, or `docker-machine` where
-- there is none.
pub data IsGroupOf : GoMap → String → Type 0 where
  by_default : IsGroupOf [] "docker-machine"
  here : (name : String) (m : GoMap) → IsGroupOf (("azure-resource-group", name) ∷ m) name
  there :
      (key value name : String) (m : GoMap)
      → key ≢ "azure-resource-group"
      → IsGroupOf m name
      → IsGroupOf ((key, value) ∷ m) name

-- A call that takes down no other host, file, VPC, subnet, gateway or resource group than the machine
-- names, and makes and writes nothing.
abbrev pub IsOwn : Machine → Event → Type 0
IsOwn m (ran deadline args c) = args ≡ "rm" ∷ m.name ∷ "-y" ∷ []
IsOwn m (removed_file path r) =
    (path ≡ "/" <> ("tmp" <> ("/" <> (m.namespace <> ("-" <> (m.name <> "-startup.sh"))))))
    ⊎ (path ≡ "tmpresult.txt")
IsOwn m (deleted_vpc c id r) = id ≡ get aws_vpc_id_annotation m.annotations
IsOwn m (deleted_subnet c id r) = id ≡ get aws_subnet_id_annotation m.annotations
IsOwn m (deleted_gateway c id r) = id ≡ get aws_internet_gateway_id_annotation m.annotations
IsOwn m (detached_gateway c id vpc r) =
    (id ≡ get aws_internet_gateway_id_annotation m.annotations)
    × (vpc ≡ get aws_vpc_id_annotation m.annotations)
IsOwn m (described_security_groups c key vpc r) = vpc ≡ get aws_vpc_id_annotation m.annotations
IsOwn m (began_delete c name r) = IsGroupOf m.spec.parameters name
IsOwn m (wrote_file path value r) = ⊥
IsOwn m (patched old edit r) = ⊥
IsOwn m (committed server new r) = ⊥
IsOwn m (created_vpc c cidr r) = ⊥
IsOwn m (created_subnet c cidr vpc zone r) = ⊥
IsOwn m (created_gateway c r) = ⊥
IsOwn m (created_route c to id table r) = ⊥
IsOwn m (attached_gateway c id vpc r) = ⊥
IsOwn m _ = Unit

module _ {m : Machine} {P : Event → Type 0} where
  pub annotation_bind-Within :
      {B : Type 0} (key : String) (f : String → Action B)
      → Within m P (f (get key m.annotations))
      → Within m P (annotation key >>= f)
  unfolding annotation machine pure ◌>>=◌
  annotation_bind-Within key f k = record {
    at = λ s h. rw h (k.at (record s { machine_obj = some m }) refl);
  }

  pub parameter-Within : (key : String) → Within m P (parameter key)
  unfolding parameter
  parameter-Within key = search within_rules

  pub driver_name-Within : Within m P driver_name
  unfolding driver_name
  driver_name-Within = search within_rules

  pub logged-Within : (act : Action Unit) → Within m P act → Within m P (logged act)
  unfolding logged
  logged-Within act k = search within_rules

  pub unless_missing-Within : (r : Except Unit) → Within m P (unless_missing r)
  unless_missing-Within (ok _) = search within_rules
  unless_missing-Within (err e) = search within_rules

  pub ignore_missing-Within : (act : Action Unit) → Within m P act → Within m P (ignore_missing act)
  unfolding ignore_missing
  ignore_missing-Within act k = search (within_rules, unless_missing-Within)

  pub found_table-Within : (vpc : String) (o : Option RouteTable) → Within m P (found_table vpc o)
  found_table-Within vpc none = search within_rules
  found_table-Within vpc (some rt) = search within_rules

  pub fail_if_exist-Within : (r : Except Unit) → Within m P (fail_if_exist r)
  fail_if_exist-Within (ok _) = search within_rules
  fail_if_exist-Within (err e) = search within_rules

pub ruleset own_rules = (
  within_rules, annotation_bind-Within, parameter-Within, driver_name-Within, logged-Within,
  ignore_missing-Within, found_table-Within, fail_if_exist-Within,
)

-- What is asked of a call that is not restricted.
pub nothing : Unit {0}
nothing = tt
