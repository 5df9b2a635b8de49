-- ===== src/Controller/Aws/Vpc.antt =====
-- pkg/controller/aws.go: the VPC, and the whole network of a machine.
pub mod Available
pub mod Stuck
use docker_machine_operator.Base.{
  String, ◌==◌, ◌<>◌, ℕ, ◌*◌, Bool, ◌&&◌, not, Option, none, some, List, [], ◌∷◌, if◌then◌else◌,
}
use docker_machine_operator.Go.Error.{Error, other, Except, ok, err}
use docker_machine_operator.Go.Map.{get}
use docker_machine_operator.Go.Text.{is_empty}
use docker_machine_operator.Api.Types.{Machine}
use docker_machine_operator.Env.Event.{
  Handle, Vpc, SecurityGroup, created_vpc, described_vpcs, deleted_vpc, described_security_groups,
  deleted_security_group,
}
use docker_machine_operator.Env.{Env}
use docker_machine_operator.Effect.{
  Action, pure, skip, fail, lift, call, call_error, machine, ◌>>=◌, ◌>>◌,
}
use docker_machine_operator.Controller.Finalizer.{patch_annotation}
use docker_machine_operator.Controller.Wait.{wait_for_state, second}
use docker_machine_operator.Controller.Aws.{
  aws_vpc_id_annotation, aws_subnet_id_annotation, aws_internet_gateway_id_annotation, aws_vpc_cidr,
  annotation, logged, ignore_missing, or_undo, aws_ec2_client,
}
use docker_machine_operator.Controller.Aws.Gateway.{delete_aws_subnet, create_aws_subnet}

-- The loop of `getVPC`: the first VPC with the id.
abbrev pub find_vpc : String → List Vpc → Except Vpc
find_vpc vpc_id [] = err (other ("no vpc found with id " <> vpc_id))
find_vpc vpc_id (v ∷ vpcs) = if v.vpc_id == vpc_id then ok v else find_vpc vpc_id vpcs

-- The three annotations that make `createAWSEnvironment` return at once.
abbrev pub has_network : Machine → Bool
has_network m =
    not (is_empty (get aws_vpc_id_annotation m.annotations))
    && (not (is_empty (get aws_subnet_id_annotation m.annotations))
        && not (is_empty (get aws_internet_gateway_id_annotation m.annotations)))

module _ (env : Env) (c : Handle) where
  unfoldable pub get_vpc : String → Action Vpc
  get_vpc vpc_id = do
    vpcs ← call (λ h. env.describe_vpcs h c (vpc_id ∷ [])) (described_vpcs c (vpc_id ∷ []))
    lift (find_vpc vpc_id vpcs)

  -- The loop of `deleteSecurityGroup`; a group that stays is logged.
  unfoldable pub delete_groups : List SecurityGroup → Action Unit
  delete_groups [] = skip
  delete_groups (sg ∷ groups) = do
    logged (
        call_error (λ h. env.delete_security_group h c sg.group_id)
          (deleted_security_group c sg.group_id))
    delete_groups groups

  unfoldable pub delete_security_group : String → Action Unit
  unfolding delete_groups
  delete_security_group vpc_id = do
    groups ←
        call (λ h. env.describe_security_groups h c "vpc-id" vpc_id)
          (described_security_groups c "vpc-id" vpc_id)
    delete_groups groups

  unfoldable pub delete_aws_vpc : String → Action Unit
  delete_aws_vpc vpc_id = do
    known ← annotation aws_vpc_id_annotation
    if is_empty known then skip else do
      subnet_id ← annotation aws_subnet_id_annotation
      (if is_empty subnet_id then skip else logged (delete_aws_subnet env c subnet_id))
      delete_security_group vpc_id
      ignore_missing (call_error (λ h. env.delete_vpc h c vpc_id) (deleted_vpc c vpc_id))

  -- The function that `createAwsVpc` hands to `waitForState`.
  unfoldable pub is_available : String → Action Bool
  is_available vpc_id = do vpc ← get_vpc vpc_id; pure (vpc.state == "available")

  -- The branch of `createAwsVpc` that makes a VPC.
  unfoldable pub new_vpc : Action String
  new_vpc = do
    vpc ← call (λ h. env.create_vpc h c aws_vpc_cidr) (created_vpc c aws_vpc_cidr)
    patch_annotation env aws_vpc_id_annotation vpc.vpc_id
    or_undo (wait_for_state (5 * second) (60 * second) (is_available vpc.vpc_id))
        (delete_aws_vpc vpc.vpc_id)
    pure vpc.vpc_id

  -- The branch that uses the one that is annotated.
  unfoldable pub existing_vpc : String → Action String
  existing_vpc known = do vpc ← get_vpc known; pure vpc.vpc_id

  unfoldable pub create_aws_vpc : Action Unit
  create_aws_vpc = do
    known ← annotation aws_vpc_id_annotation
    vpc_id ← if is_empty known then new_vpc else existing_vpc known
    subnet_id ← annotation aws_subnet_id_annotation
    if is_empty subnet_id
        then or_undo (create_aws_subnet env c vpc_id) (delete_aws_vpc vpc_id)
        else skip

module _ (env : Env) where
  unfoldable pub create_aws_environment : Action Unit
  create_aws_environment = do
    m ← machine
    if has_network m then skip else do c ← aws_ec2_client env; create_aws_vpc env c

  unfoldable pub cleanup_aws_resources : Action Unit
  cleanup_aws_resources = do
    c ← aws_ec2_client env
    vpc_id ← annotation aws_vpc_id_annotation
    delete_aws_vpc env c vpc_id
