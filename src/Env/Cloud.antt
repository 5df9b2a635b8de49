-- ===== src/Env/Cloud.antt =====
-- The calls of the AWS and Azure libraries. Where a call succeeds, the fields of its answer that the
-- program dereferences are set.
use docker_machine_operator.Base.{String, Option, List}
use docker_machine_operator.Go.Error.{Error, Except}
use docker_machine_operator.Env.Event.{History, Handle, Vpc, RouteTable, SecurityGroup}

pub record Ec2 : Type 0 where
  -- `session.NewSession` and `ec2.New`: region, access key, secret key
  pub new_session : History → String → String → String → Except Handle
  pub create_vpc : History → Handle → String → Except Vpc
  pub describe_vpcs : History → Handle → List String → Except (List Vpc)
  pub delete_vpc : History → Handle → String → Option Error
  pub create_subnet : History → Handle → String → String → String → Except String
  pub delete_subnet : History → Handle → String → Option Error
  pub create_internet_gateway : History → Handle → Except String
  pub delete_internet_gateway : History → Handle → String → Option Error
  pub attach_internet_gateway : History → Handle → String → String → Option Error
  pub detach_internet_gateway : History → Handle → String → String → Option Error
  pub describe_route_tables : History → Handle → Except (List RouteTable)
  pub create_route : History → Handle → String → String → String → Option Error
  pub delete_route : History → Handle → String → String → Option Error
  pub describe_security_groups : History → Handle → String → String → Except (List SecurityGroup)
  pub delete_security_group : History → Handle → String → Option Error

pub record Azure : Type 0 where
  -- `azidentity.NewClientSecretCredential`: tenant, client id, client secret
  pub new_credential : History → String → String → String → Except Handle
  -- `armresources.NewResourceGroupsClient`: subscription and credential
  pub new_groups_client : History → String → Handle → Except Handle
  -- `BeginDelete` and `PollUntilDone`
  pub begin_delete : History → Handle → String → Except Handle
  pub poll_until_done : History → Handle → Option Error
