-- ===== src/Env/Event.antt =====
-- The calls that leave the program, each with its arguments and its answer. A history has the last
-- call first.
use docker_machine_operator.Base.{String, ℕ, Option, none, List}
use docker_machine_operator.Go.Error.{Error, Except}
use docker_machine_operator.Go.Map.{GoMap}
use docker_machine_operator.Api.Types.{ObjectKey, Machine}

-- The closures that the program hands to `CreateOrPatch`, by what they change.
pub data Edit : Type 0 where
  finalizer_added : String → Edit
  finalizer_removed : String → Edit
  annotation_set : String → String → Edit

-- How a command ended: the error of `cmd.Run()`, and what it wrote.
pub record Command : Type 0 where
  pub error : Option Error
  pub stdout : String
  pub stderr : String

-- A command that ended without an error, with what it wrote.
abbrev pub succeeded : String → String → Command
succeeded stdout stderr = record { error = none; stdout = stdout; stderr = stderr }

-- The answers of EC2, less the fields that the program does not read.
pub record Vpc : Type 0 where
  pub vpc_id : String
  pub state : String

pub record RouteTable : Type 0 where
  pub vpc_id : String
  pub route_table_id : String

pub record SecurityGroup : Type 0 where
  pub group_id : String

-- The clients of the cloud libraries are handles that the program only passes on.
abbrev pub Handle : Type 0
Handle = ℕ

pub data Event : Type 0 where
  got_machine : ObjectKey → Except Machine → Event
  got_secret : ObjectKey → Except GoMap → Event
  patched : Machine → Edit → Except Machine → Event
  committed : Machine → Machine → Except Machine → Event
  -- the deadline in seconds, if there is one, and the arguments
  ran : Option ℕ → List String → Command → Event
  stat_file : String → Option Error → Event
  wrote_file : String → String → Option Error → Event
  removed_file : String → Option Error → Event
  opened_file : String → Except String → Event
  slept : ℕ → Event
  new_session : String → String → String → Except Handle → Event
  created_vpc : Handle → String → Except Vpc → Event
  described_vpcs : Handle → List String → Except (List Vpc) → Event
  deleted_vpc : Handle → String → Option Error → Event
  -- the block of addresses, the VPC and the zone; the answer is the subnet's id
  created_subnet : Handle → String → String → String → Except String → Event
  deleted_subnet : Handle → String → Option Error → Event
  created_gateway : Handle → Except String → Event
  deleted_gateway : Handle → String → Option Error → Event
  -- the gateway, then the VPC
  attached_gateway : Handle → String → String → Option Error → Event
  detached_gateway : Handle → String → String → Option Error → Event
  described_route_tables : Handle → Except (List RouteTable) → Event
  -- the destination, the gateway and the route table
  created_route : Handle → String → String → String → Option Error → Event
  deleted_route : Handle → String → String → Option Error → Event
  -- the filter's name and value
  described_security_groups : Handle → String → String → Except (List SecurityGroup) → Event
  deleted_security_group : Handle → String → Option Error → Event
  -- tenant, client id and client secret
  new_credential : String → String → String → Except Handle → Event
  new_groups_client : String → Handle → Except Handle → Event
  began_delete : Handle → String → Except Handle → Event
  polled_until_done : Handle → Option Error → Event

abbrev pub History : Type 0
History = List Event
