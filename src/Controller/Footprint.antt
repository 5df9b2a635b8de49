-- ===== src/Controller/Footprint.antt =====
-- The calls of each part of the controller, as permissions that a predicate on events may grant. The
-- children go through the parts of pkg/controller.
pub mod Status
pub mod Network
pub mod Creation
pub mod Teardown
pub mod Whole
use docker_machine_operator.Base.{String, ℕ, ◌≡◌, Option, none, some, List, ◌∷◌}
use docker_machine_operator.Go.Error.{Error, Except}
use docker_machine_operator.Go.Map.{GoMap}
use docker_machine_operator.Api.Types.{ObjectKey, Machine}
use docker_machine_operator.Api.Helper.{get_phase, get_finalizer}
use docker_machine_operator.Env.Event.{
  Event, Command, Handle, Vpc, RouteTable, SecurityGroup, got_machine, got_secret, patched,
  finalizer_added, finalizer_removed, annotation_set, committed, ran, stat_file, wrote_file,
  removed_file, opened_file, slept, new_session, created_vpc, described_vpcs, deleted_vpc,
  created_subnet, deleted_subnet, created_gateway, deleted_gateway, attached_gateway,
  detached_gateway, described_route_tables, created_route, deleted_route, described_security_groups,
  deleted_security_group, new_credential, new_groups_client, began_delete, polled_until_done,
}
use docker_machine_operator.Controller.Files.{rm_args, deleted_result_path}
use docker_machine_operator.Controller.Script.{scp_args, result_file}

module _ (P : Event → Type 0) where
  -- Reading the machine, and writing a status whose phase is that of its conditions.
  pub record StatusCalls : Type 0 where
    pub get : (key : ObjectKey) (r : Except Machine) → P (got_machine key r)
    pub commit :
        (server new : Machine) (r : Except Machine)
        → new.status.phase ≡ get_phase new
        → P (committed server new r)

  -- Reading secrets, and opening a session with what they hold.
  pub record SecretCalls : Type 0 where
    pub secret : (key : ObjectKey) (r : Except GoMap) → P (got_secret key r)
    pub session :
        (region access secret : String) (r : Except Handle) → P (new_session region access secret r)

  -- Taking a network down, which creation does too when it fails.
  pub record NetworkDeletion : Type 0 where
    pub subnet : (c : Handle) (id : String) (r : Option Error) → P (deleted_subnet c id r)
    pub gateway : (c : Handle) (id : String) (r : Option Error) → P (deleted_gateway c id r)
    pub vpc : (c : Handle) (id : String) (r : Option Error) → P (deleted_vpc c id r)
    pub route : (c : Handle) (to table : String) (r : Option Error) → P (deleted_route c to table r)
    pub detach : (c : Handle) (id vpc : String) (r : Option Error) → P (detached_gateway c id vpc r)
    pub tables : (c : Handle) (r : Except (List RouteTable)) → P (described_route_tables c r)
    pub groups :
        (c : Handle) (key value : String) (r : Except (List SecurityGroup))
        → P (described_security_groups c key value r)
    pub group : (c : Handle) (id : String) (r : Option Error) → P (deleted_security_group c id r)

  -- Building one up, less the creation of its parts, and recording it in the annotations.
  pub record NetworkSteps : Type 0 where
    pub vpcs : (c : Handle) (ids : List String) (r : Except (List Vpc)) → P (described_vpcs c ids r)
    pub attach : (c : Handle) (id vpc : String) (r : Option Error) → P (attached_gateway c id vpc r)
    pub route :
        (c : Handle) (to id table : String) (r : Option Error) → P (created_route c to id table r)
    pub sleep : (d : ℕ) → P (slept d)
    pub annotate :
        (m : Machine) (key value : String) (r : Except Machine)
        → P (patched m (annotation_set key value) r)

  pub record NetworkCreation : Type 0 where
    pub steps : NetworkSteps
    pub vpc : (c : Handle) (cidr : String) (r : Except Vpc) → P (created_vpc c cidr r)
    pub subnet :
        (c : Handle) (cidr vpc zone : String) (r : Except String)
        → P (created_subnet c cidr vpc zone r)
    pub gateway : (c : Handle) (r : Except String) → P (created_gateway c r)

  -- The first step for a live machine.
  pub record FinalizerAddition : Type 0 where
    pub finalizer :
        (m : Machine) (r : Except Machine) → P (patched m (finalizer_added get_finalizer) r)

  -- The startup script, which is kept in a file.
  pub record ScriptCalls : Type 0 where
    pub stat : (path : String) (r : Option Error) → P (stat_file path r)
    pub write : (path value : String) (r : Option Error) → P (wrote_file path value r)

  -- The script's result.
  pub record ResultCalls : Type 0 where
    pub copy : (user name : String) (c : Command) → P (ran none (scp_args user name) c)
    pub opened : (r : Except String) → P (opened_file result_file r)
    pub removed : (r : Option Error) → P (removed_file result_file r)

  -- All of these.
  pub record LiveCalls : Type 0 where
    pub addition : FinalizerAddition
    pub script : ScriptCalls
    pub result : ResultCalls

  -- These, and the creating command.
  pub record CreationCalls : Type 0 where
    pub live : LiveCalls
    pub create : (d : ℕ) (args : List String) (c : Command) → P (ran (some d) ("create" ∷ args) c)

  -- The files of a deleted machine, its host, and its group on Azure.
  pub record FileRemoval : Type 0 where
    pub file : (path : String) (r : Option Error) → P (removed_file path r)

  pub record HostRemoval : Type 0 where
    pub rm : (name : String) (c : Command) → P (ran none (rm_args name) c)

  pub record GroupDeletion : Type 0 where
    pub credential :
        (tenant id secret : String) (r : Except Handle) → P (new_credential tenant id secret r)
    pub client : (id : String) (c : Handle) (r : Except Handle) → P (new_groups_client id c r)
    pub delete : (c : Handle) (name : String) (r : Except Handle) → P (began_delete c name r)
    pub poll : (c : Handle) (r : Option Error) → P (polled_until_done c r)

  pub record TeardownCalls : Type 0 where
    pub files : FileRemoval
    pub host : HostRemoval
    pub group : GroupDeletion

  -- The last step of a deletion.
  pub record FinalizerRemoval : Type 0 where
    pub finalizer :
        (m : Machine) (r : Except Machine) → P (patched m (finalizer_removed get_finalizer) r)
