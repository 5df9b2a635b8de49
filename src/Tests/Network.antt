-- ===== src/Tests/Network.antt =====
-- The theorems on a machine's network and its clean-up, at concrete inputs.
use docker_machine_operator.Base.{
  String, ◌==◌, ap, ℕ, ◌≤◌, Bool, true, false, arith, ◌≡◌, refl, some, [], ◌∷◌, Any,
}
use docker_machine_operator.Go.Error.{ok, other}
use docker_machine_operator.Api.Types.{Machine}
use docker_machine_operator.Env.{Env}
use docker_machine_operator.Effect.{State, done, ◌>>◌}
use docker_machine_operator.Effect.Footprint.{Extends}
use docker_machine_operator.Controller.Aws.{
  aws_access_key_field, aws_secret_key_field, region_parameter, aws_vpc_id_annotation,
  aws_subnet_id_annotation, aws_internet_gateway_id_annotation,
}
use docker_machine_operator.Controller.Aws.Gateway.{create_aws_subnet}
use docker_machine_operator.Controller.Aws.Gateway.Subnet.{
  IsAccounted, create_aws_subnet-IsAccounted,
}
use docker_machine_operator.Controller.Aws.Vpc.{create_aws_environment, cleanup_aws_resources}
use docker_machine_operator.Controller.Aws.RoundTrip.{Network, Works, Becomes, with_machine}
use docker_machine_operator.Controller.Aws.RoundTrip.Building.{networked, building}
use docker_machine_operator.Controller.Aws.RoundTrip.Removal.{removal}
use docker_machine_operator.Controller.Aws.RoundTrip.Whole.{
  create_aws_environment-cleanup_aws_resources,
}
use docker_machine_operator.Controller.Aws.RoundTrip.Client.{Signs, client_log}
use docker_machine_operator.Controller.Cleanup.{cleanup_machine_resources}
use docker_machine_operator.Controller.Safety.Own.{IsOwn}
use docker_machine_operator.Controller.Safety.Own.Whole.{cleanup_machine_resources-IsOwn}
use docker_machine_operator.Tests.Fixtures.{marked, fresh, ready}
use docker_machine_operator.Controller.Create.{create_machine, machine_creation_timeout}
use docker_machine_operator.Controller.Create.Accepted.{Accepts, written, authorised, finished}
use docker_machine_operator.Controller.Create.Runs.{with_secret}
use docker_machine_operator.Controller.Create.Networked.{
  connected, connecting, create_machine-runs_networked,
}
use docker_machine_operator.Controller.Args.Line.{line}
use docker_machine_operator.Controller.Aws.{annotation_args}
use docker_machine_operator.Env.Event.{slept, History, succeeded, ran}
use docker_machine_operator.Tests.Answers.{live_env, live_env-Validates}

-- A machine on AWS with its network.
abbrev amazon : Machine
amazon = record marked {
  annotations =
      (aws_vpc_id_annotation, "vpc-1")
      ∷ (aws_subnet_id_annotation, "subnet-1")
      ∷ (aws_internet_gateway_id_annotation, "igw-1")
      ∷ [];
  spec = record (marked.spec) {
    driver = some (record { name = "amazonec2" });
    parameters = (region_parameter, "us-east-1") ∷ [];
  };
}

abbrev holding : Machine → State
holding m = record { machine_obj = some m; log = [] }

create_aws_subnet-IsAccounted_example :
    Any (IsAccounted "subnet-1") (create_aws_subnet live_env 1 "vpc-1" (holding amazon)).1.log
create_aws_subnet-IsAccounted_example =
    create_aws_subnet-IsAccounted live_env 1 live_env-Validates "vpc-1" (holding amazon) amazon
      "subnet-1" refl (tt, tt) refl refl

-- The same API server, with credentials for AWS.
abbrev amazon_env : Env
amazon_env = record live_env {
  client = record (live_env.client) {
    get_secret = λ h key. ok ((aws_access_key_field, "id") ∷ (aws_secret_key_field, "secret") ∷ []);
  };
}

cleanup_machine_resources-IsOwn_example :
    Extends (IsOwn amazon) [] (cleanup_machine_resources amazon_env (holding amazon)).1.log
    × ((cleanup_machine_resources amazon_env (holding amazon)).1.machine_obj ≡ some amazon)
cleanup_machine_resources-IsOwn_example =
    cleanup_machine_resources-IsOwn amazon_env amazon (holding amazon) refl

-- An EC2 that takes every call but the deletion of the VPC's default security group, shows a new VPC
-- as pending until the controller has paused, and lists another VPC's route table first.
abbrev has_paused : History → Bool
has_paused [] = false
has_paused (slept d ∷ h) = true
has_paused (_ ∷ h) = has_paused h

abbrev state_of : Bool → String
state_of true = "available"
state_of false = "pending"

abbrev shown_state : History → String
shown_state h = state_of (has_paused h)

abbrev working_env : Env
working_env = record amazon_env {
  ec2 = record (amazon_env.ec2) {
    describe_vpcs = λ h c ids. ok (record { vpc_id = "vpc-1"; state = shown_state h } ∷ []);
    describe_route_tables = λ h c. ok (
        record { vpc_id = "vpc-0"; route_table_id = "rtb-0" }
        ∷ record { vpc_id = "vpc-1"; route_table_id = "rtb-1" }
        ∷ []);
    delete_security_group = λ h c id. some (other "CannotDelete");
  };
}

abbrev waits_of : Bool → ℕ
waits_of true = 0
waits_of false = 1

abbrev shown_waits : History → ℕ
shown_waits h = waits_of (has_paused h)

waits_of-Becomes :
    (b : Bool) (h : History) → has_paused h ≡ b → Becomes 1 "vpc-1" shown_state (waits_of b) h
waits_of-Becomes true h e = ap (λ b. state_of b == "available") e
waits_of-Becomes false h e = (ap (λ b. state_of b == "available") e, refl)

shown_state-Becomes : (h : History) → Becomes 1 "vpc-1" shown_state (shown_waits h) h
shown_state-Becomes h = waits_of-Becomes (has_paused h) h refl

waits_of-few : (b : Bool) → waits_of b ≤ 12
waits_of-few true = omega arith
waits_of-few false = omega arith

abbrev network : Network
network = record { vpc = "vpc-1"; subnet = "subnet-1"; gateway = "igw-1"; table = "rtb-1" }

abbrev bare : Machine
bare = record amazon { annotations = [] }

working_env-Works : Works working_env 1 network
working_env-Works = record {
  vpc_made = λ h. refl;
  state = shown_state;
  vpc_shown = λ h. refl;
  waits = shown_waits;
  few = λ h. waits_of-few (has_paused h);
  becomes = shown_state-Becomes;
  subnet_made = λ h zone. refl;
  gateway_made = λ h. refl;
  attaches = λ h. refl;
  detaches = λ h. refl;
  tables = λ h.
      record { vpc_id = "vpc-0"; route_table_id = "rtb-0" }
      ∷ record { vpc_id = "vpc-1"; route_table_id = "rtb-1" }
      ∷ [];
  tables_shown = λ h. refl;
  has_table = λ h. record {
    before = record { vpc_id = "vpc-0"; route_table_id = "rtb-0" } ∷ [];
    after = [];
    split = refl;
    others_before = (refl, tt);
    others_after = tt;
  };
  route_made = λ h. refl;
  route_deleted = λ h. refl;
  groups = λ h. record { group_id = "sg-1" } ∷ [];
  groups_shown = λ h. refl;
  gateway_deleted = λ h. refl;
  subnet_deleted = λ h. refl;
  vpc_deleted = λ h. refl;
  patches = λ h m f. refl;
}

abbrev signs : Signs working_env 1 bare.spec
signs = record {
  ref = record { namespace = "default"; name = "auth" };
  secret = (aws_access_key_field, "id") ∷ (aws_secret_key_field, "secret") ∷ [];
  cred = record { access_key = "id"; secret_key = "secret"; region = "us-east-1" };
  auth = refl;
  reads = λ h. refl;
  accepted = refl;
  opens = λ h. refl;
}

create_aws_environment-cleanup_aws_resources_example :
    (create_aws_environment working_env >> cleanup_aws_resources working_env) (holding bare) ≡ (
      done tt,
      with_machine (networked working_env-Works bare) (
          removal working_env-Works
            (client_log signs (building working_env-Works bare (client_log signs [])))),
    )
create_aws_environment-cleanup_aws_resources_example =
    create_aws_environment-cleanup_aws_resources working_env-Works bare [] signs refl refl refl refl
      refl refl

-- A machine on AWS that is not created.
abbrev unbuilt : Machine
unbuilt = record fresh { spec = bare.spec }

abbrev accepting : Accepts working_env
accepting = record { server = λ h. ready; reads = λ h k. refl; commits = λ h old m. refl }

abbrev host : Machine
host = connected working_env accepting working_env-Works unbuilt

abbrev with_network : History
with_network = connecting working_env accepting working_env-Works unbuilt signs []

create_machine-runs_networked_example :
    (create_machine working_env (holding unbuilt) ≡ (
      done tt,
      with_machine (finished working_env accepting (authorised working_env accepting host)) (
          written working_env accepting
            (finished working_env accepting (authorised working_env accepting host))
            (ran
                (some machine_creation_timeout)
                (line host "amazonec2" signs.secret)
                (succeeded "" "")
              ∷ with_secret working_env accepting signs.ref signs.secret host with_network)),
    ))
    × (annotation_args host
        ≡ "--amazonec2-vpc-id" ∷ "vpc-1" ∷ "--amazonec2-subnet-id" ∷ "subnet-1" ∷ [])
create_machine-runs_networked_example =
    create_machine-runs_networked working_env accepting working_env-Works unbuilt []
      (record { name = "amazonec2" }) signs "" "" refl refl refl refl refl refl refl refl refl refl
      ((refl, refl), ((refl, refl), tt)) refl
