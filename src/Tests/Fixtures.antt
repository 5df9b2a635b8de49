-- ===== src/Tests/Fixtures.antt =====
-- One environment in which the tests run: condition helpers that keep one condition of each type, an
-- API server that stores what it is given, and a cloud where every call succeeds.
use docker_machine_operator.Base.{
  String, ◌==◌, ℕ, Bool, true, false, ◌&&◌, Option, none, some, List, [], ◌∷◌, ◌++◌, if◌then◌else◌,
}
use docker_machine_operator.Go.Error.{Error, not_exist, Except, ok}
use docker_machine_operator.Api.Types.{ObjectKey, Condition, Machine, get_conditions}
use docker_machine_operator.Api.Names.{
  machine_ready, ready_condition, condition_true, condition_false,
}
use docker_machine_operator.Api.Helper.{get_finalizer}
use docker_machine_operator.Env.Kubernetes.{Client, Conditions, Finalizers}
use docker_machine_operator.Env.Container.{Host}
use docker_machine_operator.Env.Cloud.{Ec2, Azure}
use docker_machine_operator.Env.{Env}

-- The first condition of a type decides.
abbrev pub is_condition_true : List Condition → String → Bool
is_condition_true [] kind = false
is_condition_true (c ∷ cs) kind =
    if c.kind == kind then c.status == condition_true else is_condition_true cs kind

abbrev pub set_condition : Condition → List Condition → List Condition
set_condition new [] = new ∷ []
set_condition new (c ∷ cs) = if c.kind == new.kind then new ∷ cs else c ∷ set_condition new cs

abbrev pub true_condition : String → Condition
true_condition kind = record {
  kind = kind;
  status = condition_true;
  severity = "";
  reason = "";
  message = "";
}

abbrev pub all_true : List Condition → List String → Bool
all_true cs [] = true
all_true cs (kind ∷ kinds) = is_condition_true cs kind && all_true cs kinds

abbrev pub summary_of : Bool → Condition
summary_of true = true_condition ready_condition
summary_of false = record {
  kind = ready_condition;
  status = condition_false;
  severity = "";
  reason = "";
  message = "";
}

abbrev pub conditions : Conditions
conditions = record {
  is_condition_true = is_condition_true;
  mark_true = λ m kind. set_condition (true_condition kind) (get_conditions m);
  mark_false = λ m kind reason severity text.
      set_condition
        (record {
          kind = kind;
          status = condition_false;
          severity = severity;
          reason = reason;
          message = text;
        })
        (get_conditions m);
  set_summary =
      λ m kinds. set_condition (summary_of (all_true (get_conditions m) kinds)) (get_conditions m);
}

abbrev pub has : String → List String → Bool
has x [] = false
has x (y ∷ ys) = if y == x then true else has x ys

abbrev pub without : String → List String → List String
without x [] = []
without x (y ∷ ys) = if y == x then without x ys else y ∷ without x ys

abbrev pub finalizers : Finalizers
finalizers = record {
  contains_finalizer = λ m name. has name m.finalizers;
  add_finalizer = λ names name. names ++ name ∷ [];
  remove_finalizer = λ names name. without name names;
}

abbrev pub is_not_found : Error → Bool
is_not_found (Error.api reason text) = reason == "NotFound"
is_not_found _ = false

-- The API server has one machine, or fails.
abbrev pub client : Except Machine → Client
client stored = record {
  get_machine = λ h key. stored;
  get_secret = λ h key. ok (("google-application-credentials", "{}") ∷ []);
  create_or_patch = λ h m f. ok (f m);
  commit_status = λ h old m. ok m;
  is_not_found = is_not_found;
}

-- Files can be removed and written, and the result file reads as the text.
abbrev pub host : Option Error → String → Host
host failure result = record {
  run = λ h deadline args. record { error = failure; stdout = ""; stderr = "" };
  stat = λ h path. some (not_exist path);
  write_file = λ h path text. none;
  remove_file = λ h path. none;
  open_file = λ h path. ok result;
}

abbrev pub ec2 : Ec2
ec2 = record {
  new_session = λ h region access secret. ok 1;
  create_vpc = λ h c cidr. ok (record { vpc_id = "vpc-1"; state = "pending" });
  describe_vpcs = λ h c ids. ok (record { vpc_id = "vpc-1"; state = "pending" } ∷ []);
  delete_vpc = λ h c id. none;
  create_subnet = λ h c cidr vpc zone. ok "subnet-1";
  delete_subnet = λ h c id. none;
  create_internet_gateway = λ h c. ok "igw-1";
  delete_internet_gateway = λ h c id. none;
  attach_internet_gateway = λ h c gateway vpc. none;
  detach_internet_gateway = λ h c gateway vpc. none;
  describe_route_tables = λ h c. ok (record { vpc_id = "vpc-1"; route_table_id = "rtb-1" } ∷ []);
  create_route = λ h c ips gateway table. none;
  delete_route = λ h c ips table. none;
  describe_security_groups = λ h c name value. ok (record { group_id = "sg-1" } ∷ []);
  delete_security_group = λ h c id. none;
}

abbrev pub azure : Azure
azure = record {
  new_credential = λ h tenant id secret. ok 2;
  new_groups_client = λ h subscription cred. ok 3;
  begin_delete = λ h groups name. ok 4;
  poll_until_done = λ h poller. none;
}

abbrev pub env_of : Except Machine → Option Error → String → Env
env_of stored failure result = record {
  client = client stored;
  conditions = conditions;
  finalizers = finalizers;
  host = host failure result;
  ec2 = ec2;
  azure = azure;
}

-- A machine on Google, with its conditions and its deletion time.
abbrev pub machine_of : List Condition → Option ℕ → Machine
machine_of cs deleted = record {
  namespace = "default";
  name = "worker";
  deletion_timestamp = deleted;
  finalizers = get_finalizer ∷ [];
  annotations = [];
  spec = record {
    driver = some (record { name = "google" });
    script_ref = none;
    auth_secret = some (record { namespace = "default"; name = "auth" });
    parameters = ("google-zone", "us-east1-b") ∷ [];
  };
  status = record { conditions = cs; phase = "InProgress" };
}

abbrev pub fresh : Machine
fresh = machine_of [] none

abbrev pub ready : Machine
ready = machine_of (true_condition machine_ready ∷ []) none

abbrev pub marked : Machine
marked = machine_of (true_condition machine_ready ∷ []) (some 5)

abbrev pub key : ObjectKey
key = record { namespace = "default"; name = "worker" }
