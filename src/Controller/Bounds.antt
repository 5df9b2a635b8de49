-- ===== src/Controller/Bounds.antt =====
-- The calls by which the controller makes something outside the API server: hosts, and the parts of a
-- network (pkg/controller/machine.go, aws.go).
pub mod Creation
pub mod Whole
use docker_machine_operator.Base.{String, ◌==◌, ℕ, ◌+◌, ◌≡◌, refl, ◌∷◌, if◌then◌else◌, arith}
use docker_machine_operator.Env.Event.{
  Event, History, ran, created_vpc, created_subnet, created_gateway,
}
use docker_machine_operator.Effect.Costs.{total, IsFree}
use docker_machine_operator.Controller.Footprint.{
  StatusCalls, SecretCalls, NetworkDeletion, NetworkSteps, LiveCalls, TeardownCalls,
  FinalizerRemoval,
}

pub data Resource : Type 0 where
  host vpc subnet gateway : Resource

-- One for the resource itself.
abbrev pub hosts : Resource → ℕ
hosts host = 1
hosts _ = 0

abbrev pub vpcs : Resource → ℕ
vpcs vpc = 1
vpcs _ = 0

abbrev pub subnets : Resource → ℕ
subnets subnet = 1
subnets _ = 0

abbrev pub gateways : Resource → ℕ
gateways gateway = 1
gateways _ = 0

-- One for a call that asks for the resource to be made.
abbrev pub units : Resource → Event → ℕ
units r (ran deadline (arg ∷ args) c) = if arg == "create" then hosts r else 0
units r (created_vpc c cidr answer) = vpcs r
units r (created_subnet c cidr id zone answer) = subnets r
units r (created_gateway c answer) = gateways r
units r _ = 0

-- How many such calls there are.
abbrev pub creations : Resource → History → ℕ
creations r log = total (units r) log

pub one_each : (r : Resource) → (vpcs r + (subnets r + gateways r)) + hosts r ≡ 1
one_each host = refl
one_each vpc = refl
one_each subnet = refl
one_each gateway = refl

module _ (r : Resource) where
  pub units-StatusCalls : StatusCalls (IsFree (units r))
  units-StatusCalls = record { get = λ _ _. refl; commit = λ _ _ _ _. refl }

  pub units-SecretCalls : SecretCalls (IsFree (units r))
  units-SecretCalls = record { secret = λ _ _. refl; session = λ _ _ _ _. refl }

  pub units-NetworkDeletion : NetworkDeletion (IsFree (units r))
  units-NetworkDeletion = record {
    subnet = λ _ _ _. refl;
    gateway = λ _ _ _. refl;
    vpc = λ _ _ _. refl;
    route = λ _ _ _ _. refl;
    detach = λ _ _ _ _. refl;
    tables = λ _ _. refl;
    groups = λ _ _ _ _. refl;
    group = λ _ _ _. refl;
  }

  pub units-NetworkSteps : NetworkSteps (IsFree (units r))
  units-NetworkSteps = record {
    vpcs = λ _ _ _. refl;
    attach = λ _ _ _ _. refl;
    route = λ _ _ _ _ _. refl;
    sleep = λ _. refl;
    annotate = λ _ _ _ _. refl;
  }

  pub units-LiveCalls : LiveCalls (IsFree (units r))
  units-LiveCalls = record {
    addition = record { finalizer = λ _ _. refl };
    script = record { stat = λ _ _. refl; write = λ _ _ _. refl };
    result = record { copy = λ _ _ _. refl; opened = λ _. refl; removed = λ _. refl };
  }

  pub units-TeardownCalls : TeardownCalls (IsFree (units r))
  units-TeardownCalls = record {
    files = record { file = λ _ _. refl };
    host = record { rm = λ _ _. refl };
    group = record {
      credential = λ _ _ _ _. refl;
      client = λ _ _ _. refl;
      delete = λ _ _ _. refl;
      poll = λ _ _. refl;
    };
  }

  pub units-FinalizerRemoval : FinalizerRemoval (IsFree (units r))
  units-FinalizerRemoval = record { finalizer = λ _ _. refl }
