-- ===== src/Controller/Safety/Events.antt =====
-- Classes of calls, and which parts of the controller stay within them.
pub mod Kept
use docker_machine_operator.Base.{String, ◌==◌, Bool, false, ◌≡◌, refl, List, [], ◌∷◌}
use docker_machine_operator.Api.Helper.{get_phase}
use docker_machine_operator.Env.Event.{
  Event, patched, finalizer_added, finalizer_removed, annotation_set, committed, ran, wrote_file,
  removed_file, created_vpc, created_subnet, created_gateway, attached_gateway, created_route,
  new_credential, new_groups_client, began_delete, polled_until_done,
}
use docker_machine_operator.Controller.Script.{result_file}
use docker_machine_operator.Controller.Footprint.{
  StatusCalls, SecretCalls, NetworkDeletion, NetworkCreation, CreationCalls, TeardownCalls,
  FinalizerRemoval,
}

-- The phase of a status that is written is the one that its conditions give.
abbrev pub IsPhaseRight : Event → Type 0
IsPhaseRight (committed server new r) = new.status.phase ≡ get_phase new
IsPhaseRight _ = Unit

-- The first argument of a `docker-machine` command.
abbrev pub is_command : String → List String → Bool
is_command name [] = false
is_command name (arg ∷ args) = arg == name

-- Not a call that takes a machine down: its finalizer stays, `docker-machine rm` is not run, no
-- Azure call is made, and no file is removed but the result of the script.
abbrev pub KeepsMachine : Event → Type 0
KeepsMachine (patched m (finalizer_removed name) r) = ⊥
KeepsMachine (ran deadline args c) = is_command "rm" args ≡ false
KeepsMachine (removed_file path r) = path ≡ result_file
KeepsMachine (new_credential tenant id secret r) = ⊥
KeepsMachine (new_groups_client id c r) = ⊥
KeepsMachine (began_delete c name r) = ⊥
KeepsMachine (polled_until_done c r) = ⊥
KeepsMachine _ = Unit

-- Not a call that brings a machine up: `docker-machine create` is not run, no file is written,
-- nothing is created on AWS, and no finalizer or annotation is set.
abbrev pub CreatesNothing : Event → Type 0
CreatesNothing (patched m (finalizer_added name) r) = ⊥
CreatesNothing (patched m (annotation_set key value) r) = ⊥
CreatesNothing (ran deadline args c) = is_command "create" args ≡ false
CreatesNothing (wrote_file path value r) = ⊥
CreatesNothing (created_vpc c cidr r) = ⊥
CreatesNothing (created_subnet c cidr vpc zone r) = ⊥
CreatesNothing (created_gateway c r) = ⊥
CreatesNothing (attached_gateway c id vpc r) = ⊥
CreatesNothing (created_route c to id table r) = ⊥
CreatesNothing _ = Unit

pub IsPhaseRight-StatusCalls : StatusCalls IsPhaseRight
IsPhaseRight-StatusCalls = record { get = λ _ _. tt; commit = λ _ _ _ e. e }

pub IsPhaseRight-SecretCalls : SecretCalls IsPhaseRight
IsPhaseRight-SecretCalls = record { secret = λ _ _. tt; session = λ _ _ _ _. tt }

pub IsPhaseRight-NetworkDeletion : NetworkDeletion IsPhaseRight
IsPhaseRight-NetworkDeletion = record {
  subnet = λ _ _ _. tt;
  gateway = λ _ _ _. tt;
  vpc = λ _ _ _. tt;
  route = λ _ _ _ _. tt;
  detach = λ _ _ _ _. tt;
  tables = λ _ _. tt;
  groups = λ _ _ _ _. tt;
  group = λ _ _ _. tt;
}

pub IsPhaseRight-NetworkCreation : NetworkCreation IsPhaseRight
IsPhaseRight-NetworkCreation = record {
  steps = record {
    vpcs = λ _ _ _. tt;
    attach = λ _ _ _ _. tt;
    route = λ _ _ _ _ _. tt;
    sleep = λ _. tt;
    annotate = λ _ _ _ _. tt;
  };
  vpc = λ _ _ _. tt;
  subnet = λ _ _ _ _ _. tt;
  gateway = λ _ _. tt;
}

pub IsPhaseRight-CreationCalls : CreationCalls IsPhaseRight
IsPhaseRight-CreationCalls = record {
  live = record {
    addition = record { finalizer = λ _ _. tt };
    script = record { stat = λ _ _. tt; write = λ _ _ _. tt };
    result = record { copy = λ _ _ _. tt; opened = λ _. tt; removed = λ _. tt };
  };
  create = λ _ _ _. tt;
}

pub IsPhaseRight-TeardownCalls : TeardownCalls IsPhaseRight
IsPhaseRight-TeardownCalls = record {
  files = record { file = λ _ _. tt };
  host = record { rm = λ _ _. tt };
  group = record {
    credential = λ _ _ _ _. tt;
    client = λ _ _ _. tt;
    delete = λ _ _ _. tt;
    poll = λ _ _. tt;
  };
}

pub IsPhaseRight-FinalizerRemoval : FinalizerRemoval IsPhaseRight
IsPhaseRight-FinalizerRemoval = record { finalizer = λ _ _. tt }

pub KeepsMachine-StatusCalls : StatusCalls KeepsMachine
KeepsMachine-StatusCalls = record { get = λ _ _. tt; commit = λ _ _ _ _. tt }

pub KeepsMachine-SecretCalls : SecretCalls KeepsMachine
KeepsMachine-SecretCalls = record { secret = λ _ _. tt; session = λ _ _ _ _. tt }

pub KeepsMachine-NetworkDeletion : NetworkDeletion KeepsMachine
KeepsMachine-NetworkDeletion = record {
  subnet = λ _ _ _. tt;
  gateway = λ _ _ _. tt;
  vpc = λ _ _ _. tt;
  route = λ _ _ _ _. tt;
  detach = λ _ _ _ _. tt;
  tables = λ _ _. tt;
  groups = λ _ _ _ _. tt;
  group = λ _ _ _. tt;
}

pub KeepsMachine-NetworkCreation : NetworkCreation KeepsMachine
KeepsMachine-NetworkCreation = record {
  steps = record {
    vpcs = λ _ _ _. tt;
    attach = λ _ _ _ _. tt;
    route = λ _ _ _ _ _. tt;
    sleep = λ _. tt;
    annotate = λ _ _ _ _. tt;
  };
  vpc = λ _ _ _. tt;
  subnet = λ _ _ _ _ _. tt;
  gateway = λ _ _. tt;
}

pub KeepsMachine-CreationCalls : CreationCalls KeepsMachine
KeepsMachine-CreationCalls = record {
  live = record {
    addition = record { finalizer = λ _ _. tt };
    script = record { stat = λ _ _. tt; write = λ _ _ _. tt };
    result = record { copy = λ _ _ _. refl; opened = λ _. tt; removed = λ _. refl };
  };
  create = λ _ _ _. refl;
}

pub CreatesNothing-StatusCalls : StatusCalls CreatesNothing
CreatesNothing-StatusCalls = record { get = λ _ _. tt; commit = λ _ _ _ _. tt }

pub CreatesNothing-SecretCalls : SecretCalls CreatesNothing
CreatesNothing-SecretCalls = record { secret = λ _ _. tt; session = λ _ _ _ _. tt }

pub CreatesNothing-NetworkDeletion : NetworkDeletion CreatesNothing
CreatesNothing-NetworkDeletion = record {
  subnet = λ _ _ _. tt;
  gateway = λ _ _ _. tt;
  vpc = λ _ _ _. tt;
  route = λ _ _ _ _. tt;
  detach = λ _ _ _ _. tt;
  tables = λ _ _. tt;
  groups = λ _ _ _ _. tt;
  group = λ _ _ _. tt;
}

pub CreatesNothing-TeardownCalls : TeardownCalls CreatesNothing
CreatesNothing-TeardownCalls = record {
  files = record { file = λ _ _. tt };
  host = record { rm = λ _ _. refl };
  group = record {
    credential = λ _ _ _ _. tt;
    client = λ _ _ _. tt;
    delete = λ _ _ _. tt;
    poll = λ _ _. tt;
  };
}

pub CreatesNothing-FinalizerRemoval : FinalizerRemoval CreatesNothing
CreatesNothing-FinalizerRemoval = record { finalizer = λ _ _. tt }
