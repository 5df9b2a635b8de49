-- ===== src/Controller/Safety/Events/Kept.antt =====
-- The calls that keep the finalizer, and which parts of the controller stay within them.
use docker_machine_operator.Env.Event.{Event, patched, finalizer_removed}
use docker_machine_operator.Controller.Footprint.{
  StatusCalls, SecretCalls, NetworkDeletion, NetworkCreation, CreationCalls, TeardownCalls,
}

-- Any call but one that removes a finalizer.
abbrev pub KeepsFinalizer : Event → Type 0
KeepsFinalizer (patched m (finalizer_removed name) r) = ⊥
KeepsFinalizer _ = Unit

pub KeepsFinalizer-StatusCalls : StatusCalls KeepsFinalizer
KeepsFinalizer-StatusCalls = record { get = λ _ _. tt; commit = λ _ _ _ _. tt }

pub KeepsFinalizer-SecretCalls : SecretCalls KeepsFinalizer
KeepsFinalizer-SecretCalls = record { secret = λ _ _. tt; session = λ _ _ _ _. tt }

pub KeepsFinalizer-NetworkDeletion : NetworkDeletion KeepsFinalizer
KeepsFinalizer-NetworkDeletion = record {
  subnet = λ _ _ _. tt;
  gateway = λ _ _ _. tt;
  vpc = λ _ _ _. tt;
  route = λ _ _ _ _. tt;
  detach = λ _ _ _ _. tt;
  tables = λ _ _. tt;
  groups = λ _ _ _ _. tt;
  group = λ _ _ _. tt;
}

pub KeepsFinalizer-NetworkCreation : NetworkCreation KeepsFinalizer
KeepsFinalizer-NetworkCreation = record {
  steps = record {
    vpcs = λ _ _ _. tt;
    attach = λ _ _ _ _. tt;
    route = λ _ _ _ _ _. tt;
    sleep = λ _. tt;
    annotate = λ _ _ _ _. tt;
  };
  vpc = λ _ _ _. tt;
  subnet = λ _ _ _ _ _. tt;
  gateway = λ _ _. tt;
}

pub KeepsFinalizer-CreationCalls : CreationCalls KeepsFinalizer
KeepsFinalizer-CreationCalls = record {
  live = record {
    addition = record { finalizer = λ _ _. tt };
    script = record { stat = λ _ _. tt; write = λ _ _ _. tt };
    result = record { copy = λ _ _ _. tt; opened = λ _. tt; removed = λ _. tt };
  };
  create = λ _ _ _. tt;
}

pub KeepsFinalizer-TeardownCalls : TeardownCalls KeepsFinalizer
KeepsFinalizer-TeardownCalls = record {
  files = record { file = λ _ _. tt };
  host = record { rm = λ _ _. tt };
  group = record {
    credential = λ _ _ _ _. tt;
    client = λ _ _ _. tt;
    delete = λ _ _ _. tt;
    poll = λ _ _. tt;
  };
}
