-- ===== src/Controller/Stages.antt =====
-- The order in which a reconcile makes its calls (pkg/controller), in stages: one order for a live
-- machine, and one for a machine that is marked for deletion.
pub mod Live
pub mod Teardown
pub mod Whole
use docker_machine_operator.Base.{ℕ, Option, none, some, inl, inr, refl, Bool, true, false}
use docker_machine_operator.Env.Event.{
  Event, patched, finalizer_added, finalizer_removed, annotation_set, ran, stat_file, wrote_file,
  removed_file, opened_file, slept, created_vpc, described_vpcs, deleted_vpc, created_subnet,
  deleted_subnet, created_gateway, deleted_gateway, attached_gateway, detached_gateway,
  described_route_tables, created_route, deleted_route, described_security_groups,
  deleted_security_group, new_credential, new_groups_client, began_delete, polled_until_done,
}
use docker_machine_operator.Effect.Staged.{AtStage}
use docker_machine_operator.Controller.Footprint.{
  StatusCalls, SecretCalls, NetworkDeletion, NetworkCreation, FinalizerAddition, ScriptCalls,
  FileRemoval, HostRemoval, GroupDeletion, FinalizerRemoval,
}

-- The calls that build a network on AWS, record it, or take it down.
abbrev pub network : ℕ → Event → Option ℕ
network k (patched m (annotation_set key value) r) = some k
network k (slept d) = some k
network k (created_vpc c cidr r) = some k
network k (described_vpcs c ids r) = some k
network k (deleted_vpc c id r) = some k
network k (created_subnet c cidr vpc zone r) = some k
network k (deleted_subnet c id r) = some k
network k (created_gateway c r) = some k
network k (deleted_gateway c id r) = some k
network k (attached_gateway c id vpc r) = some k
network k (detached_gateway c id vpc r) = some k
network k (described_route_tables c r) = some k
network k (created_route c to id table r) = some k
network k (deleted_route c to table r) = some k
network k (described_security_groups c key value r) = some k
network k (deleted_security_group c id r) = some k
network k _ = none

-- The finalizer, the network, the file of the startup script, `docker-machine create`, and the
-- script's result: copied, opened and removed. Reading and writing the machine's status, and reading
-- secrets, may happen at any time.
abbrev pub live_stage : Event → Option ℕ
live_stage (patched m (finalizer_added name) r) = some 1
live_stage (stat_file path r) = some 3
live_stage (wrote_file path value r) = some 3
live_stage (ran (some d) args c) = some 4
live_stage (ran none args c) = some 5
live_stage (opened_file path r) = some 6
live_stage (removed_file path r) = some 7
live_stage e = network 2 e

-- The files, `docker-machine rm`, the network on AWS or the group on Azure, and the finalizer.
abbrev pub teardown_stage : Event → Option ℕ
teardown_stage (removed_file path r) = some 1
teardown_stage (ran d args c) = some 2
teardown_stage (new_credential tenant id secret r) = some 3
teardown_stage (new_groups_client id c r) = some 3
teardown_stage (began_delete c name r) = some 3
teardown_stage (polled_until_done c r) = some 3
teardown_stage (patched m (finalizer_removed name) r) = some 4
teardown_stage e = network 3 e

abbrev pub stage_of : Bool → Event → Option ℕ
stage_of true = teardown_stage
stage_of false = live_stage

module _ (k : ℕ) where
  pub live-StatusCalls : StatusCalls (AtStage live_stage k)
  live-StatusCalls = record { get = λ _ _. inl refl; commit = λ _ _ _ _. inl refl }

  pub live-SecretCalls : SecretCalls (AtStage live_stage k)
  live-SecretCalls = record { secret = λ _ _. inl refl; session = λ _ _ _ _. inl refl }

  pub teardown-StatusCalls : StatusCalls (AtStage teardown_stage k)
  teardown-StatusCalls = record { get = λ _ _. inl refl; commit = λ _ _ _ _. inl refl }

  pub teardown-SecretCalls : SecretCalls (AtStage teardown_stage k)
  teardown-SecretCalls = record { secret = λ _ _. inl refl; session = λ _ _ _ _. inl refl }

pub live-NetworkDeletion : NetworkDeletion (AtStage live_stage 2)
live-NetworkDeletion = record {
  subnet = λ _ _ _. inr refl;
  gateway = λ _ _ _. inr refl;
  vpc = λ _ _ _. inr refl;
  route = λ _ _ _ _. inr refl;
  detach = λ _ _ _ _. inr refl;
  tables = λ _ _. inr refl;
  groups = λ _ _ _ _. inr refl;
  group = λ _ _ _. inr refl;
}

pub live-NetworkCreation : NetworkCreation (AtStage live_stage 2)
live-NetworkCreation = record {
  steps = record {
    vpcs = λ _ _ _. inr refl;
    attach = λ _ _ _ _. inr refl;
    route = λ _ _ _ _ _. inr refl;
    sleep = λ _. inr refl;
    annotate = λ _ _ _ _. inr refl;
  };
  vpc = λ _ _ _. inr refl;
  subnet = λ _ _ _ _ _. inr refl;
  gateway = λ _ _. inr refl;
}

pub live-FinalizerAddition : FinalizerAddition (AtStage live_stage 1)
live-FinalizerAddition = record { finalizer = λ _ _. inr refl }

pub live-ScriptCalls : ScriptCalls (AtStage live_stage 3)
live-ScriptCalls = record { stat = λ _ _. inr refl; write = λ _ _ _. inr refl }

pub teardown-NetworkDeletion : NetworkDeletion (AtStage teardown_stage 3)
teardown-NetworkDeletion = record {
  subnet = λ _ _ _. inr refl;
  gateway = λ _ _ _. inr refl;
  vpc = λ _ _ _. inr refl;
  route = λ _ _ _ _. inr refl;
  detach = λ _ _ _ _. inr refl;
  tables = λ _ _. inr refl;
  groups = λ _ _ _ _. inr refl;
  group = λ _ _ _. inr refl;
}

pub teardown-FileRemoval : FileRemoval (AtStage teardown_stage 1)
teardown-FileRemoval = record { file = λ _ _. inr refl }

pub teardown-HostRemoval : HostRemoval (AtStage teardown_stage 2)
teardown-HostRemoval = record { rm = λ _ _. inr refl }

pub teardown-GroupDeletion : GroupDeletion (AtStage teardown_stage 3)
teardown-GroupDeletion = record {
  credential = λ _ _ _ _. inr refl;
  client = λ _ _ _. inr refl;
  delete = λ _ _ _. inr refl;
  poll = λ _ _. inr refl;
}

pub teardown-FinalizerRemoval : FinalizerRemoval (AtStage teardown_stage 4)
teardown-FinalizerRemoval = record { finalizer = λ _ _. inr refl }
