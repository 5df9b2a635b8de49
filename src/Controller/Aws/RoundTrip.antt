-- ===== src/Controller/Aws/RoundTrip.antt =====
-- A network that is built and taken down where EC2 takes every call, pkg/controller/aws.go.
pub mod Client
pub mod Building
pub mod Removal
pub mod Whole
use docker_machine_operator.Base.{
  ℕ, zero, suc, ◌*◌, ◌≤◌, All, String, ◌==◌, ◌<>◌, ◌≡◌, refl, sym, ap, ◌∙◌, eq_refl, Bool, true,
  false, Option, none, some, List, [], ◌∷◌, ◌++◌, if◌then◌else◌,
}
use docker_machine_operator.Go.Error.{Error, Except, ok, err, of_error}
use docker_machine_operator.Go.Map.{get, put, get-put}
use docker_machine_operator.Go.Text.{is_empty}
use docker_machine_operator.Api.Types.{Machine}
use docker_machine_operator.Env.Event.{
  Event, History, Handle, Vpc, RouteTable, SecurityGroup, slept, annotation_set, patched,
  created_vpc, described_vpcs, deleted_vpc, created_subnet, deleted_subnet, created_gateway,
  deleted_gateway, attached_gateway, detached_gateway, described_route_tables, created_route,
  deleted_route, described_security_groups,
}
use docker_machine_operator.Env.{Env}
use docker_machine_operator.Controller.Wait.{second}
use docker_machine_operator.Effect.{
  State, Outcome, continue, attempted, outcome_of, done, Action, pure, skip, fail, lift, call,
  call_error, attempt, machine, set_machine, ◌>>=◌, ◌>>◌,
}
use docker_machine_operator.Effect.Returns.{done-bind}
use docker_machine_operator.Controller.Finalizer.{create_or_patch, patch_annotation}
use docker_machine_operator.Controller.Aws.{
  aws_vpc_id_annotation, aws_subnet_id_annotation, aws_internet_gateway_id_annotation, aws_vpc_cidr,
  allow_all_ips, default_zone, region_parameter, annotation, parameter, logged, ignore_missing,
  or_undo,
}
use docker_machine_operator.Controller.Aws.Gateway.{
  route_table_of, find_route_table, create_aws_route, delete_aws_route,
  attach_internet_gateway_to_vpc, detach_internet_gateway_to_vpc, delete_aws_internet_gateway,
  create_aws_internet_gateway, delete_aws_subnet, create_aws_subnet,
}

-- What EC2 gives for each part of the network.
pub record Network : Type 0 where
  pub vpc : String
  pub subnet : String
  pub gateway : String
  pub table : String

-- One look at a VPC that is shown in this state, and the pause after it.
abbrev pub looked : Handle → String → (History → String) → History → History
looked c vpc state h =
    described_vpcs c (vpc ∷ []) (ok (record { vpc_id = vpc; state = state h } ∷ [])) ∷ h

abbrev pub paused : Handle → String → (History → String) → History → History
paused c vpc state h = slept (5 * second) ∷ looked c vpc state h

-- The VPC is available after this number of looks that find it otherwise, and these looks.
abbrev pub Becomes : Handle → String → (History → String) → ℕ → History → Type 0
Becomes c vpc state zero h = (state h == "available") ≡ true
Becomes c vpc state (suc k) h =
    ((state h == "available") ≡ false) × Becomes c vpc state k (paused c vpc state h)

abbrev pub looks : Handle → String → (History → String) → ℕ → History → History
looks c vpc state zero h = looked c vpc state h
looks c vpc state (suc k) h = looks c vpc state k (paused c vpc state h)

-- Of the route tables of the account, the VPC has one.
pub record HasTable (vpc table : String) (tables : List RouteTable) : Type 0 where
  pub before : List RouteTable
  pub after : List RouteTable
  pub split : tables ≡ before ++ (record { vpc_id = vpc; route_table_id = table } ∷ after)
  pub others_before : All (λ rt. (rt.vpc_id == vpc) ≡ false) before
  pub others_after : All (λ rt. (rt.vpc_id == vpc) ≡ false) after

-- EC2 takes the calls on the network's parts: each is made with its id, attached and deleted. The VPC
-- is pending at first, and available after at most twelve looks; among the account's route tables one
-- is the VPC's; the VPC has some security groups, and what is answered to the deletion of one is left
-- open, since the default group cannot be deleted. The API server stores every patch.
pub record Works (env : Env) (c : Handle) (n : Network) : Type 0 where
  pub vpc_made :
      (h : History)
      → env.create_vpc h c aws_vpc_cidr ≡ ok (record { vpc_id = n.vpc; state = "pending" })
  pub state : History → String
  pub vpc_shown :
      (h : History)
      → env.describe_vpcs h c (n.vpc ∷ []) ≡ ok (record { vpc_id = n.vpc; state = state h } ∷ [])
  pub waits : History → ℕ
  pub few : (h : History) → waits h ≤ 12
  pub becomes : (h : History) → Becomes c n.vpc state (waits h) h
  pub subnet_made :
      (h : History) (zone : String) → env.create_subnet h c aws_vpc_cidr n.vpc zone ≡ ok n.subnet
  pub gateway_made : (h : History) → env.create_internet_gateway h c ≡ ok n.gateway
  pub attaches : (h : History) → env.attach_internet_gateway h c n.gateway n.vpc ≡ none
  pub detaches : (h : History) → env.detach_internet_gateway h c n.gateway n.vpc ≡ none
  pub tables : History → List RouteTable
  pub tables_shown : (h : History) → env.describe_route_tables h c ≡ ok (tables h)
  pub has_table : (h : History) → HasTable n.vpc n.table (tables h)
  pub route_made : (h : History) → env.create_route h c allow_all_ips n.gateway n.table ≡ none
  pub route_deleted : (h : History) → env.delete_route h c allow_all_ips n.table ≡ none
  pub groups : History → List SecurityGroup
  pub groups_shown : (h : History) → env.describe_security_groups h c "vpc-id" n.vpc ≡ ok (groups h)
  pub gateway_deleted : (h : History) → env.delete_internet_gateway h c n.gateway ≡ none
  pub subnet_deleted : (h : History) → env.delete_subnet h c n.subnet ≡ none
  pub vpc_deleted : (h : History) → env.delete_vpc h c n.vpc ≡ none
  pub patches :
      (h : History) (m : Machine) (f : Machine → Machine) → env.create_or_patch h m f ≡ ok (f m)

-- The machine with one more annotation, and a state.
abbrev pub noted : String → String → Machine → Machine
noted key value m = record m { annotations = put key value m.annotations }

abbrev pub with_machine : Machine → History → State
with_machine m h = record { machine_obj = some m; log = h }

abbrev pub patch_event : String → String → Machine → Event
patch_event key value m = patched m (annotation_set key value) (ok (noted key value m))

-- Tables of other VPCs are passed over.
route_table_of-others :
    (vpc : String) (found : Option RouteTable) (tables rest : List RouteTable)
    → All (λ rt. (rt.vpc_id == vpc) ≡ false) tables
    → route_table_of vpc found (tables ++ rest) ≡ route_table_of vpc found rest
route_table_of-others vpc found [] rest h = refl
route_table_of-others vpc found (rt ∷ tables) rest (e, h) =
    rw (route_table_of, e) (route_table_of-others vpc found tables rest h)

only_others :
    (vpc : String) (found : Option RouteTable) (tables : List RouteTable)
    → All (λ rt. (rt.vpc_id == vpc) ≡ false) tables
    → route_table_of vpc found tables ≡ found
only_others vpc found [] h = refl
only_others vpc found (rt ∷ tables) (e, h) = rw e (only_others vpc found tables h)

route_table_of-HasTable :
    (vpc table : String) (tables : List RouteTable)
    → HasTable vpc table tables
    → route_table_of vpc none tables ≡ some (record { vpc_id = vpc; route_table_id = table })
route_table_of-HasTable vpc table tables t =
    let rt : RouteTable = record { vpc_id = vpc; route_table_id = table } in
    ap (route_table_of vpc none) t.split
    ∙ (route_table_of-others vpc none t.before (rt ∷ t.after) t.others_before
        ∙ rw (eq_refl vpc) (only_others vpc (some rt) t.after t.others_after))

pub or_undo-done :
    (act undo : Action Unit) (s s' : State)
    → act s ≡ (done tt, s')
    → or_undo act undo s ≡ (done tt, s')
unfolding or_undo attempt ◌>>=◌ skip pure
or_undo-done act undo s s' e = rw e refl

pub logged-done :
    (act : Action Unit) (s s' : State) → act s ≡ (done tt, s') → logged act s ≡ (done tt, s')
unfolding logged attempt ◌>>=◌ skip pure
logged-done act s s' e = rw e refl

drops-answer :
    (r : Option Error) (s : State)
    → continue (attempted (outcome_of (of_error r))) (λ _. skip) s ≡ (done tt, s)
unfolding skip pure
drops-answer none s = refl
drops-answer (some e) s = refl

-- A call whose error is logged goes on in any case.
pub logged_call-done :
    (ask : History → Option Error) (note : Option Error → Event) (m : Machine) (h : History)
    → logged (call_error ask note) (with_machine m h) ≡ (done tt, with_machine m (note (ask h) ∷ h))
unfolding logged attempt call_error ◌>>=◌
logged_call-done ask note m h = drops-answer (ask h) (with_machine m (note (ask h) ∷ h))

pub ignore_missing-done :
    (act : Action Unit) (s s' : State)
    → act s ≡ (done tt, s')
    → ignore_missing act s ≡ (done tt, s')
unfolding ignore_missing attempt ◌>>=◌ skip pure
ignore_missing-done act s s' e = rw e refl

pub parameter-done :
    (key : String) (m : Machine) (h : History)
    → parameter key (with_machine m h) ≡ (done (get key m.spec.parameters), with_machine m h)
unfolding parameter machine pure ◌>>=◌
parameter-done key m h = refl

pub annotation-done :
    (key : String) (m : Machine) (h : History) (value : String)
    → get key m.annotations ≡ value
    → annotation key (with_machine m h) ≡ (done value, with_machine m h)
unfolding annotation machine pure ◌>>=◌
annotation-done key m h value e = rw e refl

pub call-done :
    {A : Type 0} (ask : History → Except A) (note : Except A → Event) (m : Machine) (h : History)
    (a : A)
    → ask h ≡ ok a
    → call ask note (with_machine m h) ≡ (done a, with_machine m (note (ok a) ∷ h))
unfolding call
call-done ask note m h a e = rw e refl

pub call_error-done :
    (ask : History → Option Error) (note : Option Error → Event) (m : Machine) (h : History)
    → ask h ≡ none
    → call_error ask note (with_machine m h) ≡ (done tt, with_machine m (note none ∷ h))
unfolding call_error
call_error-done ask note m h e = rw e refl

module _ {env : Env} {c : Handle} {n : Network} (works : Works env c n) where
  pub patch_annotation-works :
      (key value : String) (m : Machine) (h : History)
      → patch_annotation env key value (with_machine m h)
        ≡ (done tt, with_machine (noted key value m) (patch_event key value m ∷ h))
  unfolding patch_annotation create_or_patch machine call set_machine ◌>>=◌
  patch_annotation-works key value m h = rw (works.patches h m (noted key value)) refl

  -- The listing of the route tables.
  abbrev pub listed : History → History
  listed h = described_route_tables c (ok (works.tables h)) ∷ h

  pub find_route_table-works :
      (m : Machine) (h : History)
      → find_route_table env c n.vpc (with_machine m h)
        ≡ (done (record { vpc_id = n.vpc; route_table_id = n.table }), with_machine m (listed h))
  unfolding find_route_table call pure ◌>>=◌
  find_route_table-works m h =
      rw
        (
          works.tables_shown h,
          route_table_of-HasTable n.vpc n.table (works.tables h) (works.has_table h),
        )
        refl
