-- ===== src/Controller/Aws/Vpc/Stuck.antt =====
-- A VPC that is annotated and is not there, pkg/controller/aws.go.
use docker_machine_operator.Base.{String, ◌==◌, ◌≡◌, refl, ◌<>◌, false, some, List, [], ◌∷◌, All}
use docker_machine_operator.Go.Error.{Error, other, Except, ok, err}
use docker_machine_operator.Go.Map.{get}
use docker_machine_operator.Go.Text.{is_empty}
use docker_machine_operator.Api.Types.{Machine}
use docker_machine_operator.Env.Event.{Handle, Vpc, described_vpcs}
use docker_machine_operator.Env.{Env}
use docker_machine_operator.Effect.{State, failed, pure, call, lift, machine, ◌>>=◌}
use docker_machine_operator.Controller.Aws.{aws_vpc_id_annotation, annotation}
use docker_machine_operator.Controller.Aws.Vpc.{find_vpc, get_vpc, existing_vpc, create_aws_vpc}

find_vpc-missing :
    (id : String) (vpcs : List Vpc)
    → All (λ v. (v.vpc_id == id) ≡ false) vpcs
    → find_vpc id vpcs ≡ err (other ("no vpc found with id " <> id))
find_vpc-missing id [] h = refl
find_vpc-missing id (v ∷ vpcs) (h, k) = rw h (find_vpc-missing id vpcs k)

-- The answer does not have the VPC: it is an error, or a list of others.
abbrev pub Misses : String → Except (List Vpc) → Type 0
Misses id (ok vpcs) = All (λ v. (v.vpc_id == id) ≡ false) vpcs
Misses id (err e) = Unit

module _ (env : Env) (c : Handle) where
  -- If the machine is annotated with a VPC that EC2 does not show any more, the creation of the network
  -- fails after this one call: no other VPC is created, and the machine stays annotated.
  pub create_aws_vpc-stuck :
      (s : State) (m : Machine) (id : String) (r : Except (List Vpc))
      → s.machine_obj ≡ some m
      → get aws_vpc_id_annotation m.annotations ≡ id
      → is_empty id ≡ false
      → env.describe_vpcs s.log c (id ∷ []) ≡ r
      → Misses id r
      → (e : Error) × (create_aws_vpc env c s
          ≡ (failed e, record s { log = described_vpcs c (id ∷ []) r ∷ s.log }))
  unfolding create_aws_vpc existing_vpc get_vpc annotation machine pure call lift ◌>>=◌
  create_aws_vpc-stuck s m id (ok vpcs) has known set listed missing = (
    other ("no vpc found with id " <> id),
    rw (has, known, set, listed, find_vpc-missing id vpcs missing) refl,
  )
  create_aws_vpc-stuck s m id (err e) has known set listed missing =
      (e, rw (has, known, set, listed) refl)
