-- ===== src/Controller/Aws/Gateway/Subnet.antt =====
-- What becomes of a subnet that is created, pkg/controller/aws.go.
use docker_machine_operator.Base.{
  String, ◌<>◌, ◌≡◌, refl, inl, inr, false, Bool-cases, some, ◌∷◌, Any,
}
use docker_machine_operator.Go.Error.{ok}
use docker_machine_operator.Go.Map.{get}
use docker_machine_operator.Go.Text.{is_empty}
use docker_machine_operator.Api.Types.{Machine}
use docker_machine_operator.Env.Event.{
  Event, Handle, created_subnet, deleted_subnet, patched, annotation_set,
}
use docker_machine_operator.Env.{Env}
use docker_machine_operator.Effect.{State, pure, skip, call, machine, ◌>>=◌}
use docker_machine_operator.Effect.Answers.{Holds}
use docker_machine_operator.Controller.Finalizer.{patch_annotation}
use docker_machine_operator.Controller.Aws.{
  annotation, parameter, aws_vpc_cidr, default_zone, region_parameter, aws_subnet_id_annotation,
  aws_internet_gateway_id_annotation, aws_vpc_id_annotation,
}
use docker_machine_operator.Controller.Aws.Asks.{
  ignore_missing-asks, patch_annotation-asks, or_undo-asks, logged-asks,
}
use docker_machine_operator.Controller.Aws.Gateway.{
  delete_aws_internet_gateway, create_aws_internet_gateway, delete_aws_subnet, create_aws_subnet,
}
use docker_machine_operator.Controller.Answers.{IsValid, Validates}
use docker_machine_operator.Controller.Answers.Network.Clouds.{
  delete_aws_internet_gateway-Answers, create_aws_internet_gateway-Answers,
}

-- The subnet is asked to be deleted, or recorded on the machine.
abbrev pub IsAccounted : String → Event → Type 0
IsAccounted id (deleted_subnet c subnet r) = subnet ≡ id
IsAccounted id (patched m (annotation_set key value) r) =
    (key ≡ aws_subnet_id_annotation) × (value ≡ id)
IsAccounted id _ = ⊥

module _ (env : Env) (c : Handle) where
  delete_aws_subnet-asks :
      (id : String) (s : State)
      → Holds IsValid s
      → Any (IsAccounted id) (delete_aws_subnet env c id s).1.log
  unfolding delete_aws_subnet annotation machine pure skip ◌>>=◌
  delete_aws_subnet-asks id s (m, h, v) =
      elim (Bool-cases (is_empty (get aws_internet_gateway_id_annotation m.annotations))) [
        | inl t ↦ rw (h, t) (ignore_missing-asks (IsAccounted id) _ _ _ (λ r. refl))
        | inr f ↦
            let gateway = get aws_internet_gateway_id_annotation m.annotations in
            let vpc = get aws_vpc_id_annotation m.annotations in
            let act = delete_aws_internet_gateway env c gateway vpc in
            let s' = record s { machine_obj = some m } in
            rw (h, f)
              (logged-asks (IsAccounted id) act _ s' (act s').0 (act s').1 refl
                ((delete_aws_internet_gateway-Answers env c gateway vpc).at s' (m, refl, v)).1
                (ignore_missing-asks (IsAccounted id) (λ h. env.delete_subnet h c id)
                  (deleted_subnet c id) (act s').1 (λ r. refl)))
      ]

  module _ (laws : Validates env) (vpc_id : String) where
    -- If the API server gives only machines that name their driver and their secret, and such a machine
    -- is in memory, with a region, then a subnet that EC2 creates is asked to be deleted, or a machine is
    -- asked to be annotated with it, whatever fails after it.
    pub create_aws_subnet-IsAccounted :
        (s : State) (m : Machine) (id : String)
        → s.machine_obj ≡ some m
        → IsValid m
        → is_empty (get region_parameter m.spec.parameters) ≡ false
        → env.create_subnet s.log c aws_vpc_cidr vpc_id
            (get region_parameter m.spec.parameters <> default_zone)
          ≡ ok id
        → Any (IsAccounted id) (create_aws_subnet env c vpc_id s).1.log
    unfolding create_aws_subnet parameter machine call pure ◌>>=◌
    create_aws_subnet-IsAccounted s m id has valid region made =
        let act = create_aws_internet_gateway env c vpc_id in
        let zone = get region_parameter m.spec.parameters <> default_zone in
        let s' : State = record {
          machine_obj = some m;
          log = created_subnet c aws_vpc_cidr vpc_id zone (ok id) ∷ s.log;
        } in
        let (held, answers) =
          (create_aws_internet_gateway-Answers env laws c vpc_id).at s' (m, refl, valid) in
        let (m', has', valid') = held in
        rw (has, region, made)
          (or_undo-asks (IsAccounted id) act (delete_aws_subnet env c id)
            (λ _. patch_annotation env aws_subnet_id_annotation id) s' (act s').0 (act s').1 refl
            answers (delete_aws_subnet-asks id (act s').1 held)
            (patch_annotation-asks (IsAccounted id) env aws_subnet_id_annotation id m' (act s').1
              has' (λ r. (refl, refl))))
