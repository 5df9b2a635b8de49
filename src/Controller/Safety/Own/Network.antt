-- ===== src/Controller/Safety/Own/Network.antt =====
-- The clean-up of a machine's network and resource group (pkg/controller/aws.go, azure.go).
use mathlib.Core.Path.{subst}
use docker_machine_operator.Base.{
  String, ◌==◌, refl, sym, inl, inr, Option, List, [], ◌∷◌, Bool-cases, eq_iff, test-ne,
}
use docker_machine_operator.Go.Map.{GoMap, get, find}
use docker_machine_operator.Api.Types.{Machine, ObjectReference}
use docker_machine_operator.Env.Event.{Handle, SecurityGroup}
use docker_machine_operator.Env.{Env}
use docker_machine_operator.Effect.Within.{
  Within, Within-bind, Within-machine_bind, Within-call, Within-call_error, Within-if, Within-skip,
  within_rules,
}
use docker_machine_operator.Controller.Secret.{get_secret}
use docker_machine_operator.Controller.Aws.{
  aws_vpc_id_annotation, aws_subnet_id_annotation, aws_internet_gateway_id_annotation,
  get_aws_credentials, aws_ec2_client,
}
use docker_machine_operator.Controller.Aws.Gateway.{
  find_route_table, delete_aws_route, detach_internet_gateway_to_vpc, delete_aws_internet_gateway,
  delete_aws_subnet,
}
use docker_machine_operator.Controller.Aws.Vpc.{
  delete_groups, delete_security_group, delete_aws_vpc, cleanup_aws_resources,
}
use docker_machine_operator.Controller.Azure.{
  or_default, azure_resource_group_param, get_resource_group_name, get_azure_credential,
  delete_azure_resource_group,
}
use docker_machine_operator.Controller.Safety.Own.{
  IsOwn, IsGroupOf, by_default, here, there, annotation_bind-Within, logged-Within,
  ignore_missing-Within, own_rules, nothing,
}

group_of : (m : GoMap) → IsGroupOf m (or_default (find azure_resource_group_param m))
group_of [] = by_default
group_of ((key, value) ∷ m) = elim (Bool-cases (key == azure_resource_group_param)) [
  | inl t ↦ rw t (
      subst (λ k. IsGroupOf ((k, value) ∷ m) value)
        (sym ((eq_iff key azure_resource_group_param).0 t)) (here value m))
  | inr f ↦ rw f (there key value _ m (test-ne key azure_resource_group_param f) (group_of m))
]

module _ (env : Env) (m : Machine) where
  get_secret-Within : (ref : Option ObjectReference) → Within m (IsOwn m) (get_secret env ref)
  unfolding get_secret
  get_secret-Within ref = search (within_rules, nothing)

  get_aws_credentials-Within : Within m (IsOwn m) (get_aws_credentials env)
  unfolding get_aws_credentials
  get_aws_credentials-Within = search (own_rules, get_secret-Within)

  aws_ec2_client-Within : Within m (IsOwn m) (aws_ec2_client env)
  unfolding aws_ec2_client
  aws_ec2_client-Within = search (own_rules, get_aws_credentials-Within, nothing)

  get_azure_credential-Within : Within m (IsOwn m) (get_azure_credential env)
  unfolding get_azure_credential
  get_azure_credential-Within = search (own_rules, get_secret-Within)

  pub delete_azure_resource_group-Within : Within m (IsOwn m) (delete_azure_resource_group env)
  unfolding delete_azure_resource_group get_resource_group_name
  delete_azure_resource_group-Within = Within-bind _ _ get_azure_credential-Within λ azure_cred.
      Within-bind _ _ (Within-call _ _ (λ r. tt)) λ cred.
        Within-bind _ _ (Within-call _ _ (λ r. tt)) λ groups. Within-machine_bind _ (
          Within-bind _ _ (Within-call _ _ (λ r. group_of m.spec.parameters))
            λ poller. Within-call_error _ _ (λ r. tt))

  module _ (c : Handle) where
    -- The parts of the network that the annotations name.
    abbrev vpc : String
    vpc = get aws_vpc_id_annotation m.annotations

    abbrev gateway : String
    gateway = get aws_internet_gateway_id_annotation m.annotations

    delete_aws_route-Within : Within m (IsOwn m) (delete_aws_route env c vpc)
    unfolding delete_aws_route find_route_table
    delete_aws_route-Within = search (own_rules, nothing) depth 9

    delete_aws_internet_gateway-Within :
        Within m (IsOwn m) (delete_aws_internet_gateway env c gateway vpc)
    unfolding delete_aws_internet_gateway detach_internet_gateway_to_vpc
    delete_aws_internet_gateway-Within =
        Within-bind _ _ (logged-Within _ delete_aws_route-Within) λ _.
          Within-bind _ _ (logged-Within _ (Within-call_error _ _ (λ r. (refl, refl))))
            λ _. ignore_missing-Within _ (Within-call_error _ _ (λ r. refl))

    delete_aws_subnet-Within :
        Within m (IsOwn m) (delete_aws_subnet env c (get aws_subnet_id_annotation m.annotations))
    unfolding delete_aws_subnet
    delete_aws_subnet-Within = annotation_bind-Within _ _ (
        annotation_bind-Within _ _ (
          Within-bind _ _
            (Within-if _ _ _ Within-skip (logged-Within _ delete_aws_internet_gateway-Within))
            λ _. ignore_missing-Within _ (Within-call_error _ _ (λ r. refl))))

    delete_groups-Within :
        (groups : List SecurityGroup) → Within m (IsOwn m) (delete_groups env c groups)
    unfolding delete_groups
    delete_groups-Within [] = search within_rules
    delete_groups-Within (g ∷ groups) =
        Within-bind _ _ (logged-Within _ (Within-call_error _ _ (λ r. tt)))
          λ _. delete_groups-Within groups

    delete_aws_vpc-Within : Within m (IsOwn m) (delete_aws_vpc env c vpc)
    unfolding delete_aws_vpc delete_security_group
    delete_aws_vpc-Within = annotation_bind-Within _ _ (
        Within-if _ _ _ Within-skip (
          annotation_bind-Within _ _ (
            Within-bind _ _ (Within-if _ _ _ Within-skip (logged-Within _ delete_aws_subnet-Within))
              λ _.
                Within-bind _ _ (Within-bind _ _ (Within-call _ _ (λ r. refl)) delete_groups-Within)
                  λ _. ignore_missing-Within _ (Within-call_error _ _ (λ r. refl)))))

  pub cleanup_aws_resources-Within : Within m (IsOwn m) (cleanup_aws_resources env)
  unfolding cleanup_aws_resources
  cleanup_aws_resources-Within =
      Within-bind _ _ aws_ec2_client-Within
        λ c. annotation_bind-Within _ _ (delete_aws_vpc-Within c)
