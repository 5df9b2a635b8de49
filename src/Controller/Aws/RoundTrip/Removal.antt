-- ===== src/Controller/Aws/RoundTrip/Removal.antt =====
-- The removal of a network, pkg/controller/aws.go.
use docker_machine_operator.Base.{refl, List, ◌≡◌, ◌∙◌, false, none, [], ◌∷◌}
use docker_machine_operator.Go.Error.{ok}
use docker_machine_operator.Go.Map.{get}
use docker_machine_operator.Go.Text.{is_empty}
use docker_machine_operator.Api.Types.{Machine}
use docker_machine_operator.Env.Event.{
  History, Handle, deleted_vpc, deleted_subnet, deleted_gateway, detached_gateway, deleted_route,
  described_security_groups, SecurityGroup, deleted_security_group,
}
use docker_machine_operator.Env.{Env}
use docker_machine_operator.Effect.{done, pure, skip}
use docker_machine_operator.Effect.Returns.{done-bind}
use docker_machine_operator.Controller.Aws.{
  aws_vpc_id_annotation, aws_subnet_id_annotation, aws_internet_gateway_id_annotation,
  allow_all_ips,
}
use docker_machine_operator.Controller.Aws.Gateway.{
  delete_aws_route, detach_internet_gateway_to_vpc, delete_aws_internet_gateway, delete_aws_subnet,
}
use docker_machine_operator.Controller.Aws.Vpc.{
  delete_groups, delete_security_group, delete_aws_vpc,
}
use docker_machine_operator.Controller.Aws.RoundTrip.{
  Network, Works, with_machine, listed, logged-done, ignore_missing-done, call-done,
  logged_call-done, call_error-done, annotation-done, find_route_table-works,
}

-- A machine that is annotated with the network.
pub record Names (n : Network) (m : Machine) : Type 0 where
  pub vpc : get aws_vpc_id_annotation m.annotations ≡ n.vpc
  pub subnet : get aws_subnet_id_annotation m.annotations ≡ n.subnet
  pub gateway : get aws_internet_gateway_id_annotation m.annotations ≡ n.gateway
  pub has_vpc : is_empty n.vpc ≡ false
  pub has_subnet : is_empty n.subnet ≡ false
  pub has_gateway : is_empty n.gateway ≡ false

module _ {env : Env} {c : Handle} {n : Network} (works : Works env c n) where
  abbrev pub gateway_removal : History → History
  gateway_removal h =
      deleted_gateway c n.gateway none
      ∷ detached_gateway c n.gateway n.vpc none
      ∷ deleted_route c allow_all_ips n.table none
      ∷ listed works h

  delete_route-works :
      (m : Machine) (h : History)
      → delete_aws_route env c n.vpc (with_machine m h)
        ≡ (done tt, with_machine m (deleted_route c allow_all_ips n.table none ∷ listed works h))
  unfolding delete_aws_route
  delete_route-works m h =
      done-bind _ _ (with_machine m h) _ _ (find_route_table-works works m h)
      ∙ call_error-done _ _ m (listed works h) (works.route_deleted (listed works h))

  delete_gateway-works :
      (m : Machine) (h : History)
      → delete_aws_internet_gateway env c n.gateway n.vpc (with_machine m h)
        ≡ (done tt, with_machine m (gateway_removal h))
  unfolding delete_aws_internet_gateway detach_internet_gateway_to_vpc
  delete_gateway-works m h =
      done-bind _ _ (with_machine m h) _ _ (logged-done _ _ _ (delete_route-works m h))
      ∙ (done-bind _ _ _ _ _ (
            logged-done _ _ _
              (call_error-done _ (detached_gateway c n.gateway n.vpc) m _ (works.detaches _)))
          ∙ ignore_missing-done _ _ _
              (call_error-done _ (deleted_gateway c n.gateway) m _ (works.gateway_deleted _)))

  delete_subnet-works :
      (m : Machine) (h : History)
      → Names n m
      → delete_aws_subnet env c n.subnet (with_machine m h)
        ≡ (done tt, with_machine m (deleted_subnet c n.subnet none ∷ gateway_removal h))
  unfolding delete_aws_subnet
  delete_subnet-works m h names =
      done-bind _ _ (with_machine m h) _ _ (annotation-done _ m h n.gateway names.gateway)
      ∙ (done-bind _ _ (with_machine m h) _ _ (annotation-done _ m h n.vpc names.vpc)
          ∙ rw (names.has_gateway) (
              done-bind _ _ (with_machine m h) _ _ (logged-done _ _ _ (delete_gateway-works m h))
              ∙ ignore_missing-done _ _ _
                  (call_error-done _ (deleted_subnet c n.subnet) m _ (works.subnet_deleted _))))

  -- Each group is asked to be deleted, whatever is answered.
  abbrev pub groups_asked : List SecurityGroup → History → History
  groups_asked [] h = h
  groups_asked (sg ∷ groups) h =
      groups_asked groups
        (deleted_security_group c sg.group_id (env.delete_security_group h c sg.group_id) ∷ h)

  delete_groups-works :
      (groups : List SecurityGroup) (m : Machine) (h : History)
      → delete_groups env c groups (with_machine m h)
        ≡ (done tt, with_machine m (groups_asked groups h))
  unfolding delete_groups skip pure
  delete_groups-works [] m h = refl
  delete_groups-works (sg ∷ groups) m h =
      done-bind _ _ (with_machine m h) _ tt (
        logged_call-done (λ h. env.delete_security_group h c sg.group_id)
          (deleted_security_group c sg.group_id) m h)
      ∙ delete_groups-works groups m _

  -- The groups that are shown, and then each of them.
  abbrev pub groups_removal : History → History
  groups_removal h =
      groups_asked (works.groups h)
        (described_security_groups c "vpc-id" n.vpc (ok (works.groups h)) ∷ h)

  delete_security_group-works :
      (m : Machine) (h : History)
      → delete_security_group env c n.vpc (with_machine m h)
        ≡ (done tt, with_machine m (groups_removal h))
  unfolding delete_security_group
  delete_security_group-works m h =
      done-bind _ _ (with_machine m h) _ _ (
        call-done (λ h. env.describe_security_groups h c "vpc-id" n.vpc)
          (described_security_groups c "vpc-id" n.vpc) m h (works.groups h) (works.groups_shown h))
      ∙ delete_groups-works (works.groups h) m _

  abbrev pub removal : History → History
  removal h =
      deleted_vpc c n.vpc none ∷ groups_removal (deleted_subnet c n.subnet none ∷ gateway_removal h)

  pub delete_aws_vpc-works :
      (m : Machine) (h : History)
      → Names n m
      → delete_aws_vpc env c n.vpc (with_machine m h) ≡ (done tt, with_machine m (removal h))
  unfolding delete_aws_vpc
  delete_aws_vpc-works m h names =
      done-bind _ _ (with_machine m h) _ _ (annotation-done _ m h n.vpc names.vpc)
      ∙ rw (names.has_vpc) (
          done-bind _ _ (with_machine m h) _ _ (annotation-done _ m h n.subnet names.subnet)
          ∙ rw (names.has_subnet) (
              done-bind _ _ (with_machine m h) _ _
                (logged-done _ _ _ (delete_subnet-works m h names))
              ∙ (done-bind _ _ _ _ tt (delete_security_group-works m _)
                  ∙ ignore_missing-done _ _ _
                      (call_error-done _ (deleted_vpc c n.vpc) m _ (works.vpc_deleted _)))))
