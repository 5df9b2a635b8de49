-- ===== src/Controller/Aws/RoundTrip/Whole.antt =====
-- A network that is built and then removed, pkg/controller/aws.go.
use docker_machine_operator.Base.{refl, ◌≡◌, ◌∙◌, false}
use docker_machine_operator.Go.Map.{get, put, get-put}
use docker_machine_operator.Go.Text.{is_empty}
use docker_machine_operator.Api.Types.{Machine}
use docker_machine_operator.Env.Event.{History, Handle}
use docker_machine_operator.Env.{Env}
use docker_machine_operator.Effect.{done, machine, ◌>>◌}
use docker_machine_operator.Effect.Returns.{done-bind}
use docker_machine_operator.Controller.Aws.{
  aws_vpc_id_annotation, aws_subnet_id_annotation, aws_internet_gateway_id_annotation,
  region_parameter,
}
use docker_machine_operator.Controller.Aws.Vpc.{create_aws_environment, cleanup_aws_resources}
use docker_machine_operator.Controller.Aws.RoundTrip.{Network, Works, with_machine, annotation-done}
use docker_machine_operator.Controller.Aws.RoundTrip.Client.{
  Signs, client_log, aws_ec2_client-works,
}
use docker_machine_operator.Controller.Aws.RoundTrip.Building.{
  networked, building, create_aws_vpc-works,
}
use docker_machine_operator.Controller.Aws.RoundTrip.Removal.{Names, removal, delete_aws_vpc-works}

machine-done : (m : Machine) (h : History) → machine (with_machine m h) ≡ (done m, with_machine m h)
unfolding machine
machine-done m h = refl

module _ {env : Env} {c : Handle} {n : Network} (works : Works env c n) where
  pub networked-Names :
      (m : Machine)
      → is_empty n.vpc ≡ false
      → is_empty n.subnet ≡ false
      → is_empty n.gateway ≡ false
      → Names n (networked works m)
  networked-Names m v s g =
      let one = put aws_vpc_id_annotation n.vpc m.annotations in
      let two = put aws_internet_gateway_id_annotation n.gateway one in
      record {
        vpc =
            get-put aws_subnet_id_annotation aws_vpc_id_annotation n.subnet two
            ∙ (get-put aws_internet_gateway_id_annotation aws_vpc_id_annotation n.gateway one
                ∙ get-put aws_vpc_id_annotation aws_vpc_id_annotation n.vpc m.annotations);
        subnet = get-put aws_subnet_id_annotation aws_subnet_id_annotation n.subnet two;
        gateway =
            get-put aws_subnet_id_annotation aws_internet_gateway_id_annotation n.subnet two
            ∙ get-put aws_internet_gateway_id_annotation aws_internet_gateway_id_annotation
                n.gateway one;
        has_vpc = v;
        has_subnet = s;
        has_gateway = g;
      }

  pub built :
      (m : Machine) (h : History) (signs : Signs env c m.spec)
      → is_empty (get region_parameter m.spec.parameters) ≡ false
      → get aws_vpc_id_annotation m.annotations ≡ ""
      → get aws_subnet_id_annotation m.annotations ≡ ""
      → create_aws_environment env (with_machine m h)
        ≡ (done tt, with_machine (networked works m) (building works m (client_log signs h)))
  unfolding create_aws_environment
  built m h signs region no_vpc no_subnet =
      done-bind _ _ (with_machine m h) _ m (machine-done m h)
      ∙ rw no_vpc (
          done-bind _ _ (with_machine m h) _ c (aws_ec2_client-works env c m signs h)
          ∙ create_aws_vpc-works works m (client_log signs h) region no_vpc no_subnet)

  -- If EC2 takes the calls on the parts of the network, shows the new VPC as available within twelve
  -- looks and lists one route table for it, the API server stores every patch, and the machine's secret
  -- opens a client, then for a machine with a region and no network, the network is built and its parts
  -- are annotated; and the clean-up that follows deletes the route, the gateway and the subnet, asks for
  -- each security group of the VPC to be deleted, whatever is answered, and deletes the VPC, in this
  -- order, and returns no error.
  pub create_aws_environment-cleanup_aws_resources :
      (m : Machine) (h : History) (signs : Signs env c m.spec)
      → is_empty (get region_parameter m.spec.parameters) ≡ false
      → get aws_vpc_id_annotation m.annotations ≡ ""
      → get aws_subnet_id_annotation m.annotations ≡ ""
      → is_empty n.vpc ≡ false
      → is_empty n.subnet ≡ false
      → is_empty n.gateway ≡ false
      → (create_aws_environment env >> cleanup_aws_resources env) (with_machine m h) ≡ (
        done tt,
        with_machine
            (networked works m)
            (removal works (client_log signs (building works m (client_log signs h)))),
      )
  unfolding create_aws_environment cleanup_aws_resources
  create_aws_environment-cleanup_aws_resources m h signs region no_vpc no_subnet v s g =
      let names = networked-Names m v s g in
      done-bind (create_aws_environment env) (λ _. cleanup_aws_resources env) (with_machine m h) _
        tt (built m h signs region no_vpc no_subnet)
      ∙ (done-bind _ _ _ _ _ (
            aws_ec2_client-works env c (networked works m) signs
              (building works m (client_log signs h)))
          ∙ (done-bind _ _ _ _ _ (
                annotation-done aws_vpc_id_annotation (networked works m)
                  (client_log signs (building works m (client_log signs h))) n.vpc (names.vpc))
              ∙ delete_aws_vpc-works works (networked works m) _ names))
