-- ===== src/Controller/Aws/RoundTrip/Building.antt =====
-- The building of a network, pkg/controller/aws.go.
use docker_machine_operator.Base.{
  ℕ, zero, suc, ◌+◌, ◌*◌, ◌/◌, ◌<◌, ◌≤◌, leb, true, ◌==◌, arith, String, ◌<>◌, ◌≡◌, refl, ◌∙◌,
  eq_refl, false, none, ◌∷◌,
}
use docker_machine_operator.Go.Error.{ok}
use docker_machine_operator.Go.Map.{get, get-put}
use docker_machine_operator.Go.Text.{is_empty}
use docker_machine_operator.Api.Types.{Machine}
use docker_machine_operator.Env.Event.{
  History, Handle, created_vpc, created_subnet, created_gateway, attached_gateway, created_route,
}
use docker_machine_operator.Env.{Env}
use docker_machine_operator.Effect.{done, pure, skip, lift, call, call_value, ◌>>=◌}
use docker_machine_operator.Effect.Returns.{done-bind}
use docker_machine_operator.Controller.Aws.{
  aws_vpc_id_annotation, aws_subnet_id_annotation, aws_internet_gateway_id_annotation, aws_vpc_cidr,
  allow_all_ips, default_zone, region_parameter,
}
use docker_machine_operator.Controller.Aws.Gateway.{
  find_route_table, create_aws_route, attach_internet_gateway_to_vpc, create_aws_internet_gateway,
  create_aws_subnet,
}
use docker_machine_operator.Controller.Wait.{wait_loop, wait_for_state, second, sleep}
use docker_machine_operator.Controller.Aws.Vpc.{get_vpc, is_available, new_vpc, create_aws_vpc}
use docker_machine_operator.Controller.Aws.RoundTrip.{
  Network, Works, noted, with_machine, patch_event, listed, looked, paused, Becomes, looks,
  or_undo-done, call-done, call_error-done, parameter-done, annotation-done, patch_annotation-works,
  find_route_table-works,
}

on_time_of : (t : ℕ) → t ≤ 60 * second → leb t (60 * second) ≡ true
on_time_of t h = ground arith

module _ {env : Env} {c : Handle} {n : Network} (works : Works env c n) where
  create_aws_route-works :
      (m : Machine) (h : History)
      → create_aws_route env c n.vpc n.gateway (with_machine m h) ≡ (
        done tt,
        with_machine m (created_route c allow_all_ips n.gateway n.table none ∷ listed works h),
      )
  unfolding create_aws_route
  create_aws_route-works m h =
      done-bind (find_route_table env c n.vpc) _ (with_machine m h) _ _
        (find_route_table-works works m h)
      ∙ call_error-done _ _ m (listed works h) (works.route_made (listed works h))

  -- The calls that make the gateway, and the machine after them.
  abbrev pub gateway_log : Machine → History → History
  gateway_log m h =
      patch_event aws_internet_gateway_id_annotation n.gateway m
      ∷ created_route c allow_all_ips n.gateway n.table none
      ∷ listed works
          (attached_gateway c n.gateway n.vpc none ∷ created_gateway c (ok n.gateway) ∷ h)

  abbrev pub with_gateway : Machine → Machine
  with_gateway m = noted aws_internet_gateway_id_annotation n.gateway m

  create_gateway-works :
      (m : Machine) (h : History)
      → create_aws_internet_gateway env c n.vpc (with_machine m h)
        ≡ (done tt, with_machine (with_gateway m) (gateway_log m h))
  unfolding create_aws_internet_gateway attach_internet_gateway_to_vpc
  create_gateway-works m h =
      done-bind _ _ (with_machine m h) _ _ (
        call-done (λ h. env.create_internet_gateway h c) (created_gateway c) m h n.gateway
          (works.gateway_made h))
      ∙ (done-bind _ _ (with_machine m (created_gateway c (ok n.gateway) ∷ h)) _ tt (
            or_undo-done _ _ _ _
              (call_error-done _ (attached_gateway c n.gateway n.vpc) m _ (works.attaches _)))
          ∙ (done-bind _ _ _ _ tt (
                or_undo-done _ _ _ _ (
                  create_aws_route-works m (
                    attached_gateway c n.gateway n.vpc none
                    ∷ created_gateway c (ok n.gateway)
                    ∷ h)))
              ∙ patch_annotation-works works aws_internet_gateway_id_annotation n.gateway m _))

  -- The same for the subnet, which holds the gateway.
  abbrev pub zone_of : Machine → String
  zone_of m = get region_parameter m.spec.parameters <> default_zone

  abbrev pub subnet_log : Machine → History → History
  subnet_log m h =
      patch_event aws_subnet_id_annotation n.subnet (with_gateway m)
      ∷ gateway_log m (created_subnet c aws_vpc_cidr n.vpc (zone_of m) (ok n.subnet) ∷ h)

  abbrev pub with_subnet : Machine → Machine
  with_subnet m = noted aws_subnet_id_annotation n.subnet (with_gateway m)

  create_subnet-works :
      (m : Machine) (h : History)
      → is_empty (get region_parameter m.spec.parameters) ≡ false
      → create_aws_subnet env c n.vpc (with_machine m h)
        ≡ (done tt, with_machine (with_subnet m) (subnet_log m h))
  unfolding create_aws_subnet
  create_subnet-works m h region =
      done-bind _ _ (with_machine m h) _ _ (parameter-done region_parameter m h)
      ∙ rw region (
          done-bind _ _ (with_machine m h) _ _ (
            call-done (λ h. env.create_subnet h c aws_vpc_cidr n.vpc (zone_of m))
              (created_subnet c aws_vpc_cidr n.vpc (zone_of m)) m h n.subnet
              (works.subnet_made h (zone_of m)))
          ∙ (done-bind _ _ _ _ tt (
                or_undo-done _ _ _ _ (
                  create_gateway-works m
                    (created_subnet c aws_vpc_cidr n.vpc (zone_of m) (ok n.subnet) ∷ h)))
              ∙ patch_annotation-works works aws_subnet_id_annotation n.subnet (with_gateway m) _))

  -- The calls up to where the new VPC is annotated, and all that make it.
  abbrev pub annotated : Machine → History → History
  annotated m h =
      patch_event aws_vpc_id_annotation n.vpc m
      ∷ created_vpc c aws_vpc_cidr (ok (record { vpc_id = n.vpc; state = "pending" }))
      ∷ h

  abbrev pub vpc_log : Machine → History → History
  vpc_log m h = looks c n.vpc works.state (works.waits (annotated m h)) (annotated m h)

  abbrev pub with_vpc : Machine → Machine
  with_vpc m = noted aws_vpc_id_annotation n.vpc m

  get_vpc-works :
      (m : Machine) (h : History)
      → get_vpc env c n.vpc (with_machine m h) ≡ (
        done (record { vpc_id = n.vpc; state = works.state h }),
        with_machine m (looked c n.vpc works.state h),
      )
  unfolding get_vpc call lift ◌>>=◌
  get_vpc-works m h = rw (works.vpc_shown h, eq_refl n.vpc) refl

  is_available-works :
      (m : Machine) (h : History)
      → is_available env c n.vpc (with_machine m h)
        ≡ (done (works.state h == "available"), with_machine m (looked c n.vpc works.state h))
  unfolding is_available pure ◌>>=◌
  is_available-works m h = rw (get_vpc-works m h) refl

  -- The loop goes on until the VPC is available, if the time for the looks is there.
  wait_loop-works :
      (k fuel t : ℕ) (m : Machine) (h : History)
      → k < fuel
      → t + k * (5 * second) ≤ 60 * second
      → Becomes c n.vpc works.state k h
      → wait_loop fuel (5 * second) (60 * second) (is_available env c n.vpc) t (with_machine m h)
        ≡ (done tt, with_machine m (looks c n.vpc works.state k h))
  unfolding wait_loop skip pure ◌>>=◌ sleep call_value
  wait_loop-works zero zero t m h f l b = absurd (omega arith)
  wait_loop-works (suc k) zero t m h f l b = absurd (omega arith)
  wait_loop-works zero (suc fuel) t m h f l b =
      let on_time : leb t (60 * second) ≡ true = on_time_of t (omega arith) in
      rw (on_time, is_available-works m h, b) refl
  wait_loop-works (suc k) (suc fuel) t m h f l (pending, b) =
      let on_time : leb t (60 * second) ≡ true = on_time_of t (omega arith) in
      rw (on_time, is_available-works m h, pending)
        (wait_loop-works k fuel (t + 5 * second) m (paused c n.vpc works.state h) (omega arith)
          (omega arith) b)

  wait_available-works :
      (m : Machine) (h : History)
      → wait_for_state (5 * second) (60 * second) (is_available env c n.vpc) (with_machine m h)
        ≡ (done tt, with_machine m (looks c n.vpc works.state (works.waits h) h))
  unfolding wait_for_state
  wait_available-works m h =
      let few = works.few h in
      wait_loop-works (works.waits h) ((60 * second) / (5 * second) + 2) 0 m h (omega arith)
        (omega arith) (works.becomes h)

  new_vpc-works :
      (m : Machine) (h : History)
      → new_vpc env c (with_machine m h) ≡ (done n.vpc, with_machine (with_vpc m) (vpc_log m h))
  unfolding new_vpc pure
  new_vpc-works m h =
      done-bind _ _ (with_machine m h) _ _ (
        call-done (λ h. env.create_vpc h c aws_vpc_cidr) (created_vpc c aws_vpc_cidr) m h _
          (works.vpc_made h))
      ∙ (done-bind _ _ _ _ tt (patch_annotation-works works aws_vpc_id_annotation n.vpc m _)
          ∙ done-bind _ _ _ _ tt
              (or_undo-done _ _ _ _ (wait_available-works (with_vpc m) (annotated m h))))

  -- The whole network, of a machine that has none.
  abbrev pub networked : Machine → Machine
  networked m = with_subnet (with_vpc m)

  abbrev pub building : Machine → History → History
  building m h = subnet_log (with_vpc m) (vpc_log m h)

  pub create_aws_vpc-works :
      (m : Machine) (h : History)
      → is_empty (get region_parameter m.spec.parameters) ≡ false
      → get aws_vpc_id_annotation m.annotations ≡ ""
      → get aws_subnet_id_annotation m.annotations ≡ ""
      → create_aws_vpc env c (with_machine m h)
        ≡ (done tt, with_machine (networked m) (building m h))
  unfolding create_aws_vpc
  create_aws_vpc-works m h region no_vpc no_subnet =
      done-bind _ _ (with_machine m h) _ _ (annotation-done aws_vpc_id_annotation m h "" no_vpc)
      ∙ (done-bind _ _ (with_machine m h) _ _ (new_vpc-works m h)
          ∙ (done-bind _ _ _ _ _ (
                annotation-done aws_subnet_id_annotation (with_vpc m) (vpc_log m h) "" (
                  get-put aws_vpc_id_annotation aws_subnet_id_annotation n.vpc m.annotations
                  ∙ no_subnet))
              ∙ or_undo-done _ _ _ _ (create_subnet-works (with_vpc m) (vpc_log m h) region)))
