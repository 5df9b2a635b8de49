-- ===== src/Controller/Create/Networked.antt =====
-- The creation of a machine on AWS, after its network, where the API server and EC2 answer
-- (pkg/controller/machine.go and aws.go).
use docker_machine_operator.Base.{
  String, ◌==◌, ◌≡◌, refl, ◌∙◌, true, false, some, none, [], ◌∷◌, ◌++◌, All, if◌then◌else◌,
}
use docker_machine_operator.Go.Map.{get}
use docker_machine_operator.Go.Text.{is_empty}
use docker_machine_operator.Api.Types.{Machine, LocalObjectReference}
use docker_machine_operator.Env.Event.{succeeded, History, Handle, ran}
use docker_machine_operator.Env.{Env}
use docker_machine_operator.Effect.{State, done, pure, deref, machine, ◌>>=◌}
use docker_machine_operator.Effect.Returns.{done-bind}
use docker_machine_operator.Controller.Secret.{aws_driver, driver_name}
use docker_machine_operator.Controller.Aws.{
  aws_vpc_id_annotation, aws_subnet_id_annotation, region_parameter, annotation_args,
}
use docker_machine_operator.Controller.Aws.Vpc.{create_aws_environment}
use docker_machine_operator.Controller.Aws.RoundTrip.{Network, Works, with_machine}
use docker_machine_operator.Controller.Aws.RoundTrip.Client.{Signs, client_log}
use docker_machine_operator.Controller.Aws.RoundTrip.Building.{networked, building}
use docker_machine_operator.Controller.Aws.RoundTrip.Whole.{built, networked-Names}
use docker_machine_operator.Controller.Args.Flags.{IsUsable}
use docker_machine_operator.Controller.Args.Line.{line}
use docker_machine_operator.Controller.Create.{
  machine_creation_timeout, is_created, create_prerequisites_for_machine, create_machine,
}
use docker_machine_operator.Controller.Create.Accepted.{
  Accepts, written, prepared, authorised, finished,
}
use docker_machine_operator.Controller.Create.Runs.{with_secret, create_machine-runs_from}

driver_name-done :
    (m : Machine) (h : History) (driver : LocalObjectReference)
    → m.spec.driver ≡ some driver
    → driver_name (with_machine m h) ≡ (done driver.name, with_machine m h)
unfolding driver_name machine deref pure ◌>>=◌
driver_name-done m h driver named = rw named refl

flag_args-given :
    (key a b : String)
    → a ≡ b
    → is_empty b ≡ false
    → (if is_empty a then [] else key ∷ a ∷ []) ≡ key ∷ b ∷ []
flag_args-given key a b e given = rw (e, given) refl

module _ (env : Env) (api : Accepts env) {c : Handle} {n : Network} (works : Works env c n) where
  prerequisites-met :
      {s' : State} (m : Machine) (h : History) (driver : LocalObjectReference)
      → m.spec.driver ≡ some driver
      → (driver.name == aws_driver) ≡ true
      → create_aws_environment env (with_machine m h) ≡ (done tt, s')
      → create_prerequisites_for_machine env (with_machine m h) ≡ (done tt, s')
  unfolding create_prerequisites_for_machine
  prerequisites-met m h driver named on_aws e =
      done-bind _ _ _ _ _ (driver_name-done m h driver named) ∙ rw on_aws e

  -- What the line of a machine with a network says of it.
  annotation_args-networked :
      (m : Machine)
      → is_empty n.vpc ≡ false
      → is_empty n.subnet ≡ false
      → is_empty n.gateway ≡ false
      → annotation_args (networked works m)
        ≡ "--amazonec2-vpc-id" ∷ n.vpc ∷ "--amazonec2-subnet-id" ∷ n.subnet ∷ []
  annotation_args-networked m v s g =
      let names = networked-Names works m v s g in
      λ i.
        flag_args-given "--amazonec2-vpc-id" _ n.vpc names.vpc v i
        ++ flag_args-given "--amazonec2-subnet-id" _ n.subnet names.subnet s i

  -- The machine with its network, and the calls up to where it has it.
  abbrev pub connected : Machine → Machine
  connected m = networked works (prepared env api m)

  abbrev pub connecting : (m : Machine) → Signs env c m.spec → History → History
  connecting m signs h =
      building works (prepared env api m)
        (client_log signs (written env api (prepared env api m) h))

  -- If the API server answers every read with a machine and takes every status and patch, EC2 takes the calls on the parts of the
  -- network, shows the new VPC as available within twelve looks and lists one route table for it, and
  -- the machine's secret opens a client and is usable, then a machine on AWS that is not created yet
  -- and has a region, no network and no script is created: its first conditions are written, the
  -- network is built and annotated, the credentials are written as ready, and `docker-machine create`
  -- is run with a line that has the flags for the new VPC and the new subnet; if that goes through, the
  -- machine is written as ready and no error is returned.
  pub create_machine-runs_networked :
      (m : Machine) (h : History) (driver : LocalObjectReference) (signs : Signs env c m.spec)
      (out text : String)
      → is_created env m ≡ false
      → m.spec.driver ≡ some driver
      → (driver.name == aws_driver) ≡ true
      → m.spec.script_ref ≡ none
      → is_empty (get region_parameter m.spec.parameters) ≡ false
      → get aws_vpc_id_annotation m.annotations ≡ ""
      → get aws_subnet_id_annotation m.annotations ≡ ""
      → is_empty n.vpc ≡ false
      → is_empty n.subnet ≡ false
      → is_empty n.gateway ≡ false
      → All (IsUsable driver.name) signs.secret
      → env.run
          (with_secret env api signs.ref signs.secret (connected m) (connecting m signs h))
          (some machine_creation_timeout)
          (line (connected m) driver.name signs.secret)
        ≡ succeeded out text
      → (create_machine env (with_machine m h) ≡ (
        done tt,
        with_machine (finished env api (authorised env api (connected m))) (
            written env api (finished env api (authorised env api (connected m))) (
              ran
                (some machine_creation_timeout)
                (line (connected m) driver.name signs.secret)
                (succeeded out text)
              ∷ with_secret env api signs.ref signs.secret (connected m) (connecting m signs h))),
      ))
        × (annotation_args (connected m)
            ≡ "--amazonec2-vpc-id" ∷ n.vpc ∷ "--amazonec2-subnet-id" ∷ n.subnet ∷ [])
  create_machine-runs_networked m h driver signs out text new named on_aws bare region no_vpc
        no_subnet v s g usable runs =
      (
        create_machine-runs_from env api m h driver signs.ref signs.secret out text new
            (prerequisites-met (prepared env api m) (written env api (prepared env api m) h) driver
              named on_aws
              (built works (prepared env api m) (written env api (prepared env api m) h) signs
                region no_vpc no_subnet))
            named bare signs.auth (signs.reads (connecting m signs h)) usable runs,
        annotation_args-networked (prepared env api m) v s g,
      )
