-- ===== src/Controller/Args/Line.antt =====
-- The whole line of `docker-machine create`, pkg/controller/machine.go.
use docker_machine_operator.Base.{String, ◌≡◌, refl, none, some, List, [], ◌∷◌, ◌++◌, All}
use docker_machine_operator.Go.Error.{ok}
use docker_machine_operator.Go.Map.{GoMap, get}
use docker_machine_operator.Api.Types.{
  Machine, ObjectReference, LocalObjectReference, key_of, set_conditions,
}
use docker_machine_operator.Api.Names.{auth_data_ready}
use docker_machine_operator.Env.Event.{got_secret}
use docker_machine_operator.Env.{Env}
use docker_machine_operator.Effect.{
  State, pure, call, attempt, machine, set_machine, deref, lift, ◌>>=◌, ◌>>◌,
}
use docker_machine_operator.Controller.Status.{mark_true, update_machine_status}
use docker_machine_operator.Controller.Secret.{driver_name, object_key, get_secret}
use docker_machine_operator.Controller.Aws.{get_annotations_args_for_aws}
use docker_machine_operator.Controller.Region.{ami_ids}
use docker_machine_operator.Controller.Args.{
  get_auth_secret_args, recorded, script_args, auth_args, get_machine_creation_args,
}
use docker_machine_operator.Controller.Args.Parts.{
  credential, network_args, image_args, get_ami_id_arg_lem,
}
use docker_machine_operator.Controller.Args.Flags.{
  flags_of, same_text, append_parameters_lem, IsUsable, append_auth-eq-ok,
}

-- The line for a machine without a script: its driver, its parameters, its credentials, its image, its
-- network, and its name.
abbrev pub line : Machine → String → GoMap → List String
line m driver secret =
    (("create" ∷ "--driver" ∷ driver ∷ []) ++ flags_of same_text m.spec.parameters)
    ++ ([]
        ++ (flags_of (credential driver) secret
            ++ (image_args (get "amazonec2-region" m.spec.parameters) ami_ids
                ++ (network_args driver m ++ m.name ∷ []))))

-- The machine is told to have its credentials, and its secret was read.
abbrev pub authorised : Env → State → Machine → ObjectReference → GoMap → State
authorised env s m ref secret = record {
  machine_obj = some (set_conditions m (env.mark_true m auth_data_ready));
  log = got_secret (object_key ref) (ok secret) ∷ s.log;
}

module _ (env : Env) (s : State) {m : Machine} {ref : ObjectReference} {secret : GoMap} where
  pub get_machine_creation_args_lem :
      (driver : LocalObjectReference)
      → s.machine_obj ≡ some m
      → m.spec.driver ≡ some driver
      → m.spec.script_ref ≡ none
      → m.spec.auth_secret ≡ some ref
      → env.get_secret s.log (object_key ref) ≡ ok secret
      → All (IsUsable driver.name) secret
      → get_machine_creation_args env s
        ≡ (update_machine_status env (key_of m) >> pure (line m driver.name secret))
            (authorised env s m ref secret)
  unfolding get_machine_creation_args script_args auth_args get_auth_secret_args recorded
      get_annotations_args_for_aws driver_name get_secret mark_true pure call attempt machine
      set_machine deref lift ◌>>=◌
  get_machine_creation_args_lem driver has named bare auth found usable =
      let accepted = (append_auth-eq-ok driver.name secret _).1 (usable, refl) in
      rw (has, named, bare, auth, found, accepted, append_parameters_lem, get_ami_id_arg_lem) refl
