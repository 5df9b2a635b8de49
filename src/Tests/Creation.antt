-- ===== src/Tests/Creation.antt =====
-- The theorems on the creation of a machine, at concrete inputs.
use mathlib.Core.List.{Permᴰ}
use mathlib.Core.List.Permᴰ.{swap}
use docker_machine_operator.Base.{String, ◌≤◌, ◌+◌, ◌≡◌, refl, none, some, List, [], ◌∷◌}
use docker_machine_operator.Go.Error.{Error, ok}
use docker_machine_operator.Go.Base64.{encode_to_string}
use docker_machine_operator.Api.Types.{Machine, ObjectReference}
use docker_machine_operator.Env.Event.{succeeded, History, described_vpcs, got_secret, ran}
use docker_machine_operator.Env.{Env}
use docker_machine_operator.Effect.{State, done, failed, pure, ◌>>◌}
use docker_machine_operator.Controller.Status.{update_machine_status}
use docker_machine_operator.Controller.Aws.{aws_vpc_id_annotation}
use docker_machine_operator.Controller.Aws.Vpc.{create_aws_vpc}
use docker_machine_operator.Controller.Aws.Vpc.Stuck.{create_aws_vpc-stuck}
use docker_machine_operator.Go.Map.{GoMap}
use docker_machine_operator.Controller.Secret.{object_key}
use docker_machine_operator.Controller.Create.{create_machine, machine_creation_timeout}
use docker_machine_operator.Controller.Create.Accepted.{
  Accepts, written, prepared, creating, created,
}
use docker_machine_operator.Controller.Create.Runs.{create_machine-runs}
use docker_machine_operator.Controller.Args.{append_auth, get_machine_creation_args}
use docker_machine_operator.Controller.Args.Order.{append_auth-Perm}
use docker_machine_operator.Controller.Args.Line.{line, authorised, get_machine_creation_args_lem}
use docker_machine_operator.Controller.Reconcile.{reconcile}
use docker_machine_operator.Controller.Bounds.{host, creations}
use docker_machine_operator.Controller.Bounds.Whole.{reconcile-creates_once}
use docker_machine_operator.Tests.Fixtures.{env_of, fresh, key}

abbrev fresh_env : Env
fresh_env = env_of (ok fresh) none "0\n"

abbrev holding : Machine → State
holding m = record { machine_obj = some m; log = [] }

reconcile-creates_once_example :
    creations host (reconcile fresh_env key (holding fresh)).1.log ≤ 0 + 1
reconcile-creates_once_example = reconcile-creates_once fresh_env key host (holding fresh)

append_auth-Perm_example :
    (found : List String) × ((append_auth "azure" [] (("b", "2") ∷ ("a", "1") ∷ []) ≡ ok found)
      × Permᴰ ("--a" ∷ "1" ∷ "--b" ∷ "2" ∷ []) found)
unfolding append_auth
append_auth-Perm_example =
    append_auth-Perm "azure" (("a", "1") ∷ ("b", "2") ∷ []) (("b", "2") ∷ ("a", "1") ∷ [])
      ("--a" ∷ "1" ∷ "--b" ∷ "2" ∷ []) (swap refl refl) refl

get_machine_creation_args_example :
    get_machine_creation_args fresh_env (holding fresh)
    ≡ (update_machine_status fresh_env key
          >> pure (line fresh "google" (("google-application-credentials", "{}") ∷ [])))
        (authorised fresh_env
          (holding fresh)
          fresh
          (record { namespace = "default"; name = "auth" })
          (("google-application-credentials", "{}") ∷ []))
unfolding encode_to_string
get_machine_creation_args_example =
    get_machine_creation_args_lem fresh_env (holding fresh) (record { name = "google" }) refl refl
      refl refl refl ((refl, refl), tt)

-- A machine whose VPC was deleted.
abbrev orphan : Machine
orphan = record fresh { annotations = (aws_vpc_id_annotation, "vpc-2") ∷ [] }

create_aws_vpc-stuck_example :
    (e : Error) × (create_aws_vpc fresh_env 1 (holding orphan) ≡ (
      failed e,
      record {
        machine_obj = some orphan;
        log =
            described_vpcs 1
              ("vpc-2" ∷ [])
              (ok (record { vpc_id = "vpc-1"; state = "pending" } ∷ []))
            ∷ [];
      },
    ))
create_aws_vpc-stuck_example =
    create_aws_vpc-stuck fresh_env 1 (holding orphan) orphan "vpc-2"
      (ok (record { vpc_id = "vpc-1"; state = "pending" } ∷ [])) refl refl refl refl (refl, tt)

fresh_env-Accepts : Accepts fresh_env
fresh_env-Accepts = record { server = λ h. fresh; reads = λ h k. refl; commits = λ h old m. refl }

abbrev secret : GoMap
secret = ("google-application-credentials", "{}") ∷ []

abbrev reference : ObjectReference
reference = record { namespace = "default"; name = "auth" }

abbrev read_log : History
read_log =
    got_secret (object_key reference) (ok secret)
    ∷ written fresh_env fresh_env-Accepts (prepared fresh_env fresh_env-Accepts fresh) []

create_machine-runs_example : create_machine fresh_env (holding fresh) ≡ (
  done tt,
  record {
    machine_obj = some (created fresh_env fresh_env-Accepts fresh);
    log = written fresh_env fresh_env-Accepts (created fresh_env fresh_env-Accepts fresh) (
        ran (some machine_creation_timeout) (line fresh "google" secret) (succeeded "" "")
        ∷ written fresh_env fresh_env-Accepts
            (creating fresh_env fresh_env-Accepts fresh)
            read_log);
  },
)
unfolding encode_to_string
create_machine-runs_example =
    create_machine-runs fresh_env fresh_env-Accepts fresh [] (record { name = "google" }) reference
      secret "" "" refl refl refl refl refl refl ((refl, refl), tt) refl
