-- ===== src/Tests/Reconcile.antt =====
-- The theorems on scripts without a result and on gateways, at concrete states.
use docker_machine_operator.Base.{◌≡◌, refl, none, some, [], ◌∷◌, Any, arith}
use docker_machine_operator.Go.Error.{ok}
use docker_machine_operator.Go.Text.{codes}
use docker_machine_operator.Go.Number.{atoi}
use docker_machine_operator.Api.Types.{LocalObjectReference, Machine, set_conditions}
use docker_machine_operator.Api.Names.{cluster_operation_complete}
use docker_machine_operator.Env.Event.{got_machine, opened_file, History}
use docker_machine_operator.Env.{Env}
use docker_machine_operator.Effect.{failed}
use docker_machine_operator.Controller.Aws.Gateway.{create_aws_internet_gateway}
use docker_machine_operator.Controller.Aws.Gateway.Rollback.{
  IsAccounted, create_aws_internet_gateway-IsAccounted,
}
use docker_machine_operator.Controller.Script.{is_script_finished, result_file, create_error}
use docker_machine_operator.Controller.Script.Outcome.{
  before, after_copy, is_script_finished-no_number,
}
use docker_machine_operator.Tests.Fixtures.{env_of, ready, key}

abbrev google : LocalObjectReference
google = record { name = "google" }

abbrev read_log : History
read_log = got_machine key (ok ready) ∷ []

abbrev zero_env : Env
zero_env = env_of (ok ready) none "0\n"

abbrev empty_env : Env
empty_env = env_of (ok ready) none "ok\n"

abbrev finished : Machine
finished = set_conditions ready (zero_env.mark_true ready cluster_operation_complete)

ok_no_number : atoi (codes "ok") ≡ none
unfolding atoi
ok_no_number = refl

is_script_finished-no_number_example :
    is_script_finished empty_env (before empty_env ready [] google) ≡ (
      failed create_error,
      record {
        machine_obj = some ready;
        log = opened_file result_file (ok "ok\n") ∷ after_copy empty_env ready [] google;
      },
    )
is_script_finished-no_number_example =
    is_script_finished-no_number empty_env ready [] google (codes "ok" ∷ []) refl refl refl refl
      refl refl ((((refl, refl), ((refl, refl), tt)), omega arith), tt) (ok_no_number, tt)

create_aws_internet_gateway-IsAccounted_example :
    Any
      (IsAccounted "igw-1")
      (create_aws_internet_gateway zero_env 1 "vpc-1"
        (record { machine_obj = some ready; log = [] })).1.log
create_aws_internet_gateway-IsAccounted_example =
    create_aws_internet_gateway-IsAccounted zero_env 1 "vpc-1"
      (record { machine_obj = some ready; log = [] }) refl refl
