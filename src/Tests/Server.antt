-- ===== src/Tests/Server.antt =====
-- The theorems on the start of the operator, with an API server whose manager cannot set up the
-- controller of machines.
use docker_machine_operator.Base.{◌==◌, ℕ, ◌≡◌, refl, none, some, [], head, tail, if◌then◌else◌}
use docker_machine_operator.Go.Error.{other, ok}
use docker_machine_operator.Server.Options.{
  OperatorOptions, new_operator_options, text, float, as_text, as_float, var, Flag,
}
use docker_machine_operator.Server.Manager.{ManagerEnv}
use docker_machine_operator.Server.Run.{exited, or_exit, ◌>>=◌, run}
use docker_machine_operator.Server.Run.Boot.{Boots, plan, run-Boots}
use docker_machine_operator.Server.Run.Ignored.{add_go_flags-IsIgnored}

abbrev manager_env : ManagerEnv ℕ ℕ
manager_env = record {
  to_float32 = λ x. x;
  build_config = λ log master path. ok 0;
  new_manager = λ log c o. ok 1;
  complete = λ log mgr kind. if kind == "Machine" then some (other "no kind") else none;
  add_healthz_check = λ log mgr name. none;
  add_readyz_check = λ log mgr name. none;
  start = λ log mgr. none;
}

abbrev options : OperatorOptions ℕ
options = new_operator_options 1_000_000

abbrev license_file : Flag ℕ
license_file =
    var text as_text "license-file" (λ o. o.license_file) (λ x o. record o { license_file = x })

abbrev qps : Flag ℕ
qps = var float as_float "qps" (λ o. o.qps) (λ x o. record o { qps = x })

run-Boots_example : Boots plan [] (run manager_env options []).1 (run manager_env options []).0
run-Boots_example = run-Boots manager_env options []

run-exited : (run manager_env options []).0 ≡ exited 1
unfolding run ◌>>=◌ or_exit
run-exited = refl

add_go_flags-IsIgnored_example :
    run manager_env (record options { license_file = "key" }) [] ≡ run manager_env options []
add_go_flags-IsIgnored_example =
    add_go_flags-IsIgnored manager_env license_file (text "key") options
      (record options { license_file = "key" }) [] (tail (tail (head refl))) refl refl
