-- ===== src/Tests/Scripted.antt =====
-- The theorems on machines with a startup script, at concrete inputs.
use docker_machine_operator.Base.{
  String, ◌<>◌, ◌==◌, ◌≡◌, ◌≢◌, refl, none, some, [], ◌∷◌, if◌then◌else◌,
}
use docker_machine_operator.Go.Base64.{encode_to_string}
use docker_machine_operator.Go.Error.{not_exist, ok}
use docker_machine_operator.Go.Map.{GoMap}
use docker_machine_operator.Api.Types.{Machine, ObjectReference}
use docker_machine_operator.Env.Event.{succeeded, History, stat_file, wrote_file, ran, got_secret}
use docker_machine_operator.Env.{Env}
use docker_machine_operator.Effect.{done}
use docker_machine_operator.Controller.Files.{get_script_file_path}
use docker_machine_operator.Controller.Secret.{object_key}
use docker_machine_operator.Controller.Args.{get_startup_script_args}
use docker_machine_operator.Controller.Args.Clash.{get_startup_script_args-clash}
use docker_machine_operator.Controller.Args.Script.{IsScript, IsPlaced, made, scripted_line}
use docker_machine_operator.Controller.Create.{create_machine, machine_creation_timeout}
use docker_machine_operator.Controller.Create.Accepted.{Accepts, written, finished}
use docker_machine_operator.Controller.Create.Scripted.{
  equipped, reading, equipping, create_machine-runs_scripted,
}
use docker_machine_operator.Tests.Fixtures.{env_of, client, fresh}

abbrev scripts : GoMap
scripts = ("google-userdata", "#!/bin/sh") ∷ []

abbrev secret : GoMap
secret = ("google-application-credentials", "{}") ∷ []

abbrev script_ref : ObjectReference
script_ref = record { namespace = "default"; name = "script" }

abbrev auth_ref : ObjectReference
auth_ref = record { namespace = "default"; name = "auth" }

abbrev scripted : Machine
scripted = record fresh { spec = record fresh.spec { script_ref = some script_ref } }

-- The API server has a script and credentials, and no file is there yet.
abbrev script_env : Env
script_env = record (env_of (ok scripted) none "0\n") {
  client = record (client (ok scripted)) {
    get_secret = λ h key. ok (if key.name == "script" then scripts else secret);
  };
}

script_env-Accepts : Accepts script_env
script_env-Accepts = record {
  server = λ h. scripted;
  reads = λ h k. refl;
  commits = λ h old m. refl;
}

scripts-IsScript : IsScript scripts "google-userdata" "#!/bin/sh"
scripts-IsScript = record {
  before = [];
  after = [];
  split = refl;
  keyless = tt;
  keyed = refl;
  full = refl;
}

abbrev path : String
path = "/tmp/default-worker-startup.sh"

abbrev read_log : History
read_log = reading script_env script_env-Accepts script_ref scripts scripted []

abbrev placed_log : History
placed_log = wrote_file path "#!/bin/sh" none ∷ stat_file path (some (not_exist path)) ∷ read_log

placed : IsPlaced script_env (get_script_file_path scripted) "#!/bin/sh" read_log placed_log
unfolding get_script_file_path
placed = made (not_exist path) refl refl refl

create_machine-runs_scripted_example :
    create_machine script_env (record { machine_obj = some scripted; log = [] }) ≡ (
      done tt,
      record {
        machine_obj = some (
            finished script_env script_env-Accepts
              (equipped script_env script_env-Accepts scripted));
        log =
            written script_env script_env-Accepts
              (finished script_env script_env-Accepts
                (equipped script_env script_env-Accepts scripted))
              (ran
                  (some machine_creation_timeout)
                  (scripted_line scripted "google" secret "google-userdata")
                  (succeeded "" "")
                ∷ equipping script_env script_env-Accepts auth_ref secret scripted placed_log);
      },
    )
unfolding encode_to_string
create_machine-runs_scripted_example =
    create_machine-runs_scripted script_env script_env-Accepts scripted [] placed_log
      (record { name = "google" }) "" "" refl refl refl refl refl refl scripts-IsScript placed refl
      ((refl, refl), tt) refl

-- The machine `b-c` of namespace `a`, where the script of the machine `c` of `a-b` is there.
abbrev clashing : Machine
clashing = record scripted { namespace = "a"; name = "b-c" }

abbrev taken_env : Env
taken_env = record script_env { host = record (script_env.host) { stat = λ h path. none } }

get_startup_script_args-clash_example :
    (("a" <> ("-" <> "b")) ≢ "a")
    × (get_startup_script_args taken_env (record { machine_obj = some clashing; log = [] }) ≡ (
      done ("--google-userdata" ∷ "/tmp/a-b-c-startup.sh" ∷ []),
      record {
        machine_obj = some clashing;
        log =
            stat_file "/tmp/a-b-c-startup.sh" none
            ∷ got_secret (object_key script_ref) (ok scripts)
            ∷ [];
      },
    ))
get_startup_script_args-clash_example =
    get_startup_script_args-clash taken_env "a" "b" "c" clashing script_ref scripts
      "google-userdata" "#!/bin/sh" [] refl refl refl refl scripts-IsScript refl
