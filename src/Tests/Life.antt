-- ===== src/Tests/Life.antt =====
-- A new machine on Google, with an API server that stores what it is given, and with one that refuses
-- to store finalizers.
use docker_machine_operator.Base.{◌≡◌, refl, none, some, [], ◌∷◌, arith, inl}
use docker_machine_operator.Go.Error.{Error, ok, err}
use docker_machine_operator.Go.Map.{GoMap}
use docker_machine_operator.Go.Text.{codes}
use docker_machine_operator.Go.Base64.{encode_to_string}
use docker_machine_operator.Api.Types.{
  Machine, ObjectReference, LocalObjectReference, set_conditions,
}
use docker_machine_operator.Api.Names.{cluster_operation_complete}
use docker_machine_operator.Env.Event.{History, committed, patched}
use docker_machine_operator.Env.{Env}
use docker_machine_operator.Effect.Footprint.{Extends}
use docker_machine_operator.Controller.Status.{summarised}
use docker_machine_operator.Controller.Create.Accepted.{written_at, created}
use docker_machine_operator.Controller.Script.Outcome.{after_removal, is_script_finished-zero}
use docker_machine_operator.Controller.Reconcile.{reconcile}
use docker_machine_operator.Controller.Safety.Protected.{BuildsNothing, reconcile-BuildsNothing}
use docker_machine_operator.Controller.Worker.{serve}
use docker_machine_operator.Controller.Worker.Runs.{
  Stores, protected, first, with_host, serve-creates,
}
use docker_machine_operator.Tests.Fixtures.{env_of, fresh, key, client}

abbrev newborn : Machine
newborn = record fresh { finalizers = []; status = record { conditions = []; phase = "" } }

-- What the calls so far have stored.
abbrev stored : History → Machine
stored [] = newborn
stored (committed old m (ok r) ∷ h) = r
stored (patched m edit (ok r) ∷ h) = r
stored (_ ∷ h) = stored h

abbrev base : Env
base = env_of (ok newborn) none "0\n"

abbrev storing_env : Env
storing_env = record base {
  client = record (client (ok newborn)) { get_machine = λ h k. ok (stored h) };
}

abbrev storing : Stores storing_env
storing = record {
  accepts = record { server = stored; reads = λ h k. refl; commits = λ h old m. refl };
  patches = λ h m edit. refl;
  committed_last = λ h old m. refl;
}

abbrev google : LocalObjectReference
google = record { name = "google" }

abbrev reference : ObjectReference
reference = record { namespace = "default"; name = "auth" }

abbrev secret : GoMap
secret = ("google-application-credentials", "{}") ∷ []

abbrev host_machine : Machine
host_machine =
    created storing_env storing.accepts
      (protected storing_env storing key (first storing_env storing key []))

abbrev finished : Machine
finished =
    set_conditions host_machine (storing_env.mark_true host_machine cluster_operation_complete)

abbrev host_log : History
host_log = with_host storing_env storing key google reference secret "" "" []

serve-creates_example :
    (serve storing_env (key ∷ key ∷ []) (record { machine_obj = none; log = [] }) ≡ record {
      machine_obj = some (summarised storing_env finished);
      log =
          written_at storing_env storing.accepts key
            (summarised storing_env finished)
            (after_removal storing_env host_machine host_log google "0\n");
    })
    × (stored (
          written_at storing_env storing.accepts key
            (summarised storing_env finished)
            (after_removal storing_env host_machine host_log google "0\n"))
        ≡ summarised storing_env finished)
unfolding encode_to_string
serve-creates_example =
    serve-creates storing_env storing key none [] google reference secret "" "" refl refl refl refl
      refl refl refl refl refl ((refl, refl), tt) refl
      (is_script_finished-zero storing_env host_machine host_log google refl refl refl []
        (codes "0") [] refl refl refl ((((refl, refl), tt), omega arith), tt) tt (inl (refl, tt)))

abbrev unprotected : Machine
unprotected = record fresh { finalizers = [] }

abbrev refusing_env : Env
refusing_env = record base {
  client = record (client (ok unprotected)) {
    create_or_patch = λ h m f. err (Error.api "Forbidden" "");
  };
}

reconcile-BuildsNothing_example :
    Extends BuildsNothing []
      (reconcile refusing_env key (record { machine_obj = none; log = [] })).1.log
reconcile-BuildsNothing_example =
    reconcile-BuildsNothing refusing_env key (record { machine_obj = none; log = [] }) refl refl
      refl
