-- ===== src/Tests/Answers.antt =====
-- The theorems on the end of a reconcile, at concrete states.
use mathlib.Core.Path.{subst}
use docker_machine_operator.Base.{◌≡◌, refl, inr, none, some, [], ◌∷◌}
use docker_machine_operator.Go.Error.{ok}
use docker_machine_operator.Api.Types.{Machine}
use docker_machine_operator.Env.{Env}
use docker_machine_operator.Effect.Answers.{IsAnswer, IsHeld}
use docker_machine_operator.Controller.Reconcile.{reconcile}
use docker_machine_operator.Controller.Worker.{serve}
use docker_machine_operator.Controller.Answers.{IsValid, Validates}
use docker_machine_operator.Controller.Answers.Whole.{reconcile-IsHeld, serve-Answers}
use docker_machine_operator.Tests.Fixtures.{env_of, ready, fresh, key}

abbrev pub live_env : Env
live_env = env_of (ok ready) none "0\n"

-- Whatever holds of one machine holds of an equal one.
carry : (m n : Machine) → ok m ≡ ok n → IsValid m → IsValid n
carry m n e v = let same : m ≡ n = cc in subst IsValid same v

pub live_env-Validates : Validates live_env
live_env-Validates = record {
  reads = λ h key m e. carry ready m e (tt, tt);
  patches = λ h m stored f v e. carry (f m) stored e v;
  commits = λ h old m stored v e. carry m stored e v;
}

reconcile-IsHeld_example :
    IsHeld IsValid (reconcile live_env key (record { machine_obj = none; log = [] }))
reconcile-IsHeld_example =
    reconcile-IsHeld live_env live_env-Validates key (record { machine_obj = none; log = [] })
      (inr (ready, refl))

serve-Answers_example :
    IsAnswer
      (reconcile live_env key
        (serve live_env (key ∷ key ∷ []) (record { machine_obj = some fresh; log = [] }))).0
serve-Answers_example =
    serve-Answers live_env live_env-Validates (key ∷ key ∷ []) key
      (record { machine_obj = some fresh; log = [] }) (fresh, refl, (tt, tt))
