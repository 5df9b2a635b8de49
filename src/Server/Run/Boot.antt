-- ===== src/Server/Run/Boot.antt =====
-- The start of the operator (pkg/cmds/server/server.go) as a list of stages.
use docker_machine_operator.Base.{
  String, ℕ, Bool, true, false, ◌≡◌, refl, Option, none, some, List, [], ◌∷◌, inl, inr,
  Option-cases,
}
use docker_machine_operator.Go.Error.{Error, Except, ok, err, Except-cases}
use docker_machine_operator.Server.Options.{OperatorOptions}
use docker_machine_operator.Server.Manager.{
  StartEvent, StartLog, ManagerEnv, built_config, made_manager, set_up, added_healthz_check,
  added_readyz_check, started,
}
use docker_machine_operator.Server.Run.{
  Exit, returned, exited, Startup, ◌>>=◌, or_exit, or_exit_error, driver_kind, machine_kind,
  run_manager, run,
}

pub data Stage : Type 0 where
  configured managed : Stage
  controlled : String → Stage
  checked_health checked_ready running : Stage

abbrev is_ok : {A : Type 0} → Except A → Bool
is_ok (ok a) = true
is_ok (err e) = false

abbrev is_nil : Option Error → Bool
is_nil none = true
is_nil (some e) = false

-- The stage of a call, and whether it was passed.
abbrev pub stage_of : {F : Type 0} → StartEvent F → Stage × Bool
stage_of (built_config master kubeconfig r) = (configured, is_ok r)
stage_of (made_manager c o r) = (managed, is_ok r)
stage_of (set_up mgr kind r) = (controlled kind, is_nil r)
stage_of (added_healthz_check mgr name r) = (checked_health, is_nil r)
stage_of (added_readyz_check mgr name r) = (checked_ready, is_nil r)
stage_of (started mgr r) = (running, is_nil r)

-- The code with which the process exits where a stage is not passed.
abbrev pub code_of : Stage → ℕ
code_of configured = 255
code_of _ = 1

-- The stages are taken one after the other, each with one call, until one is not passed.
pub data Boots {F : Type 0} : List Stage → StartLog F → StartLog F → Exit Unit → Type 0 where
  finishes : {log : StartLog F} → Boots [] log log (returned tt)
  stops :
      {stage : Stage} {stages : List Stage} {log : StartLog F} (e : StartEvent F)
      → stage_of e ≡ (stage, false)
      → Boots (stage ∷ stages) log (e ∷ log) (exited (code_of stage))
  passes :
      {stage : Stage} {stages : List Stage} {log end : StartLog F} {r : Exit Unit}
      (e : StartEvent F)
      → stage_of e ≡ (stage, true)
      → Boots stages (e ∷ log) end r
      → Boots (stage ∷ stages) log end r

-- The plan of the operator.
abbrev pub plan : List Stage
plan =
    configured
    ∷ managed
    ∷ controlled "Driver"
    ∷ controlled "Machine"
    ∷ checked_health
    ∷ checked_ready
    ∷ running
    ∷ []

-- A start-up that takes the stages, from every log.
abbrev pub Takes : {F : Type 0} → List Stage → Startup F Unit → Type 0
Takes stages m = (log : StartLog _) → Boots stages log (m log).1 (m log).0

module _ {F : Type 0} (stage : Stage) (stages : List Stage) where
  or_exit-Takes :
      {A : Type 0} (code : ℕ) (ask : StartLog F → Except A) (note : Except A → StartEvent F)
      (f : A → Startup F Unit)
      → code ≡ code_of stage
      → ((r : Except A) → stage_of (note r) ≡ (stage, is_ok r))
      → ((a : A) → Takes stages (f a))
      → Takes (stage ∷ stages) (or_exit code ask note >>= f)
  unfolding or_exit ◌>>=◌
  or_exit-Takes code ask note f c n k log = elim (Except-cases (ask log)) [
    | inl (e, r) ↦ rw (r, c) (stops (note (err e)) (n (err e)))
    | inr (a, r) ↦ rw r (passes (note (ok a)) (n (ok a)) (k a (note (ok a) ∷ log)))
  ]

  or_exit_error-Takes :
      (ask : StartLog F → Option Error) (note : Option Error → StartEvent F)
      (f : Unit → Startup F Unit)
      → 1 ≡ code_of stage
      → ((r : Option Error) → stage_of (note r) ≡ (stage, is_nil r))
      → Takes stages (f tt)
      → Takes (stage ∷ stages) (or_exit_error 1 ask note >>= f)
  unfolding ◌>>=◌
  or_exit_error-Takes ask note f c n k log = elim (Option-cases (ask log)) [
    | inl r ↦ rw r (passes (note none) (n none) (k (note none ∷ log)))
    | inr (e, r) ↦ rw (r, c) (stops (note (some e)) (n (some e)))
  ]

last-Takes :
    {F : Type 0} (ask : StartLog F → Option Error) (note : Option Error → StartEvent F)
    → ((r : Option Error) → stage_of (note r) ≡ (running, is_nil r))
    → Takes (running ∷ []) (or_exit_error 1 ask note)
last-Takes ask note n log = elim (Option-cases (ask log)) [
  | inl r ↦ rw r (passes (note none) (n none) finishes)
  | inr (e, r) ↦ rw r (stops (note (some e)) (n (some e)))
]

module _ {D F : Type 0} (env : ManagerEnv D F) where
  -- Whatever its libraries answer, the start of the operator takes the stages of the plan in their
  -- order, one call each: it returns after the last, or exits at the first that is not passed, with 255
  -- if that is the configuration and else with 1.
  pub run-Boots :
      (o : OperatorOptions D) (log : StartLog F)
      → Boots plan log (run env o log).1 (run env o log).0
  unfolding run run_manager
  run-Boots o =
      or_exit-Takes _ _ _ _ _ _ refl (λ r. refl)
        λ built.
          or_exit-Takes _ _ _ _ _ _ refl (λ r. refl)
            λ mgr.
              or_exit_error-Takes _ _ _ (set_up mgr driver_kind) _ refl (λ r. refl)
                (or_exit_error-Takes _ _ _ (set_up mgr machine_kind) _ refl (λ r. refl)
                  (or_exit_error-Takes _ _ _ (added_healthz_check mgr "healthz") _ refl (λ r. refl)
                    (or_exit_error-Takes _ _ _ (added_readyz_check mgr "readyz") _ refl (λ r. refl)
                      (last-Takes _ (started mgr) (λ r. refl)))))
