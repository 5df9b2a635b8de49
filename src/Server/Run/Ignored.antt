-- ===== src/Server/Run/Ignored.antt =====
-- What `Run` (pkg/cmds/server/server.go) makes of the options.
use mathlib.Core.Option.{some-injective}
use docker_machine_operator.Base.{
  String, ◌==◌, ◌≡◌, refl, sym, ap, ◌∙◌, Bool, true, ◌||◌, Option, some, All, All-at, Memᴰ,
  Option-cases, inl, inr,
}
use docker_machine_operator.Server.Options.{
  OperatorOptions, Value, Flag, text, duration, as_text, as_duration, var, add_go_flags,
}
use docker_machine_operator.Server.Manager.{StartLog, ManagerEnv}
use docker_machine_operator.Server.Run.{run}

-- Flags that are declared for the operator, and that its start does not look at.
abbrev pub is_ignored : String → Bool
is_ignored name =
    (name == "license-file") || ((name == "resync-period") || (name == "metrics-bind-address"))

module _ {D F : Type 0} (env : ManagerEnv D F) where
  -- Writing the flag changes nothing of the start.
  abbrev IsIgnored : Flag D → Type 0
  IsIgnored f =
      (v : Value D) (o o' : OperatorOptions D)
      → f.write v o ≡ some o'
      → (log : StartLog F) → run env o' log ≡ run env o log

  var-IsIgnored :
      {X : Type 0} (wrap : X → Value D) (unwrap : Value D → Option X) (name : String)
      (get : OperatorOptions D → X) (set : X → OperatorOptions D → OperatorOptions D)
      → ((x : X) (o : OperatorOptions D) (log : StartLog F) → run env (set x o) log ≡ run env o log)
      → IsIgnored (var wrap unwrap name get set)
  var-IsIgnored wrap unwrap name get set h v o o' e log = elim (Option-cases (unwrap v)) [
    | inl n ↦ absurd (cc)
    | inr (x, n) ↦
        let same : set x o ≡ o' = some-injective _ _ (rw n at e) in
        ap (λ p. run env p log) (sym same) ∙ h x o log
  ]

  flags-IsIgnored : All (λ f. is_ignored f.name ≡ true → IsIgnored f) add_go_flags
  unfolding run
  flags-IsIgnored = (
    λ e. cc,
    (
      λ e. cc,
      (
        λ e.
            var-IsIgnored text as_text "license-file" (λ o. o.license_file)
              (λ x o. record o { license_file = x }) (λ x o log. refl),
        (
          λ e. cc,
          (
            λ e. cc,
            (
              λ e.
                  var-IsIgnored duration as_duration "resync-period" (λ o. o.resync_period)
                    (λ x o. record o { resync_period = x }) (λ x o log. refl),
              (
                λ e.
                    var-IsIgnored text as_text "metrics-bind-address" (λ o. o.metrics_addr)
                      (λ x o. record o { metrics_addr = x }) (λ x o log. refl),
                (λ e. cc, (λ e. cc, tt)),
              ),
            ),
          ),
        ),
      ),
    ),
  )

  -- If a value for `license-file`, `resync-period` or `metrics-bind-address` fits the flag, then the
  -- operator starts with it as it does without it: the same calls, and the same end, whatever its
  -- libraries answer.
  pub add_go_flags-IsIgnored :
      (f : Flag D) (v : Value D) (o o' : OperatorOptions D) (log : StartLog F)
      → Memᴰ f add_go_flags
      → is_ignored f.name ≡ true
      → f.write v o ≡ some o'
      → run env o' log ≡ run env o log
  add_go_flags-IsIgnored f v o o' log k e w =
      All-at (λ f. is_ignored f.name ≡ true → IsIgnored f) f _ k flags-IsIgnored e v o o' w log
