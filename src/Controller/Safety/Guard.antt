-- ===== src/Controller/Safety/Guard.antt =====
-- Histories in which each removal of a finalizer is guarded, and the two steps of the clean-up that
-- matter for it (pkg/controller/util.go).
use docker_machine_operator.Base.{
  String, Bool-cases, true, ◌≡◌, refl, sym, ◌∙◌, inl, inr, Option, none, some, [], ◌∷◌, Any,
}
use mathlib.Core.Path.{subst}
use mathlib.Core.Option.{some-injective}
use docker_machine_operator.Go.Error.{Error}
use docker_machine_operator.Api.Types.{Machine}
use docker_machine_operator.Api.Helper.{get_finalizer}
use docker_machine_operator.Env.Event.{Event, History, patched, finalizer_removed, ran}
use docker_machine_operator.Env.{Env}
use docker_machine_operator.Effect.{State, Action, call, call_value, set_machine, skip, fail}
use docker_machine_operator.Effect.Footprint.{Extends, same, more, Emits}
use docker_machine_operator.Effect.Returns.{OnDone-const}
use docker_machine_operator.Effect.ReadOnly.{IsReadOnly}
use docker_machine_operator.Effect.Triple.{Triple, Triple-of, Triple-bind, Triple-machine}
use docker_machine_operator.Controller.Safety.Events.Kept.{KeepsFinalizer}
use docker_machine_operator.Controller.Finalizer.{transform, patch_finalizer}
use docker_machine_operator.Controller.Files.{
  rm_args, run_docker_machine, ignore_not_found, delete_docker_machine,
}

-- The error of a command that `deleteDockerMachine` accepts.
abbrev pub IsAccepted : Env → Option Error → Type 0
IsAccepted env none = Unit
IsAccepted env (some e) = env.is_not_found e ≡ true

-- `docker-machine rm` of the name was run, and its result was accepted.
abbrev pub IsRemoval : Env → String → Event → Type 0
IsRemoval env name (ran deadline args c) = (args ≡ "rm" ∷ name ∷ "-y" ∷ []) × IsAccepted env c.error
IsRemoval env name _ = ⊥

-- What has to come before an event.
abbrev pub IsAllowed : Env → Event → History → Type 0
IsAllowed env (patched m (finalizer_removed name) r) older = Any (IsRemoval env m.name) older
IsAllowed env _ older = Unit

-- Wherever the history asks for the finalizer of a machine to be removed, the machine itself was
-- removed before.
abbrev pub IsGuarded : Env → History → Type 0
IsGuarded env [] = Unit
IsGuarded env (e ∷ older) = IsAllowed env e older × IsGuarded env older

module _ (env : Env) where
  allowed : (e : Event) (older : History) → KeepsFinalizer e → IsAllowed env e older
  allowed (patched m (finalizer_removed name) r) older k = absurd k
  allowed _ older k = tt

  Extends-IsGuarded :
      {a b : History} → Extends KeepsFinalizer a b → IsGuarded env a → IsGuarded env b
  Extends-IsGuarded same g = g
  Extends-IsGuarded (more {e} {new} k x) g = (allowed e new k, Extends-IsGuarded x g)

  Extends-Any :
      {P : Event → Type 0} (Q : Event → Type 0) {a b : History} → Extends P a b → Any Q a → Any Q b
  Extends-Any Q same q = q
  Extends-Any Q (more k x) q = inr (Extends-Any Q x q)

  abbrev pub Guarded : State → Type 0
  Guarded s = IsGuarded env s.log

  -- The machine in memory was removed.
  abbrev pub Removed : State → Type 0
  Removed s =
      Guarded s × (m : Machine) × (s.machine_obj ≡ some m) × Any (IsRemoval env m.name) s.log

  pub Emits-Guarded :
      {A : Type 0} (act : Action A)
      → Emits KeepsFinalizer act
      → Triple Guarded act Guarded (λ _. Guarded)
  Emits-Guarded act k = Triple-of act λ s. Extends-IsGuarded (k.at s)

  pub Emits-Removed :
      {A : Type 0} (act : Action A)
      → Emits KeepsFinalizer act
      → IsReadOnly act
      → Triple Removed act Guarded (λ _. Removed)
  Emits-Removed act k r = record {
    at = λ s (g, m, e, h).
        let g' = Extends-IsGuarded (k.at s) g in
        (
          g',
          OnDone-const (act s).0 (g', m, r.at s ∙ e, Extends-Any (IsRemoval env m.name) (k.at s) h),
        );
  }

  -- The command was run on the machine in memory.
  abbrev Ran : Machine → Option Error → State → Type 0
  Ran m e s =
      Guarded s × (s.machine_obj ≡ some m) × (IsAccepted env e → Any (IsRemoval env m.name) s.log)

  run-Ran :
      (m : Machine)
      → Triple
          (λ s. Guarded s × (s.machine_obj ≡ some m))
          (run_docker_machine env (rm_args m.name))
          Guarded
          (λ c. Ran m c.error)
  unfolding run_docker_machine call_value
  run-Ran m = record { at = λ s (g, e). ((tt, g), ((tt, g), e, λ a. inl (refl, a))) }

  ignore_not_found-Removed :
      (m : Machine) (e : Option Error)
      → Triple (Ran m e) (ignore_not_found env e) Guarded (λ _. Removed)
  unfolding skip fail
  ignore_not_found-Removed m none = record { at = λ s (g, o, k). (g, (g, m, o, k tt)) }
  ignore_not_found-Removed m (some e) = elim (Bool-cases (env.is_not_found e)) [
    | inl t ↦ record { at = λ s (g, o, k). rw t (g, (g, m, o, k t)) }
    | inr f ↦ record { at = λ s (g, o, k). rw f (g, tt) }
  ]

  -- When `deleteDockerMachine` returns, the machine in memory was removed.
  pub delete_docker_machine-Removed :
      Triple Guarded (delete_docker_machine env) Guarded (λ _. Removed)
  unfolding delete_docker_machine
  delete_docker_machine-Removed =
      Triple-bind _ _ _ (Triple-machine Guarded Guarded (λ s g. g)) λ m.
        Triple-bind (λ c. Ran m c.error) _ _ (run-Ran m) λ c. ignore_not_found-Removed m c.error

  patch-Guarded :
      (m : Machine)
      → Triple
          (λ s. Removed s × (s.machine_obj ≡ some m))
          (call
            (λ h. env.create_or_patch h m (transform env (finalizer_removed get_finalizer)))
            (patched m (finalizer_removed get_finalizer)))
          Guarded
          (λ _. Guarded)
  unfolding call
  patch-Guarded m = Triple-of _ λ s ((g, m', e, h), e').
      let same : m' ≡ m = some-injective _ _ (sym e ∙ e') in
      (subst (λ x. Any (IsRemoval env (Machine.name x)) s.log) same h, g)

  set_machine-Guarded : (m : Machine) → Triple Guarded (set_machine m) Guarded (λ _. Guarded)
  unfolding set_machine
  set_machine-Guarded m = record { at = λ s g. (g, g) }

  -- The patch names the machine in memory.
  pub patch_finalizer-Guarded :
      Triple Removed (patch_finalizer env (finalizer_removed get_finalizer)) Guarded (λ _. Guarded)
  unfolding patch_finalizer
  patch_finalizer-Guarded =
      Triple-bind _ _ _ (Triple-machine Removed Guarded (λ s r. r.0))
        λ m. Triple-bind (λ _. Guarded) _ _ (patch-Guarded m) set_machine-Guarded
