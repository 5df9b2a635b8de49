-- ===== src/Controller/Aws/Asks.antt =====
-- Events that an action leaves in the history whatever fails around it, for pkg/controller/aws.go.
use docker_machine_operator.Base.{
  String, ◌≡◌, inl, inr, Bool-cases, Option, none, some, Option-cases, Any,
}
use docker_machine_operator.Go.Error.{Error, message, error_of, Except, ok, err, Except-cases}
use docker_machine_operator.Go.Text.{contains}
use docker_machine_operator.Api.Types.{Machine}
use docker_machine_operator.Env.Event.{Event, History, patched, annotation_set}
use docker_machine_operator.Env.{Env}
use docker_machine_operator.Effect.{
  State, Outcome, done, failed, aborted, attempted, continue, Action, pure, skip, fail, call,
  call_error, attempt, machine, set_machine, ◌>>=◌, ◌>>◌,
}
use docker_machine_operator.Effect.Answers.{IsAnswer}
use docker_machine_operator.Controller.Finalizer.{transform, create_or_patch, patch_annotation}
use docker_machine_operator.Controller.Aws.{logged, joined, ignore_missing, or_undo}

module _ (P : Event → Type 0) where
  -- Some event satisfies the predicate.
  abbrev pub Has : State → Type 0
  Has s = Any P s.log

  pub ignore_missing-asks :
      (ask : History → Option Error) (note : Option Error → Event) (s : State)
      → ((r : Option Error) → P (note r))
      → Has (ignore_missing (call_error ask note) s).1
  unfolding ignore_missing attempt call_error ◌>>=◌ skip pure fail
  ignore_missing-asks ask note s p = elim (Option-cases (ask s.log)) [
    | inl e ↦ rw e (inl (p none))
    | inr (x, e) ↦ elim (Bool-cases (contains (message x) "does not exist")) [
      | inl t ↦ rw (e, t) (inl (p (some x)))
      | inr f ↦ rw (e, f) (inl (p (some x)))
    ]
  ]

  pub patch_annotation-asks :
      (env : Env) (key value : String) (m : Machine) (s : State)
      → s.machine_obj ≡ some m
      → ((r : Except Machine) → P (patched m (annotation_set key value) r))
      → Has (patch_annotation env key value s).1
  unfolding patch_annotation create_or_patch machine call set_machine ◌>>=◌
  patch_annotation-asks env key value m s h p =
      elim (Except-cases (env.create_or_patch s.log m (transform env (annotation_set key value)))) [
        | inl (x, e) ↦ rw (h, e) (inl (p (err x)))
        | inr (m', e) ↦ rw (h, e) (inl (p (ok m')))
      ]

  -- A failure stays one, however what undoes it ends.
  pub undone-asks :
      (x : Error) (f : Unit → Action Unit) (r : Outcome Unit) (s : State)
      → Has s
      → Has
          (continue
            (continue (attempted r) (λ a. fail {A = Unit} (joined x (error_of a))) s).0
            f
            (continue (attempted r) (λ a. fail {A = Unit} (joined x (error_of a))) s).1).1
  unfolding fail
  undone-asks x f (done a) s h = h
  undone-asks x f (failed e) s h = h
  undone-asks x f (aborted e) s h = h

  pub or_undo-asks :
      (act undo : Action Unit) (f : Unit → Action Unit) (s : State) (r : Outcome Unit) (s' : State)
      → act s ≡ (r, s')
      → IsAnswer r
      → Has (undo s').1
      → Has (f tt s').1
      → Has ((or_undo act undo >>= f) s).1
  unfolding or_undo attempt ◌>>=◌ skip pure
  or_undo-asks act undo f s (done a) s' e k h g = rw e g
  or_undo-asks act undo f s (failed x) s' e k h g = rw e (undone-asks x f (undo s').0 _ h)
  or_undo-asks act undo f s (aborted x) s' e k h g = absurd k

  -- What is logged does not stop what follows.
  pub logged-asks :
      (act next : Action Unit) (s : State) (r : Outcome Unit) (s' : State)
      → act s ≡ (r, s')
      → IsAnswer r
      → Has (next s').1
      → Has ((logged act >> next) s).1
  unfolding logged attempt ◌>>=◌ skip pure
  logged-asks act next s (done a) s' e k h = rw e h
  logged-asks act next s (failed x) s' e k h = rw e h
  logged-asks act next s (aborted x) s' e k h = absurd k
