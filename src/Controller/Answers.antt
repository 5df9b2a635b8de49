-- ===== src/Controller/Answers.antt =====
-- How the operations end on a machine that names its driver and its secret: what the API server
-- promises, and the operations on the status and the object in memory (pkg/controller/util.go).
pub mod Network
pub mod Creation
pub mod Whole
use docker_machine_operator.Base.{String, ◌≡◌, Option, none, some, List}
use docker_machine_operator.Go.Error.{Error, Except, ok, err}
use docker_machine_operator.Api.Types.{ObjectKey, ObjectReference, Machine}
use docker_machine_operator.Env.Event.{
  Edit, finalizer_added, finalizer_removed, annotation_set, History,
}
use docker_machine_operator.Env.{Env}
use docker_machine_operator.Effect.{Action, call, machine, set_machine, ◌>>=◌, attempt}
use docker_machine_operator.Effect.Answers.{
  IsSome, Answers, Answers-bind, Answers-call_bind, Answers-machine_bind, Answers-set_machine,
  answers_rules,
}
use docker_machine_operator.Controller.Status.{
  mark_true, mark_false, set_summary, update_machine_status, returned, reconciled,
  set_initial_conditions, requeue_with_error,
}
use docker_machine_operator.Controller.Finalizer.{
  transform, create_or_patch, patch_finalizer, patch_annotation, ensure_finalizer,
}
use docker_machine_operator.Controller.Secret.{driver_name, get_secret}

-- A machine that names its driver and the secret of its credentials, as the schema of the resource
-- requires.
abbrev pub IsValid : Machine → Type 0
IsValid m = IsSome m.spec.driver × IsSome m.spec.auth_secret

-- The API server gives only machines that satisfy the schema, and stores no invalid machine where it
-- is given a valid one.
pub record Validates (env : Env) : Type 0 where
  pub reads :
      (h : History) (key : ObjectKey) (m : Machine) → env.get_machine h key ≡ ok m → IsValid m
  pub patches :
      (h : History) (m stored : Machine) (f : Machine → Machine)
      → IsValid (f m)
      → env.create_or_patch h m f ≡ ok stored
      → IsValid stored
  pub commits :
      (h : History) (old m stored : Machine)
      → IsValid m
      → env.commit_status h old m ≡ ok stored
      → IsValid stored

pub driver_name-Answers : Answers IsValid driver_name
unfolding driver_name
driver_name-Answers = Answers-machine_bind _ λ m (d, a). search answers_rules

module _ (env : Env) where
  pub get_secret-Answers :
      (ref : Option ObjectReference) → IsSome ref → Answers IsValid (get_secret env ref)
  unfolding get_secret
  get_secret-Answers ref k = search answers_rules

  pub mark_true-Answers : (kind : String) → Answers IsValid (mark_true env kind)
  unfolding mark_true
  mark_true-Answers kind = Answers-machine_bind _ λ m v. Answers-set_machine _ v

  pub mark_false-Answers :
      (kind reason text : String) → Answers IsValid (mark_false env kind reason text)
  unfolding mark_false
  mark_false-Answers kind reason text = Answers-machine_bind _ λ m v. Answers-set_machine _ v

  set_summary-Answers : Answers IsValid (set_summary env)
  unfolding set_summary
  set_summary-Answers = Answers-machine_bind _ λ m v. Answers-set_machine _ v

  transform-IsValid : (edit : Edit) (m : Machine) → IsValid m → IsValid (transform env edit m)
  transform-IsValid (finalizer_added name) m v = v
  transform-IsValid (finalizer_removed name) m v = v
  transform-IsValid (annotation_set key value) m v = v

  module _ (laws : Validates env) where
    pub update_machine_status-Answers :
        (key : ObjectKey) → Answers IsValid (update_machine_status env key)
    unfolding update_machine_status
    update_machine_status-Answers key = Answers-bind _ _ (search answers_rules) λ server.
        Answers-bind _ _ set_summary-Answers λ _. Answers-machine_bind _ λ m v.
          Answers-bind _ _ (Answers-set_machine _ v) λ _. Answers-machine_bind _ λ m v.
            Answers-call_bind _ _ _
              λ h stored e. Answers-set_machine stored (laws.commits h server m stored v e)

    pub set_initial_conditions-Answers : Answers IsValid (set_initial_conditions env)
    unfolding set_initial_conditions
    set_initial_conditions-Answers =
        search (answers_rules, mark_false-Answers, update_machine_status-Answers) depth 9

    pub requeue_with_error-Answers : (e : Error) → Answers IsValid (requeue_with_error env e)
    unfolding requeue_with_error
    requeue_with_error-Answers e = search (answers_rules, update_machine_status-Answers) depth 9

    create_or_patch-Answers : (edit : Edit) → Answers IsValid (create_or_patch env edit)
    unfolding create_or_patch
    create_or_patch-Answers edit = Answers-machine_bind _ λ m v.
        Answers-call_bind _ _ _ λ h stored e.
          Answers-set_machine stored
            (laws.patches h m stored (transform env edit) (transform-IsValid edit m v) e)

    pub patch_finalizer-Answers : (edit : Edit) → Answers IsValid (patch_finalizer env edit)
    unfolding patch_finalizer
    patch_finalizer-Answers edit = create_or_patch-Answers edit

    pub patch_annotation-Answers :
        (key value : String) → Answers IsValid (patch_annotation env key value)
    unfolding patch_annotation
    patch_annotation-Answers key value = create_or_patch-Answers _

    pub ensure_finalizer-Answers : Answers IsValid (ensure_finalizer env)
    unfolding ensure_finalizer
    ensure_finalizer-Answers = search (answers_rules, patch_finalizer-Answers)
