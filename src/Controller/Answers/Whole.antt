-- ===== src/Controller/Answers/Whole.antt =====
-- Clean-up, reconciles and runs of reconciles (pkg/controller/util.go, machine_controller.go).
use docker_machine_operator.Base.{
  String, ◌≡◌, refl, Bool, ◌⊎◌, inl, inr, Option, none, some, List, [], ◌∷◌,
}
use docker_machine_operator.Go.Error.{Error, Except, ok, err}
use docker_machine_operator.Api.Types.{ObjectKey, Machine}
use docker_machine_operator.Env.Event.{got_machine}
use docker_machine_operator.Env.{Env}
use docker_machine_operator.Effect.{State, call, attempt, set_machine, ◌>>=◌}
use docker_machine_operator.Effect.Answers.{
  IsAnswer, Holds, IsHeld, Answers, Answers-bind, Answers-call_bind, Answers-if, Answers-skip,
  Answers-set_machine, Answers-machine_bind, Answers-attempt, answers_rules,
}
use docker_machine_operator.Controller.Status.{reconciled}
use docker_machine_operator.Controller.Files.{
  fail_if_exist, remove_file, delete_files, run_docker_machine, ignore_not_found,
  delete_docker_machine,
}
use docker_machine_operator.Controller.Cleanup.{
  cleanup_cloud, cleanup_machine_resources, remove_finalizer_after_cleanup,
}
use docker_machine_operator.Controller.Reconcile.{
  update_machine_reconcile, after_cleanup, reconcile_deleted, after_script, after_create,
  after_finalizer, reconcile_live, no_phase, reconcile_found, after_get, reconcile,
}
use docker_machine_operator.Controller.Answers.{
  IsValid, Validates, driver_name-Answers, update_machine_status-Answers,
  requeue_with_error-Answers, patch_finalizer-Answers, ensure_finalizer-Answers,
}
use docker_machine_operator.Controller.Answers.Network.Clouds.{
  cleanup_aws_resources-Answers, delete_azure_resource_group-Answers,
}
use docker_machine_operator.Controller.Answers.Creation.{
  create_machine-Answers, is_script_finished-Answers,
}
use docker_machine_operator.Controller.Worker.{serve}

module _ (env : Env) where
  fail_if_exist-Answers : (r : Except Unit) → Answers IsValid (fail_if_exist r)
  fail_if_exist-Answers (ok _) = search answers_rules
  fail_if_exist-Answers (err e) = search answers_rules

  delete_files-Answers : Answers IsValid (delete_files env)
  unfolding delete_files remove_file
  delete_files-Answers = search (answers_rules, fail_if_exist-Answers) depth 9

  ignore_not_found-Answers : (e : Option Error) → Answers IsValid (ignore_not_found env e)
  ignore_not_found-Answers none = search answers_rules
  ignore_not_found-Answers (some e) = search answers_rules

  delete_docker_machine-Answers : Answers IsValid (delete_docker_machine env)
  unfolding delete_docker_machine run_docker_machine
  delete_docker_machine-Answers = search (answers_rules, ignore_not_found-Answers)

  cleanup_cloud-Answers : (driver : String) → Answers IsValid (cleanup_cloud env driver)
  unfolding cleanup_cloud
  cleanup_cloud-Answers driver =
      Answers-if _ _ _ (cleanup_aws_resources-Answers env)
        (Answers-if _ _ _ (delete_azure_resource_group-Answers env) Answers-skip)

  cleanup-Answers : Answers IsValid (cleanup_machine_resources env)
  unfolding cleanup_machine_resources
  cleanup-Answers =
      search
        (
          answers_rules, delete_files-Answers, delete_docker_machine-Answers, driver_name-Answers,
          cleanup_cloud-Answers,
        )
        depth 9

  reconciled-Answers : Answers IsValid reconciled
  unfolding reconciled
  reconciled-Answers = search answers_rules

ruleset reconcile_answers = (
  answers_rules, update_machine_status-Answers, requeue_with_error-Answers, patch_finalizer-Answers,
  ensure_finalizer-Answers, reconciled-Answers,
)

module _ (env : Env) (laws : Validates env) where
  remove_finalizer-Answers : Answers IsValid (remove_finalizer_after_cleanup env)
  unfolding remove_finalizer_after_cleanup
  remove_finalizer-Answers = Answers-machine_bind _ λ m v.
      Answers-if _ _ _
        (Answers-bind _ _ (update_machine_status-Answers env laws _)
          λ _. Answers-bind _ _ (cleanup-Answers env) λ _. patch_finalizer-Answers env laws _)
        Answers-skip

  after_cleanup-Answers : (r : Except Unit) → Answers IsValid (after_cleanup env r)
  unfolding after_cleanup
  after_cleanup-Answers (ok _) = search reconcile_answers
  after_cleanup-Answers (err e) = search reconcile_answers

  reconcile_deleted-Answers : Answers IsValid (reconcile_deleted env)
  unfolding reconcile_deleted
  reconcile_deleted-Answers =
      search (reconcile_answers, remove_finalizer-Answers, after_cleanup-Answers)

  module _ (key : ObjectKey) where
    after_script-Answers : (r : Except Bool) → Answers IsValid (after_script env key r)
    unfolding after_script
    after_script-Answers (ok rekey) = search reconcile_answers
    after_script-Answers (err e) = search reconcile_answers

    after_create-Answers : (r : Except Unit) → Answers IsValid (after_create env key r)
    unfolding after_create
    after_create-Answers (ok _) =
        Answers-bind _ _ (Answers-attempt _ (is_script_finished-Answers env)) after_script-Answers
    after_create-Answers (err e) = search reconcile_answers

    after_finalizer-Answers : (r : Except Unit) → Answers IsValid (after_finalizer env key r)
    unfolding after_finalizer
    after_finalizer-Answers (ok _) =
        Answers-bind _ _ (Answers-attempt _ (create_machine-Answers env laws)) after_create-Answers
    after_finalizer-Answers (err e) = search reconcile_answers

    reconcile_live-Answers : Answers IsValid (reconcile_live env key)
    unfolding reconcile_live
    reconcile_live-Answers = search (reconcile_answers, after_finalizer-Answers)

    no_phase-Answers : Answers IsValid (no_phase env key)
    unfolding no_phase
    no_phase-Answers = search reconcile_answers depth 9

    reconcile_found-Answers : (m : Machine) → Answers IsValid (reconcile_found env key m)
    unfolding reconcile_found
    reconcile_found-Answers m =
        Answers-if _ _ _ no_phase-Answers
          (Answers-if _ _ _ reconcile_deleted-Answers reconcile_live-Answers)

    after_get-Answers : (r : Except Unit) → Answers IsValid (after_get env key r)
    unfolding after_get
    after_get-Answers (ok _) = search (reconcile_answers, reconcile_found-Answers)
    after_get-Answers (err e) = search reconcile_answers

    get-Answers : Answers IsValid (update_machine_reconcile env key)
    unfolding update_machine_reconcile
    get-Answers = Answers-call_bind _ _ _ λ h m e. Answers-set_machine m (laws.reads h key m e)

    reconcile-Answers : Answers IsValid (reconcile env key)
    unfolding reconcile
    reconcile-Answers = search (reconcile_answers, get-Answers, after_get-Answers)

  -- What was in memory does not matter once the machine is read.
  read_first :
      (key : ObjectKey) (s : State) {m : Machine}
      → env.get_machine s.log key ≡ ok m
      → IsHeld IsValid (reconcile env key s)
  unfolding reconcile update_machine_reconcile call attempt set_machine ◌>>=◌
  read_first key s {m} e = rw e (
      (after_get-Answers key (ok tt)).at
        (record { machine_obj = some m; log = got_machine key (ok m) ∷ s.log })
        (m, refl, laws.reads s.log key m e))

  -- A machine is in memory, or the one that is asked for can be read.
  abbrev pub CanStart : ObjectKey → State → Type 0
  CanStart key s = Holds IsValid s ⊎ ((m : Machine) × (env.get_machine s.log key ≡ ok m))

  -- If the API server gives only machines that name their driver and their secret, and either such a
  -- machine is in memory or the requested one can be read, then the reconcile ends with an answer,
  -- never by a nil pointer or for want of fuel, and such a machine is in memory after it.
  pub reconcile-IsHeld :
      (key : ObjectKey) (s : State) → CanStart key s → IsHeld IsValid (reconcile env key s)
  reconcile-IsHeld key s (inl h) = (reconcile-Answers key).at s h
  reconcile-IsHeld key s (inr (m, e)) = read_first key s e

  -- If the API server gives only machines that name their driver and their secret, and such a machine
  -- is in memory, then whatever requests a worker has served, the next reconcile ends with an answer.
  pub serve-Answers :
      (keys : List ObjectKey) (key : ObjectKey) (s : State)
      → Holds IsValid s
      → IsAnswer (reconcile env key (serve env keys s)).0
  unfolding serve
  serve-Answers [] key s h = (reconcile-IsHeld key s (inl h)).1
  serve-Answers (k ∷ keys) key s h =
      serve-Answers keys key (reconcile env k s).1 (reconcile-IsHeld k s (inl h)).0
