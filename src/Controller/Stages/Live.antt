-- ===== src/Controller/Stages/Live.antt =====
-- The stages of a live machine: its finalizer, its creation and the look at its script
-- (pkg/controller/machine_controller.go, machine.go, cluster.go).
use docker_machine_operator.Base.{
  ◌≤◌, Bool, false, String, ℕ, Option, none, some, List, inr, refl, arith,
}
use docker_machine_operator.Go.Error.{Error, Except, ok, err}
use docker_machine_operator.Go.Number.{ℤ}
use docker_machine_operator.Api.Types.{ObjectKey}
use docker_machine_operator.Env.{Env}
use docker_machine_operator.Effect.Footprint.{
  Emits, Emits-pure, Emits-fail, Emits-skip, Emits-machine, Emits-call, Emits-call_error,
  Emits-call_value, Emits-attempt,
}
use docker_machine_operator.Effect.Staged.{
  Ordered, Ordered-bind, Ordered-if, Ordered-attempt, Ordered-then, Emits-within, Emits-Ordered,
  AtStage,
}
use docker_machine_operator.Controller.Create.{
  run_with_timeout, run_creation, create_machine_now, create_machine,
}
use docker_machine_operator.Controller.Status.{requeue_with_error}
use docker_machine_operator.Controller.Files.{remove_file, run_docker_machine}
use docker_machine_operator.Controller.Script.{
  take_result, copied, fetch_result, is_script_finished,
}
use docker_machine_operator.Controller.Reconcile.{
  after_script, after_create, after_finalizer, reconcile_live,
}
use docker_machine_operator.Controller.Footprint.Status.{
  mark_true-Emits, mark_false-Emits, update_machine_status-Emits, set_initial_conditions-Emits,
  reconciled-Emits, requeue_with_error-Emits, returned-Emits,
}
use docker_machine_operator.Controller.Footprint.Creation.{
  ensure_finalizer-Emits, create_prerequisites-Emits, get_machine_creation_args-Emits,
  creation_result-Emits, get_scp_args-Emits, operation_result-Emits, finish-Emits,
}
use docker_machine_operator.Controller.Stages.{
  live_stage, live-StatusCalls, live-SecretCalls, live-NetworkDeletion, live-NetworkCreation,
  live-FinalizerAddition, live-ScriptCalls,
}

module _ (env : Env) where
  run_with_timeout-Emits :
      (args : List String) → Emits (AtStage live_stage 4) (run_with_timeout env args)
  unfolding run_with_timeout
  run_with_timeout-Emits args = Emits-call_value _ _ (λ c. inr refl)

  run_creation-Ordered : (args : List String) → Ordered live_stage 3 4 (run_creation env args)
  unfolding run_creation
  run_creation-Ordered args =
      Ordered-then 3 _ _ (omega arith) (omega arith) (mark_true-Emits env _) λ _.
        Ordered-then 4 _ _ (omega arith) (omega arith) (run_with_timeout-Emits args)
          λ c. Emits-Ordered _ (creation_result-Emits env (live-StatusCalls 4) c.error c.stderr)

  create_machine_now-Ordered : Ordered live_stage 1 4 (create_machine_now env)
  unfolding create_machine_now
  create_machine_now-Ordered =
      Ordered-then 1 _ _ (omega arith) (omega arith)
        (set_initial_conditions-Emits env (live-StatusCalls 1))
        λ _.
          Ordered-then 2 _ _ (omega arith) (omega arith)
            (create_prerequisites-Emits env (live-SecretCalls 2) live-NetworkDeletion
              live-NetworkCreation)
            λ _.
              Ordered-then 3 _ _ (omega arith) (omega arith)
                (get_machine_creation_args-Emits env (live-StatusCalls 3) (live-SecretCalls 3)
                  live-ScriptCalls)
                run_creation-Ordered

  create_machine-Ordered : Ordered live_stage 1 4 (create_machine env)
  unfolding create_machine
  create_machine-Ordered = Ordered-then 1 _ _ (omega arith) (omega arith) Emits-machine λ m.
      Ordered-if _ _ _ (Emits-within 1 _ (omega arith) (omega arith) Emits-skip)
        create_machine_now-Ordered

  remove_file-Emits : (path : String) → Emits (AtStage live_stage 7) (remove_file env path)
  unfolding remove_file
  remove_file-Emits path = Emits-call_error _ _ (λ r. inr refl)

  take_result-Ordered : (n : Option ℤ) → Ordered live_stage 6 7 (take_result env n)
  unfolding take_result
  take_result-Ordered none = Emits-within 6 _ (omega arith) (omega arith) (Emits-fail _)
  take_result-Ordered (some n) =
      Ordered-then 6 _ _ (omega arith) (omega arith)
        (operation_result-Emits env (live-StatusCalls 6) n)
        λ failure.
          Ordered-then 7 _ _ (omega arith) (omega arith) (remove_file-Emits _)
            λ _. Emits-Ordered _ (finish-Emits env (live-StatusCalls 7) failure)

  copied-Ordered : (e : Option Error) → Ordered live_stage 5 7 (copied env e)
  unfolding copied
  copied-Ordered (some e) =
      Ordered-then 5 _ _ (omega arith) (omega arith) (mark_false-Emits env _ _ _)
        λ _. Emits-within 5 _ (omega arith) (omega arith) (Emits-pure _)
  copied-Ordered none =
      Ordered-then 6 _ _ (omega arith) (omega arith) (Emits-call _ _ (λ r. inr refl))
        λ content. take_result-Ordered _

  run_docker_machine-Emits :
      (args : List String) → Emits (AtStage live_stage 5) (run_docker_machine env args)
  unfolding run_docker_machine
  run_docker_machine-Emits args = Emits-call_value _ _ (λ c. inr refl)

  fetch_result-Ordered : Ordered live_stage 4 7 (fetch_result env)
  unfolding fetch_result
  fetch_result-Ordered = Ordered-then 4 _ _ (omega arith) (omega arith) get_scp_args-Emits λ args.
      Ordered-then 5 _ _ (omega arith) (omega arith) (run_docker_machine-Emits args)
        λ c. copied-Ordered c.error

  is_script_finished-Ordered : Ordered live_stage 4 7 (is_script_finished env)
  unfolding is_script_finished
  is_script_finished-Ordered = Ordered-then 4 _ _ (omega arith) (omega arith) Emits-machine λ m.
      let no = Emits-within 4 _ (omega arith) (omega arith) (Emits-pure false) in
      Ordered-if _ _ _ no (Ordered-if _ _ _ no fetch_result-Ordered)

  -- What comes after the last stage, by errors or not, is at no stage.
  requeue_with_error-Ordered :
      {lo : ℕ} (e : Error) → lo ≤ 7 → Ordered live_stage lo 7 (requeue_with_error env e)
  requeue_with_error-Ordered e q =
      Emits-within 7 _ q (omega arith) (requeue_with_error-Emits env (live-StatusCalls 7) e)

  after_script-Ordered :
      (key : ObjectKey) (r : Except Bool) → Ordered live_stage 7 7 (after_script env key r)
  unfolding after_script
  after_script-Ordered key (err e) = requeue_with_error-Ordered e (omega arith)
  after_script-Ordered key (ok rekey) =
      Ordered-then 7 _ _ (omega arith) (omega arith)
        (returned-Emits env (live-StatusCalls 7) _
          (update_machine_status-Emits env (live-StatusCalls 7) key))
        λ e. Emits-Ordered _ (Emits-pure _)

  after_create-Ordered :
      (key : ObjectKey) (r : Except Unit) → Ordered live_stage 4 7 (after_create env key r)
  unfolding after_create
  after_create-Ordered key (err e) = requeue_with_error-Ordered e (omega arith)
  after_create-Ordered key (ok _) =
      Ordered-bind _ _ (omega arith) (Ordered-attempt _ is_script_finished-Ordered)
        (after_script-Ordered key)

  after_finalizer-Ordered :
      (key : ObjectKey) (r : Except Unit) → Ordered live_stage 1 7 (after_finalizer env key r)
  unfolding after_finalizer
  after_finalizer-Ordered key (err e) =
      Ordered-if _ _ _
        (Emits-within 1 _ (omega arith) (omega arith) (reconciled-Emits env (live-StatusCalls 1)))
        (requeue_with_error-Ordered e (omega arith))
  after_finalizer-Ordered key (ok _) =
      Ordered-bind {mid = 4} _ _ (omega arith) (Ordered-attempt _ create_machine-Ordered)
        (after_create-Ordered key)

  pub reconcile_live-Ordered : (key : ObjectKey) → Ordered live_stage 1 7 (reconcile_live env key)
  unfolding reconcile_live
  reconcile_live-Ordered key =
      Ordered-then 1 _ _ (omega arith) (omega arith)
        (Emits-attempt _ (ensure_finalizer-Emits env live-FinalizerAddition))
        (after_finalizer-Ordered key)
