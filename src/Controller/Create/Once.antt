-- ===== src/Controller/Create/Once.antt =====
-- The machine that `createMachine` (pkg/controller/machine.go) leaves once `docker-machine create` has run.
use docker_machine_operator.Base.{
  String, ◌==◌, true, false, ◌≡◌, refl, Option, none, some, List, ◌∷◌, Bool-cases, inl, inr,
}
use docker_machine_operator.Go.Error.{Error, ok, Except-cases}
use docker_machine_operator.Go.Text.{contains}
use docker_machine_operator.Api.Types.{Machine, ObjectKey, set_conditions, key_of}
use docker_machine_operator.Api.Names.{machine_ready, machine_creating}
use docker_machine_operator.Api.Helper.{conditions_order}
use docker_machine_operator.Env.Event.{History, got_machine}
use docker_machine_operator.Env.{Env}
use docker_machine_operator.Effect.{State, fail, call, call_value, machine, set_machine, ◌>>=◌}
use docker_machine_operator.Controller.Status.{
  is_true, mark_true, mark_false, set_summary, summarised, update_machine_status,
}
use docker_machine_operator.Controller.Create.{
  run_with_timeout, creation_succeeded, creation_failed, creation_result, run_creation,
}

-- What the condition helpers and the committer promise: a condition that is marked true is true, and
-- a true condition stays so when another type is marked, the summary is made or the status is stored.
pub record IsLawful (env : Env) : Type 0 where
  pub marks_true :
      (m : Machine) (kind : String) → env.is_condition_true (env.mark_true m kind) kind ≡ true
  pub mark_true_keeps :
      (m : Machine) (kind other : String)
      → is_true env m other ≡ true
      → env.is_condition_true (env.mark_true m kind) other ≡ true
  pub mark_false_keeps :
      (m : Machine) (kind reason severity text other : String)
      → (kind == other) ≡ false
      → is_true env m other ≡ true
      → env.is_condition_true (env.mark_false m kind reason severity text) other ≡ true
  pub set_summary_keeps :
      (m : Machine) (kinds : List String)
      → is_true env m machine_creating ≡ true
      → env.is_condition_true (env.set_summary m kinds) machine_creating ≡ true
  pub commit_keeps :
      (h : History) (old m stored : Machine) (kind : String)
      → env.commit_status h old m ≡ ok stored
      → is_true env m kind ≡ true
      → is_true env stored kind ≡ true

module _ (env : Env) (laws : IsLawful env) where
  -- The machine in memory is marked as being created.
  abbrev pub IsMarked : State → Type 0
  IsMarked s = (m : Machine) × (s.machine_obj ≡ some m) × (is_true env m machine_creating ≡ true)

  update_machine_status-IsMarked :
      (key : ObjectKey) (s : State) → IsMarked s → IsMarked (update_machine_status env key s).1
  unfolding update_machine_status set_summary call machine set_machine ◌>>=◌
  update_machine_status-IsMarked key s (m, e, t) =
      let m' = summarised env m in
      let t' : is_true env m' machine_creating ≡ true =
        laws.set_summary_keeps m conditions_order t in
      elim (Except-cases (env.get_machine s.log key)) [
        | inl (x, r) ↦ rw (r, e) (m, refl, t)
        | inr (server, r) ↦
            elim (Except-cases
              (env.commit_status (got_machine key (ok server) ∷ s.log) server m')) [
                | inl (x, w) ↦ rw (r, e, w) (m', refl, t')
                | inr (stored, w) ↦
                    rw (r, e, w)
                      (stored, refl, laws.commit_keeps _ server m' stored machine_creating w t')
              ]
      ]

  creation_succeeded-IsMarked : (s : State) → IsMarked s → IsMarked (creation_succeeded env s).1
  unfolding creation_succeeded mark_true machine set_machine ◌>>=◌
  creation_succeeded-IsMarked s (m, e, t) = rw e (
      update_machine_status-IsMarked (key_of m)
        (record s { machine_obj = some (set_conditions m (env.mark_true m machine_ready)) })
        (
          set_conditions m (env.mark_true m machine_ready),
          refl,
          laws.mark_true_keeps m machine_ready machine_creating t,
        ))

  creation_failed-IsMarked :
      (x : Error) (s : State) → IsMarked s → IsMarked (creation_failed env x s).1
  unfolding creation_failed mark_false machine set_machine fail ◌>>=◌
  creation_failed-IsMarked x s (m, e, t) =
      rw e (_, refl, laws.mark_false_keeps m machine_ready _ _ _ machine_creating refl t)

  creation_result-IsMarked :
      (r : Option Error) (stderr : String) (s : State)
      → IsMarked s
      → IsMarked (creation_result env r stderr s).1
  unfolding creation_result
  creation_result-IsMarked none stderr s k = creation_succeeded-IsMarked s k
  creation_result-IsMarked (some x) stderr s k =
      elim (Bool-cases (contains stderr "already exists")) [
        | inl t ↦ rw t (creation_succeeded-IsMarked s k)
        | inr f ↦ rw f (creation_failed-IsMarked x s k)
      ]

  pub run_creation-IsMarked :
      (args : List String) (s : State) (m : Machine)
      → s.machine_obj ≡ some m
      → IsMarked (run_creation env args s).1
  unfolding run_creation run_with_timeout mark_true call_value machine set_machine ◌>>=◌
  run_creation-IsMarked args s m e = rw e (
      creation_result-IsMarked _ _ _ (
        set_conditions m (env.mark_true m machine_creating),
        refl,
        laws.marks_true m machine_creating,
      ))
