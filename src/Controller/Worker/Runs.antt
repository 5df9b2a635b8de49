-- ===== src/Controller/Worker/Runs.antt =====
-- A new machine under repeated reconciles, where the API server answers
-- (pkg/controller/machine_controller.go).
use docker_machine_operator.Base.{
  String, ◌==◌, Bool, true, false, ◌≡◌, refl, ap, ◌∙◌, Option, none, some, [], ◌∷◌, All,
}
use docker_machine_operator.Go.Error.{Error, ok}
use docker_machine_operator.Go.Map.{GoMap}
use docker_machine_operator.Go.Text.{is_empty}
use docker_machine_operator.Api.Types.{ObjectKey, Machine, ObjectReference, LocalObjectReference}
use docker_machine_operator.Api.Helper.{get_finalizer}
use docker_machine_operator.Api.Helper.Given.{get_phase-IsGiven}
use docker_machine_operator.Env.Event.{
  succeeded, History, Edit, finalizer_added, patched, ran, got_secret, got_machine, committed,
}
use docker_machine_operator.Env.{Env}
use docker_machine_operator.Effect.{
  State, Outcome, Action, done, pure, call, attempt, machine, set_machine, ◌>>=◌,
}
use docker_machine_operator.Effect.Returns.{done-bind, attempt-done}
use docker_machine_operator.Controller.Status.{returned, summarised}
use docker_machine_operator.Controller.Finalizer.{transform, ensure_finalizer}
use docker_machine_operator.Controller.Create.{machine_creation_timeout, is_created, create_machine}
use docker_machine_operator.Controller.Create.Accepted.{
  Accepts, written, written_at, update_machine_status-accepted, prepared, creating, created,
}
use docker_machine_operator.Controller.Create.Runs.{create_machine-runs}
use docker_machine_operator.Controller.Secret.{aws_driver, object_key}
use docker_machine_operator.Controller.Args.Flags.{IsUsable}
use docker_machine_operator.Controller.Args.Line.{line}
use docker_machine_operator.Controller.Script.{is_script_finished}
use docker_machine_operator.Controller.Reconcile.{
  Reply, is_marked_for_deletion, requeue, no_phase, reconcile_found, reconcile_live,
  after_finalizer, after_create, after_script, reconcile,
}
use docker_machine_operator.Controller.Safety.Calls.{reconcile_found_lem}
use docker_machine_operator.Controller.Worker.{serve}

-- The API server stores every patch, and a status that is stored is what it gives next.
pub record Stores (env : Env) : Type 0 where
  pub accepts : Accepts env
  pub patches :
      (h : History) (m : Machine) (edit : Edit)
      → env.create_or_patch h m (transform env edit) ≡ ok (transform env edit m)
  pub committed_last :
      (h : History) (old m : Machine) → accepts.server (committed old m (ok m) ∷ h) ≡ m

returned-done :
    {A : Type 0} (act : Action Unit) (f : Option Error → Action A) (s s' : State)
    → act s ≡ (done tt, s')
    → (returned act >>= f) s ≡ f none s'
unfolding attempt pure ◌>>=◌
returned-done act f s s' e = rw e refl

module _ (env : Env) (api : Stores env) (key : ObjectKey) where
  -- The machine with its first phase, and with the finalizer.
  abbrev pub protected : Machine → Machine
  protected m = transform env (finalizer_added get_finalizer) m

  -- The calls of the first reconcile, and of the second up to the creation.
  abbrev pub phased : History → History
  phased h =
      written_at env api.accepts key (summarised env (api.accepts.server h))
        (got_machine key (ok (api.accepts.server h)) ∷ h)

  -- A machine without a phase gets one, and nothing else happens.
  reconcile-phased :
      (old : Option Machine) (h : History)
      → is_empty (api.accepts.server h).status.phase ≡ true
      → reconcile env key (record { machine_obj = old; log = h }) ≡ (
        done (record { requeue_after = 0 }, none),
        record { machine_obj = some (summarised env (api.accepts.server h)); log = phased h },
      )
  unfolding reconcile_found no_phase pure
  reconcile-phased old h new =
      reconcile_found_lem env key (record { machine_obj = old; log = h }) (api.accepts.reads h key)
      ∙ rw new (
          returned-done _ _ _ _ (
            update_machine_status-accepted env api.accepts key (api.accepts.server h)
              (got_machine key (ok (api.accepts.server h)) ∷ h)))

  -- The second reconcile finds what the first one stored.
  phased-found :
      (h : History) → env.get_machine (phased h) key ≡ ok (summarised env (api.accepts.server h))
  phased-found h =
      api.accepts.reads (phased h) key
      ∙ ap ok (
          api.committed_last _
            (api.accepts.server (got_machine key (ok (api.accepts.server h)) ∷ h)) _)

  module _ (m : Machine) (h : History) where
    abbrev pub guarded : History
    guarded =
        patched m (finalizer_added get_finalizer) (ok (protected m)) ∷ got_machine key (ok m) ∷ h

    ensure_finalizer-stored :
        env.contains_finalizer m get_finalizer ≡ false
        → ensure_finalizer env (record { machine_obj = some m; log = got_machine key (ok m) ∷ h })
          ≡ (done tt, record { machine_obj = some (protected m); log = guarded })
    unfolding ensure_finalizer call machine set_machine ◌>>=◌
    ensure_finalizer-stored lacks =
        rw (lacks, api.patches (got_machine key (ok m) ∷ h) m (finalizer_added get_finalizer)) refl

    -- A machine with a phase, from the finalizer to the status after the look at the script.
    reconcile-looked :
        {m' m'' : Machine} {h' h'' : History} {rekey : Bool} (old : Option Machine)
        → env.get_machine h key ≡ ok m
        → is_empty m.status.phase ≡ false
        → is_marked_for_deletion m ≡ false
        → env.contains_finalizer m get_finalizer ≡ false
        → create_machine env (record { machine_obj = some (protected m); log = guarded })
          ≡ (done tt, record { machine_obj = some m'; log = h' })
        → is_script_finished env (record { machine_obj = some m'; log = h' })
          ≡ (done rekey, record { machine_obj = some m''; log = h'' })
        → reconcile env key (record { machine_obj = old; log = h }) ≡ (
          done (requeue rekey, none),
          record {
            machine_obj = some (summarised env m'');
            log = written_at env api.accepts key (summarised env m'') h'';
          },
        )
    unfolding reconcile_found reconcile_live after_finalizer after_create after_script pure
    reconcile-looked {m''} {h''} old found has_phase live lacks creates looks =
        reconcile_found_lem env key (record { machine_obj = old; log = h }) found
        ∙ rw (has_phase, live)
            (done-bind _ _ _ _ _ (attempt-done _ _ _ _ (ensure_finalizer-stored lacks))
              ∙ done-bind _ _ _ _ _ (attempt-done _ _ _ _ creates)
              ∙ done-bind _ _ _ _ _ (attempt-done _ _ _ _ looks)
              ∙ returned-done _ _ _ _ (update_machine_status-accepted env api.accepts key m'' h''))

  -- The machine after the first reconcile, and the calls of the second up to the creation, with the
  -- finalizer, and up to the look at the script.
  abbrev pub first : History → Machine
  first h = summarised env (api.accepts.server h)

  abbrev pub ready_to_create : History → History
  ready_to_create h = guarded (first h) (phased h)

  abbrev pub with_secret : ObjectReference → GoMap → History → History
  with_secret ref secret h =
      got_secret (object_key ref) (ok secret)
      ∷ written env api.accepts (prepared env api.accepts (protected (first h))) (ready_to_create h)

  abbrev pub with_credentials : ObjectReference → GoMap → History → History
  with_credentials ref secret h =
      written env api.accepts (creating env api.accepts (protected (first h)))
        (with_secret ref secret h)

  abbrev pub with_host :
      LocalObjectReference → ObjectReference → GoMap → String → String → History → History
  with_host driver ref secret out text h =
      written env api.accepts (created env api.accepts (protected (first h))) (
        ran (some machine_creation_timeout) (line (protected (first h)) driver.name secret)
          (succeeded out text)
        ∷ with_credentials ref secret h)

  -- If the API server stores what it is given, then two requests for a machine that has no phase, no
  -- finalizer and no deletion mark, is not created, is not on AWS, has no script, and has a usable
  -- secret, create it: the first writes its phase; the second stores the finalizer, writes the first
  -- conditions, reads the secret, writes the credentials as ready, runs `docker-machine create` with
  -- the machine's line, and where that and the look at the script go through, the machine that the
  -- look left is in memory and is what the API server has.
  pub serve-creates :
      {m : Machine} {h' : History} {rekey : Bool} (old : Option Machine) (h : History)
      (driver : LocalObjectReference) (ref : ObjectReference) (secret : GoMap) (out text : String)
      → is_empty (api.accepts.server h).status.phase ≡ true
      → is_marked_for_deletion (api.accepts.server h) ≡ false
      → env.contains_finalizer (first h) get_finalizer ≡ false
      → is_created env (protected (first h)) ≡ false
      → (api.accepts.server h).spec.driver ≡ some driver
      → (driver.name == aws_driver) ≡ false
      → (api.accepts.server h).spec.script_ref ≡ none
      → (api.accepts.server h).spec.auth_secret ≡ some ref
      → env.get_secret
          (written env api.accepts
            (prepared env api.accepts (protected (first h)))
            (ready_to_create h))
          (object_key ref)
        ≡ ok secret
      → All (IsUsable driver.name) secret
      → env.run
          (with_credentials ref secret h)
          (some machine_creation_timeout)
          (line (protected (first h)) driver.name secret)
        ≡ succeeded out text
      → is_script_finished env (record {
        machine_obj = some (created env api.accepts (protected (first h)));
        log = with_host driver ref secret out text h;
      })
        ≡ (done rekey, record { machine_obj = some m; log = h' })
      → (serve env (key ∷ key ∷ []) (record { machine_obj = old; log = h }) ≡ record {
        machine_obj = some (summarised env m);
        log = written_at env api.accepts key (summarised env m) h';
      })
        × (api.accepts.server (written_at env api.accepts key (summarised env m) h')
            ≡ summarised env m)
  unfolding serve
  serve-creates {m} {h'} old h driver ref secret out text new live lacks absent named other bare
        auth found usable runs looks =
      let second =
        reconcile-looked (first h) (phased h) (some (first h)) (phased-found h)
          ((get_phase-IsGiven _).is_given) live lacks
          (create_machine-runs env api.accepts (protected (first h)) (ready_to_create h) driver ref
            secret out text absent named other bare auth found usable runs)
          looks in
      (
        ap (λ (r : Outcome Reply × State). (reconcile env key r.1).1) (reconcile-phased old h new)
            ∙ ap (λ (r : Outcome Reply × State). r.1) second,
        api.committed_last _ _ _,
      )
