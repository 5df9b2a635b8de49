-- ===== src/Controller/Safety/Protected.antt =====
-- Nothing is built for a machine before its finalizer is stored
-- (pkg/controller/machine_controller.go).
use docker_machine_operator.Base.{Bool, true, false, ◌≡◌, refl, some, ◌∷◌, if◌then◌else◌}
use docker_machine_operator.Go.Text.{is_empty}
use docker_machine_operator.Go.Error.{Error, ok, err}
use docker_machine_operator.Api.Types.{ObjectKey, Machine}
use docker_machine_operator.Api.Helper.{get_finalizer}
use docker_machine_operator.Env.Event.{
  Event, History, got_machine, patched, finalizer_added, ran, wrote_file, created_vpc,
  created_subnet, created_gateway, attached_gateway, created_route,
}
use docker_machine_operator.Env.{Env}
use docker_machine_operator.Effect.{
  State, Action, failed, attempt, call, machine, set_machine, ◌>>=◌,
}
use docker_machine_operator.Effect.Footprint.{Extends, same, more, Extends-trans, Emits-if}
use docker_machine_operator.Controller.Finalizer.{transform, ensure_finalizer}
use docker_machine_operator.Controller.Reconcile.{
  is_marked_for_deletion, reconcile_found, after_finalizer, reconcile_live, reconcile,
}
use docker_machine_operator.Controller.Footprint.Status.{reconciled-Emits, requeue_with_error-Emits}
use docker_machine_operator.Controller.Footprint.Whole.{reconcile_deleted-Emits, no_phase-Emits}
use docker_machine_operator.Controller.Safety.Events.{
  is_command, CreatesNothing, CreatesNothing-StatusCalls, CreatesNothing-SecretCalls,
  CreatesNothing-NetworkDeletion, CreatesNothing-TeardownCalls, CreatesNothing-FinalizerRemoval,
}
use docker_machine_operator.Controller.Safety.Calls.{after_found, reconcile_found_lem}

-- Not a call that builds something: `docker-machine create` is not run, no file is written, and
-- nothing is created or attached on AWS.
abbrev pub BuildsNothing : Event → Type 0
BuildsNothing (ran deadline args c) = is_command "create" args ≡ false
BuildsNothing (wrote_file path value r) = ⊥
BuildsNothing (created_vpc c cidr r) = ⊥
BuildsNothing (created_subnet c cidr vpc zone r) = ⊥
BuildsNothing (created_gateway c r) = ⊥
BuildsNothing (attached_gateway c id vpc r) = ⊥
BuildsNothing (created_route c to id table r) = ⊥
BuildsNothing _ = Unit

pub CreatesNothing-BuildsNothing : (e : Event) → CreatesNothing e → BuildsNothing e
CreatesNothing-BuildsNothing (ran deadline args c) k = k
CreatesNothing-BuildsNothing (wrote_file path value r) k = k
CreatesNothing-BuildsNothing (created_vpc c cidr r) k = k
CreatesNothing-BuildsNothing (created_subnet c cidr vpc zone r) k = k
CreatesNothing-BuildsNothing (created_gateway c r) k = k
CreatesNothing-BuildsNothing (attached_gateway c id vpc r) k = k
CreatesNothing-BuildsNothing (created_route c to id table r) k = k
CreatesNothing-BuildsNothing _ k = tt

pub Extends-BuildsNothing : {a b : History} → Extends CreatesNothing a b → Extends BuildsNothing a b
Extends-BuildsNothing same = same
Extends-BuildsNothing (more {e} k x) =
    more (CreatesNothing-BuildsNothing e k) (Extends-BuildsNothing x)

pub branches :
    {A : Type 0} {P : Event → Type 0} {old : History} (b c : Bool) (x y z : Action A) (s : State)
    → Extends P old (x s).1.log
    → Extends P old (y s).1.log
    → Extends P old (z s).1.log
    → Extends P old ((if b then x else if c then y else z) s).1.log
branches true c x y z s p q r = p
branches false true x y z s p q r = q
branches false false x y z s p q r = r

module _ (env : Env) (key : ObjectKey) (s : State) {m : Machine} {e : Error}
    (found : env.get_machine s.log key ≡ ok m)
    (unprotected : env.contains_finalizer m get_finalizer ≡ false)
    (refused : env.create_or_patch
        (got_machine key (ok m) ∷ s.log)
        m
        (transform env (finalizer_added get_finalizer))
      ≡ err e) where
  abbrev after_refusal : State
  after_refusal = record {
    machine_obj = some m;
    log = patched m (finalizer_added get_finalizer) (err e) ∷ got_machine key (ok m) ∷ s.log;
  }

  ensure_finalizer-refused :
      ensure_finalizer env (after_found env key s found) ≡ (failed e, after_refusal)
  unfolding ensure_finalizer call machine set_machine ◌>>=◌
  ensure_finalizer-refused = rw (unprotected, refused) refl

  live-BuildsNothing :
      Extends BuildsNothing
        (got_machine key (ok m) ∷ s.log)
        (reconcile_live env key (after_found env key s found)).1.log
  unfolding reconcile_live after_finalizer attempt ◌>>=◌
  live-BuildsNothing = rw ensure_finalizer-refused (
      Extends-trans (more tt same) (
        Extends-BuildsNothing (
          (Emits-if (env.is_not_found e) _ _ (reconciled-Emits env CreatesNothing-StatusCalls)
              (requeue_with_error-Emits env CreatesNothing-StatusCalls e)).at
            after_refusal)))

  -- If the machine that is read has not the finalizer, and the API server refuses to store it, the
  -- reconcile runs no `docker-machine create`, writes no file, and creates and attaches nothing on
  -- AWS.
  pub reconcile-BuildsNothing : Extends BuildsNothing s.log (reconcile env key s).1.log
  unfolding reconcile_found
  reconcile-BuildsNothing = rw (reconcile_found_lem env key s found) (
      Extends-trans (more tt same) (
        branches (is_empty m.status.phase) (is_marked_for_deletion m) _ _ _
          (after_found env key s found)
          (Extends-BuildsNothing (
            (no_phase-Emits env CreatesNothing-StatusCalls CreatesNothing-SecretCalls
                CreatesNothing-NetworkDeletion key).at
              (after_found env key s found)))
          (Extends-BuildsNothing (
            (reconcile_deleted-Emits env CreatesNothing-StatusCalls CreatesNothing-SecretCalls
                CreatesNothing-NetworkDeletion CreatesNothing-TeardownCalls
                CreatesNothing-FinalizerRemoval).at
              (after_found env key s found)))
          live-BuildsNothing))
