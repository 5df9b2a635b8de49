-- ===== src/Controller/Create/Accepted.antt =====
-- The statuses that are written while a machine is created, where the API server takes them
-- (pkg/controller/util.go and machine.go).
use docker_machine_operator.Base.{String, ◌≡◌, refl, some, ◌∷◌}
use docker_machine_operator.Go.Error.{ok}
use docker_machine_operator.Api.Types.{ObjectKey, Machine, key_of, set_conditions}
use docker_machine_operator.Api.Names.{
  machine_ready, machine_creating, cluster_operation_complete, auth_data_ready, severity_error,
}
use docker_machine_operator.Api.Reason
use docker_machine_operator.Env.Event.{History, got_machine, committed}
use docker_machine_operator.Env.{Env}
use docker_machine_operator.Effect.{done, call, machine, set_machine, ◌>>=◌}
use docker_machine_operator.Controller.Status.{set_summary, summarised, update_machine_status}

-- The API server finds an object for the machine, which it chooses after the calls so far, and stores a
-- status as it is given.
pub record Accepts (env : Env) : Type 0 where
  pub server : History → Machine
  pub reads : (h : History) (key : ObjectKey) → env.get_machine h key ≡ ok (server h)
  pub commits : (h : History) (old m : Machine) → env.commit_status h old m ≡ ok m

-- A condition that is set, and the conditions with which a creation begins.
abbrev pub with_true : Env → String → Machine → Machine
with_true env kind m = set_conditions m (env.mark_true m kind)

abbrev with_false : Env → String → String → String → Machine → Machine
with_false env kind reason text m =
    set_conditions m (env.mark_false m kind reason severity_error text)

abbrev pub initial : Env → Machine → Machine
initial env m =
    with_false env cluster_operation_complete Reason.waiting_for_script_run
      "Waiting for Script to run"
      (with_false env machine_ready Reason.machine_creating "Waiting for Machine to become ready" m)

module _ (env : Env) (api : Accepts env) where
  -- The calls of a status update.
  abbrev pub written_at : ObjectKey → Machine → History → History
  written_at key m h = committed (api.server h) m (ok m) ∷ got_machine key (ok (api.server h)) ∷ h

  abbrev pub written : Machine → History → History
  written m h = written_at (key_of m) m h

  pub update_machine_status-accepted :
      (key : ObjectKey) (m : Machine) (h : History)
      → update_machine_status env key (record { machine_obj = some m; log = h }) ≡ (
        done tt,
        record { machine_obj = some (summarised env m); log = written_at key (summarised env m) h },
      )
  unfolding update_machine_status set_summary call machine set_machine ◌>>=◌
  update_machine_status-accepted key m h =
      rw (api.reads h key) (rw (api.commits _ (api.server h) (summarised env m)) refl)

  -- The machine before its credentials are looked for, before it is created, and after.
  abbrev pub prepared : Machine → Machine
  prepared m = summarised env (initial env m)

  abbrev pub authorised : Machine → Machine
  authorised m = summarised env (with_true env auth_data_ready m)

  abbrev pub finished : Machine → Machine
  finished m = summarised env (with_true env machine_ready (with_true env machine_creating m))

  abbrev pub creating : Machine → Machine
  creating m = authorised (prepared m)

  abbrev pub created : Machine → Machine
  created m = finished (creating m)
