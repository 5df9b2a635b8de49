-- ===== src/Controller/Requeue/Whole.antt =====
-- Whether a reconcile asks for another one (pkg/controller/machine_controller.go and cluster.go).
use docker_machine_operator.Base.{ℕ, ◌<◌, ◌≡◌, ◌⊎◌}
use docker_machine_operator.Go.Error.{Error}
use docker_machine_operator.Env.{Env}
use docker_machine_operator.Controller.Reconcile.{Reply}

-- No other reconcile is asked for, or one in 60 seconds after one more copy that failed.
abbrev pub IsTimely : ℕ → Reply → ℕ → Type 0
IsTimely n reply k = (reply.0.requeue_after ≡ 0) ⊎ ((reply.0.requeue_after ≡ 60) × (n < k))
