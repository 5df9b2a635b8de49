-- ===== src/Env/Kubernetes.antt =====
-- The Kubernetes client, and the helpers of `kmodules.xyz/client-go` and controller-runtime that the
-- program calls, with what it relies on of each.
use docker_machine_operator.Base.{String, Bool, List}
use docker_machine_operator.Go.Error.{Error, Except}
use docker_machine_operator.Go.Map.{GoMap}
use docker_machine_operator.Api.Types.{ObjectKey, Condition, Machine}
use docker_machine_operator.Env.Event.{History}

pub record Client : Type 0 where
  -- `KBClient.Get` of a Machine, and of a Secret's data
  pub get_machine : History → ObjectKey → Except Machine
  pub get_secret : History → ObjectKey → Except GoMap
  -- `cu.CreateOrPatch`: the object as it stands in memory after a call that succeeds
  pub create_or_patch : History → Machine → (Machine → Machine) → Except Machine
  -- the committer of the status: the object as it stands in memory after a call that succeeds
  pub commit_status : History → Machine → Machine → Except Machine
  -- `kerr.IsNotFound`
  pub is_not_found : Error → Bool

-- `kmodules.xyz/client-go/conditions`: the conditions of the object after each call.
pub record Conditions : Type 0 where
  -- `cutil.IsConditionTrue`
  pub is_condition_true : List Condition → String → Bool
  -- `cutil.MarkTrue`: the object and the condition's type
  pub mark_true : Machine → String → List Condition
  -- `cutil.MarkFalse`: the object, type, reason, severity and message
  pub mark_false : Machine → String → String → String → String → List Condition
  -- `cutil.SetSummary` with `cutil.WithConditions`
  pub set_summary : Machine → List String → List Condition

-- Finalizers, of controller-runtime's controllerutil and `kmodules.xyz/client-go/core/v1`.
pub record Finalizers : Type 0 where
  pub contains_finalizer : Machine → String → Bool
  pub add_finalizer : List String → String → List String
  pub remove_finalizer : List String → String → List String
