-- ===== src/Server/Options.antt =====
-- pkg/cmds/server/server.go: the operator's options, and the flags that set them. Durations are
-- nanoseconds. What a `float64` is, and the one that the source writes, are parameters.
use docker_machine_operator.Base.{String, ℕ, ◌*◌, Bool, false, Option, none, some, List, [], ◌∷◌}
use docker_machine_operator.Go.Number.{ℤ, pos}
use docker_machine_operator.Controller.Wait.{second}

pub record OperatorOptions (F : Type 0) : Type 0 where
  pub master_url : String
  pub kubeconfig_path : String
  pub license_file : String
  pub qps : F
  pub burst : ℤ
  pub resync_period : ℤ
  pub max_num_requeues : ℤ
  pub num_threads : ℤ
  pub metrics_addr : String
  pub enable_leader_election : Bool
  pub probe_addr : String

abbrev pub nanoseconds : ℕ → ℤ
nanoseconds n = pos n

-- The argument is the literal `1e6`.
unfoldable pub new_operator_options : {F : Type 0} → F → OperatorOptions F
new_operator_options million = record {
  master_url = "";
  kubeconfig_path = "";
  license_file = "";
  qps = million;
  burst = pos 1_000_000;
  resync_period = nanoseconds (10 * 60 * second);
  max_num_requeues = pos 5;
  num_threads = pos 2;
  metrics_addr = ":8080";
  enable_leader_election = false;
  probe_addr = ":8081";
}

-- The value of a flag, by the type with which it is declared.
pub data Value (F : Type 0) : Type 0 where
  text : String → Value F
  float : F → Value F
  int : ℤ → Value F
  duration : ℤ → Value F
  bool : Bool → Value F

-- A flag is bound to a field of the options: it reads its default there, and is written there. A value
-- of another type does not fit.
pub record Flag (F : Type 0) : Type 0 where
  pub name : String
  pub read : OperatorOptions F → Value F
  pub write : Value F → OperatorOptions F → Option (OperatorOptions F)

module _ {F : Type 0} where
  -- The value of each type, if it is of that type.
  abbrev pub as_text : Value F → Option String
  as_text (text x) = some x
  as_text _ = none

  abbrev pub as_float : Value F → Option F
  as_float (float x) = some x
  as_float _ = none

  abbrev pub as_int : Value F → Option ℤ
  as_int (int x) = some x
  as_int _ = none

  abbrev pub as_duration : Value F → Option ℤ
  as_duration (duration x) = some x
  as_duration _ = none

  abbrev pub as_bool : Value F → Option Bool
  as_bool (bool x) = some x
  as_bool _ = none

  abbrev written : {X : Type 0} → (X → OperatorOptions F) → Option X → Option (OperatorOptions F)
  written set none = none
  written set (some x) = some (set x)

  -- `fs.StringVar` and the like, by the constructor of the type and its inverse.
  abbrev pub var :
      {X : Type 0}
      → (X → Value F)
      → (Value F → Option X)
      → String
      → (OperatorOptions F → X)
      → (X → OperatorOptions F → OperatorOptions F)
      → Flag F
  var wrap unwrap name get set = record {
    name = name;
    read = λ o. wrap (get o);
    write = λ v o. written (λ x. set x o) (unwrap v);
  }

  -- `AddGoFlags`, in its order.
  abbrev pub add_go_flags : List (Flag F)
  add_go_flags =
      var text as_text "master" (λ o. o.master_url) (λ x o. record o { master_url = x })
      ∷ var text as_text "kubeconfig" (λ o. o.kubeconfig_path)
          (λ x o. record o { kubeconfig_path = x })
      ∷ var text as_text "license-file" (λ o. o.license_file) (λ x o. record o { license_file = x })
      ∷ var float as_float "qps" (λ o. o.qps) (λ x o. record o { qps = x })
      ∷ var int as_int "burst" (λ o. o.burst) (λ x o. record o { burst = x })
      ∷ var duration as_duration "resync-period" (λ o. o.resync_period)
          (λ x o. record o { resync_period = x })
      ∷ var text as_text "metrics-bind-address" (λ o. o.metrics_addr)
          (λ x o. record o { metrics_addr = x })
      ∷ var text as_text "health-probe-bind-address" (λ o. o.probe_addr)
          (λ x o. record o { probe_addr = x })
      ∷ var bool as_bool "leader-elect" (λ o. o.enable_leader_election)
          (λ x o. record o { enable_leader_election = x })
      ∷ []
