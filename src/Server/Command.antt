-- ===== src/Server/Command.antt =====
-- pkg/cmds and cmd/docker-machine-operator: the commands, and what the process exits with.
use docker_machine_operator.Base.{String, ℕ, ◌<>◌, Option, none, some, List, [], ◌∷◌}
use docker_machine_operator.Go.Error.{Error, message}
use docker_machine_operator.Server.Options.{
  OperatorOptions, Flag, new_operator_options, add_go_flags,
}
use docker_machine_operator.Server.Manager.{ManagerEnv}
use docker_machine_operator.Server.Run.{Startup, run, failure_code}

-- `cobra.Command`, as far as the program fills it: its line of use, its flags with the options to
-- which they are bound, what it runs with the options as they are then, and its commands.
pub record RunCommand (D F : Type 0) : Type 0 where
  pub use_line : String
  pub options : OperatorOptions D
  pub flags : List (Flag D)
  pub run_e : OperatorOptions D → Startup F Unit

-- `NewCmdRun`; `run` is called with what the flags made of the options.
unfoldable pub new_cmd_run : {D F : Type 0} → ManagerEnv D F → D → RunCommand D F
new_cmd_run env million = record {
  use_line = "run";
  options = new_operator_options million;
  flags = add_go_flags;
  run_e = run env;
}

-- How the process ends after `rootCmd.Execute()`, and what it prints on the standard error.
unfoldable pub main_end : Option Error → ℕ × List String
main_end none = (0, [])
main_end (some e) = (failure_code, (message e <> "\n") ∷ [])
