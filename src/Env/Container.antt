-- ===== src/Env/Container.antt =====
-- What the container gives: `docker-machine` and files.
use docker_machine_operator.Base.{String, ℕ, Option, List}
use docker_machine_operator.Go.Error.{Error, Except}
use docker_machine_operator.Env.Event.{History, Command}

pub record Host : Type 0 where
  -- `exec.Command("docker-machine", args...).Run()`, with a deadline or without one
  pub run : History → Option ℕ → List String → Command
  -- `os.Stat`, `os.WriteFile`, `os.Remove`; `os.Open` gives what the file holds
  pub stat : History → String → Option Error
  pub write_file : History → String → String → Option Error
  pub remove_file : History → String → Option Error
  pub open_file : History → String → Except String
