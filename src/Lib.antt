-- ===== src/Lib.antt =====
-- The operator of docker-machine clusters, github.com/kluster-api/docker-machine-operator: a model of
-- its machine controller, and theorems on it.
--
-- The program watches Machine objects of a Kubernetes API server. A reconcile reads one machine and
-- then does one of four things: it gives a new machine its first phase; it takes down a machine that
-- is marked for deletion and removes its finalizer; it creates the machine with `docker-machine
-- create`, on AWS after a network of its own; or it fetches the result that the machine's startup
-- script left. In between it records conditions in the machine's status, from which the phase is
-- computed.
--
-- The parts, and the code that each models:
--   Api         api/v1alpha1: the objects (Types), the names of conditions, reasons and phases (Names,
--               Reason, Phase), GetPhase and GetFinalizer (Helper)
--   Memory      api/v1alpha1/zz_generated.deepcopy.go: the copies (DeepCopy) of objects whose pointers
--               lead to cells (Objects, Kinds), what the objects say (Values), and that the copies are
--               deep (Deep, Spec, Structs, Lists, Isolated); stringToP and stringPSlice of util.go (Strings)
--   Env         what the program calls: the Kubernetes client and its helpers (Kubernetes),
--               docker-machine and files (Container), EC2 and Azure (Cloud). Event has the calls, each
--               with its arguments and its answer
--   Effect      the methods of the reconciler as actions over `r.machineObj` and the calls so far
--   Go          what the source uses of Go's library: errors, maps, texts, strconv.Atoi,
--               bufio.Scanner, base64
--   Controller  pkg/controller: Reconcile (machine_controller.go, driver_controller.go), Create and
--               Args (machine.go), Script (cluster.go), Status, Finalizer, Files, Cleanup and Wait
--               (util.go), Secret (machine.go, util.go), Aws with Gateway and Vpc (aws.go), Region
--               (aws_region.go), Azure (azure.go)
--   Controller/Footprint, Controller/Safety
--               which calls each operation makes, and what follows for a reconcile and for a worker
--   Controller/Stages
--               the order of the calls of a reconcile
--   Controller/Requeue
--               when a reconcile asks for another one
--   Controller/Answers, Controller/Bounds
--               how a reconcile ends, and how much it makes outside the API server
--   Controller/Create/Accepted, Controller/Create/Runs, Controller/Create/Networked,
--   Controller/Create/Scripted, Controller/Cleanup/Completes, Controller/Aws/RoundTrip
--               the creation of a machine, also on AWS and with a script, its clean-up, and both for
--               its network, where the calls that are made go through
--   Controller/Worker
--               a worker that serves requests one after the other, and the first requests for a new
--               machine (Runs)
--   Server      pkg/cmds and cmd/docker-machine-operator: the options and their flags (Options), what
--               the start uses of controller-runtime (Manager), Run and the SetupWithManager methods
--               (Run), the command and the end of the process (Command)
--   Tests       the theorems at concrete inputs, in one environment
--
-- A function of the source that may fail is an action: it reads and writes the state, which is
-- `r.machineObj` and the history of the calls, and is done, failed with an error, or aborted. What was
-- written before an error stays written. A nil pointer that is dereferenced aborts. Each function of
-- the source has the same name here, in snake case; a function with several returns is cut into one
-- function for each piece that follows a call.
--
-- The environment is a record of functions. Whatever has a state of its own answers from the history
-- of all calls, so any behaviour of the API server, of the clouds and of the files is some
-- environment, and a theorem that has no hypothesis on it holds for all of them. A map of Go is the
-- list of its entries in the order in which it is ranged over, which is any order.
--
-- Objects are values in the model of the controller. That is sound for what the generated copies
-- serve, an object that is read from a cache and then written to: the theorems of Memory say that a
-- copy shares no cell with its object, where an object is a struct whose pointers, maps and slices
-- are addresses of cells.
--
-- Only `waitForState` loops without a structure to follow. Its model runs on fuel, one round for each
-- multiple of the pause up to the timeout and two more, which is enough for each wait that the source
-- starts. Durations are nanoseconds and do not overflow.
--
-- The start of the operator is an action of its own: a call may end the process with a code. The
-- manager and its controllers are a record of functions, like the environment, and what float64 and
-- float32 are is left open.
--
-- Not modelled: logging; the registrations of schemes and commands in pkg/cmds, and the version
-- command; how the manager hands requests to the reconcilers; the vendored libraries; the fields of
-- objects and answers that the program does not read. Requests are handled one after the other, as
-- the manager's default of one worker has it, and `serve` goes on after a reconcile that aborts, where
-- the process may end. The answers of EC2 have no nil fields, so that reading one does not abort.
pub mod Base
pub mod Go
pub mod Api
pub mod Memory
pub mod Env
pub mod Effect
pub mod Controller
pub mod Server
pub mod Tests
