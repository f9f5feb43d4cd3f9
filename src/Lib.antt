-- ===== src/Lib.antt =====
-- itzo, the agent that runs the units (containers) of one pod on a cloud instance.
--
-- The agent gets the parameters of its pod over HTTP. The pod controller compares the wanted pod
-- with the one that it applied last, asks a container runtime to remove, create and start what
-- differs, and reports the statuses. A unit's own process runs, watches and restarts the unit's
-- command: probes say whether it is alive and ready, a status file carries its state back to the
-- controller, and its output goes into a log buffer that clients poll.
--
--   Base         lists, texts, maps, errors and integers: Go strings are lists of bytes, maps are
--                association lists, a signed integer is an integer with no bound unless a
--                conversion is written out
--   Api          pkg/api/types.go, internal.go, helper.go: the data of pods, units and statuses
--   LogBuf       pkg/logbuf/logbuf.go: the ring buffer of log lines; History says which list of
--                lines a buffer stands for, Write and Read relate the operations to that list
--   Io           methods with side effects as functions of a state, with errors and panics; Os is the
--                operating system as they reach it, with a variant that records its calls, Paths
--                the functions of path/filepath, Laws what do blocks and loops keep
--   Caps         pkg/caps/caps.go: the capabilities of a unit
--   Controller   pkg/server/pod_controller.go over pkg/runtime/runtime.go
--     Runtime      the runtime as a record of methods over a state, and a runtime that records
--                  its calls
--     State        the controller and the methods as actions that may fail or panic
--     Diff         unitsEqual, diffUnits, detectChangeType
--     Secrets      MergeSecretsIntoSpec
--     Update       CreatePod, RestartPod, RestartUnits, and SyncPodUnits up to its goroutine
--     Task         the goroutine of SyncPodUnits, with waitForInitUnit, one step at a time
--     Loop         UpdatePod, runUpdateLoop and doUpdate, as a system that makes a step for each
--                  event: a submitted update, a round of the loop, a return of Wait, a step of the
--                  goroutine, the cancellation of its context
--     Status       GetUnitName and GetStatus
--   Itzo         pkg/runtime/itzo_linux.go and the interfaces of itzo.go: ItzoRuntime fills the
--                runtime interface of the controller; Pull is ImagePuller
--   Mount        pkg/mount/mount.go: Special is MountSpecial and UnmountSpecial, Volumes is
--                CreateMount and DeleteMount, Links is resolveLinks, Attach is AttachMount and
--                DetachMount
--   Kill         pkg/util/kill/kill.go: the tree of a process
--   Podman       pkg/runtime/podman/podman.go; Convert is pkg/convert/convert.go, Logs the lines that
--                podman prints
--   Prober       pkg/prober: Probe is prober.go, Worker is worker.go
--   RunUnit      pkg/unit/unit.go: State is its data, Status the status file, Watch is
--                watchRunningCmd and handleCmdCleanup, Loop is RunUnitLoop with maybeBackOff,
--                Identity is CreateCommand and GetUser
--   Server       pkg/server: Update is updateHandler and statusHandler of server.go, Logs is
--                logsHandler with pkg/runtime/options.go, Tail is RunLogTailer and runAttach,
--                Exec is runExec up to the start of the command, Deploy is deployHandler with
--                DeployPackage of util.go, Files is fileHandler, Responses is http_utils.go
--   UnitDir      pkg/unit/unit.go: OpenUnit, the configuration files, Destroy; Pipes is pipe.go,
--                Pull is PullAndExtractImage with pkg/image/tosi.go
--   UnitManager  pkg/unit/unit_manager.go: the tables of running units and log buffers, StartUnit,
--                StopUnit, RemoveUnit, and the goroutine that waits for a process
--   UnitRun      pkg/unit/unit.go: the helpers of Unit.Run, with pkg/helper/helper.go; Flow is Run up
--                to the command's loop, which is a parameter of it
--   Utils        pkg/util: Names is naming.go, EnvList is envlist.go, Images is image.go with
--                ports.go and probes.go, Users is user.go, Passwd is pwduser.go, Files is
--                TailFile of file.go
--
-- A request goes from the controller to ItzoRuntime, which pulls images and opens units, mounts
-- volumes and starts units through the unit manager; the manager starts a helper process per unit,
-- which goes through UnitRun and then runs the loop of RunUnit. Controller and runtime, and runtime
-- and services, meet at records of methods, so that a theorem about one holds for every other.
--
-- A nil pointer is `none`. A panic is a result of its own, or `none` of the result where nothing
-- else can fail. Concurrency is a list of events in any order; one goroutine at a time waits for
-- another, as the wait group has it. Loops are structural recursion on a list, but for those on
-- fuel: the rounds of RunUnitLoop are a list of what each of them meets, and the loop of
-- watchRunningCmd reads a list of the messages that its selects receive. The fuel of killProcessTree is the depth of its calls, and
-- one more than the number of processes is enough. The fuel of tailLines is one more than the
-- length of the file, of which each round but the last reads more. The fuel of resolveLinks is the
-- depth to which it may call itself, which stands for the stack: it calls itself for absolute links only, each call
-- uses one, and out of it the program dies; a depth of 1 is enough where no link is absolute. The
-- digits of a number are printed up to 19 of them, which is all that an int64 has. Times are
-- nanoseconds.
--
-- Parameters, which code outside the repository stands for: container runtimes in general, podman's
-- client, the probers of Kubernetes, encoding/json, the operating system and its processes, control groups,
-- multierror.Append, strconv.Atoi and ParseInt, the user tables of the host and the parsers of such
-- files, the quoting of command lines, and the text of an error or of a volume. Parameters for code
-- of the repository that only starts programs or reads tables: the run of the tosi program,
-- InitializeGPU, TweakCapabilities.
--
-- Not modelled: the runtime for virtual machines, network namespaces, the routing and encryption of
-- the HTTP server, its terminals and its resizing of volumes, the reading of metrics, and the
-- clients of clouds and drivers.
pub mod Base
pub mod Io
pub mod Api
pub mod LogBuf
pub mod Mount
pub mod Itzo
pub mod Caps
pub mod Kill
pub mod Podman
pub mod Server
pub mod Controller
pub mod Prober
pub mod RunUnit
pub mod UnitDir
pub mod UnitManager
pub mod UnitRun
pub mod Utils
