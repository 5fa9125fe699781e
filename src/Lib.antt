-- ===== src/Lib.antt =====
-- Verification of the backend of calf, a daemon that runs a container engine and serves an HTTP API.
--
-- The parts and how they interact. The daemon (backend/internal/daemon) holds the configuration and
-- runs workers. One of them exports volumes at the times of stored schedules: every tick it lists the
-- schedules of the store, asks for each whether it is due, runs the export through the runtime, and
-- stores the schedule with its next run. Another stops the engine after an idle time, and its lists are
-- served from a snapshot then. Others sample the containers' stats and import the builds of buildkit's
-- history. The log broadcaster shares one stream of each container among its viewers. The runtime is the
-- engine: it lists resources and prunes them, and the tests have a mock of it. The API decodes requests,
-- routes them by the segments of their path, and changes the configuration or the schedules.
--
-- The files, each with its code; a name here is the source's in snake case:
-- Common, Strings: shared helpers; Go's package strings on lists of code points.
-- Utils: backend/internal/utils. Format is FormatBytes (format.go), Size is size.go, Sanitize is
-- sanitize.go and ParseLines of lines.go.
-- VolumeExport: backend/internal/volumeexport. Time has the instants, Schedule and Timing are
-- schedule_timing.go on the records of schedule.go, Names is name_pattern.go, Input is
-- schedule_input.go, and Store is ScheduleStore of schedule.go with sanitizeName of store.go.
-- Daemon: backend/internal/daemon. ExportRunner is ExecuteVolumeExport, ExportScheduler is tick and
-- runSchedule, StatsHistory is stats_history.go, ResourceSaver is resource_saver.go with
-- EnterResourceSaver of resource_snapshot.go, LogBroadcaster is log_broadcaster.go, whose
-- sections under a lock are the steps of a relation in Lost. Builds is builds.go with store.go of
-- backend/internal/buildstore, and Builds.Enrich and Builds.Sync are build_sync.go.
-- RuntimeReady is runtime_ready.go, ResourceSnapshot is resource_snapshot.go, and StatsSampler is
-- stats_sampler.go.
-- Config: backend/internal/config. Paths, Update and Proxy (validate_proxy.go), Defaults (config.go),
-- LogFile (log_file.go).
-- Api: ConfigPut is PUT /v1/config of backend/internal/api/config.go.
-- BuildHistory: backend/internal/buildhistory/history.go.
-- HttpKit: Route is backend/internal/httpkit/route.go; Errors has its other dispatchers, with
-- runtime_errors.go, origin.go, cors.go of backend/internal/middleware and the errors of
-- backend/internal/api/prune.go.
-- Runtime: backend/internal/runtime. ContainerGhosts is container_ghosts.go, Types has the records of
-- runtime.go, Sizes is system_df.go and the sizes of prune.go, Prune is prune.go with the engine's
-- listings and commands as a parameter, Ports is ports.go, Mock is mock.go, the engine of the
-- tests, Registry is registry.go, Network is the lists of network.go, Build is build.go with the
-- functions that change a build, and CommandError is command_error.go.
-- Tests: examples at concrete inputs. A child module of a component proves what its name says.
--
-- Modelling. State is passed explicitly: a handler takes the state and returns it with its result,
-- an error is a value, and a panic of Go is none, or the error `panicked` of a prune. A text is the
-- list of its code points, and lowering is that of the ASCII letters, where the code compares with
-- ASCII words; the names of exports, which users write, are lowered by a parameter for Go's
-- unicode.ToLower. An instant is the number of nanoseconds since Go's zero time, which is 0. The time
-- zone with time.Date and AddDate, the RFC 3339 texts, Go's net, net/url and path/filepath, the JSON
-- decoder, floating-point numbers and the engine are parameters, with the laws that are used as named
-- hypotheses; UTC is an instance of the zone, and a zone with a gap at midnight is none. A file holds
-- what decoding its bytes gives, and a write that fails leaves the old file, a broken one or the new
-- one. sort.Slice is a stable insertion sort, which is one of the results that Go may give. A map is a
-- list of its entries: where Go's order of iteration could matter, the theorem's hypotheses exclude
-- it. In the log broadcaster each section under a lock is a step. An int64 is the integer of its bits,
-- with the addition that wraps round. Loops over slices are structural recursion. The loop of
-- FormatBytes has the size divided by 1024 as its fuel, which is enough since every round divides by
-- 1024; the search for the next run goes through the 14 days of the source.
--
-- Not modelled: the virtual machines, processes and sockets of backend/internal/runtime, the
-- goroutines around the workers, the socket proxy, the migration, the login at a provider, the other
-- handlers, and the user interface, which are I/O or still to come.
pub mod Common
pub mod Strings
pub mod Utils
pub mod VolumeExport
pub mod Daemon
pub mod Runtime
pub mod Config
pub mod Api
pub mod BuildHistory
pub mod HttpKit
mod Tests
