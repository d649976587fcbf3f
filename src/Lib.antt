-- ===== src/Lib.antt =====
-- apm2go: discovery and instrumentation of running services, and the ingest of their telemetry.
--
-- A manager scans the host at an interval, keeps an entry for each process, decides which to
-- instrument, runs one attach per process and tells subscribers what changed. The instrumented
-- processes send spans and metrics to a receiver, which hands them to a pipeline that limits their
-- rate and the number of distinct names, cuts long values, batches and writes them. A registry of
-- tokens, kept in a file across restarts, says which exports the receiver accepts. A process is
-- described by what the kernel shows of it, by its command line, by the performance data that its JVM
-- writes and by the ports it listens on. An injector hands a JVM its configuration and an agent over the
-- attach protocol, whose replies also carry the dumps that are diagnosed. Processes of other runtimes
-- become the targets of a child process, which a supervisor restarts when they change.
--
-- Discovery/Filter   internal/discovery/filter.go: Accept, matchesAny; CommandLine of jvm.go
-- Inventory/Types    internal/inventory/state.go, events.go (Event), and the fields and methods of
--                    internal/discovery/jvm.go that the inventory reads
-- Inventory/Bus      internal/inventory/events.go: newEventBus, subscribe, cancel, publish
-- Inventory/Lifecycle  internal/inventory/manager.go on one entry: classify, observe, shouldAttach,
--                    statePriority, the comparison of List
-- Inventory/Manager  internal/inventory/manager.go: NewManager, reconcile, observe, Attach,
--                    SetManualOnly, attach, reapMissing, keyForPID
-- Discovery/Naming   internal/discovery/naming.go, and ServiceName and trimPodSuffixes of
--                    internal/container/info.go
-- Discovery/PerfData internal/discovery/hsperf.go: parsePerfData, cstring, majorJavaVersion
-- Discovery/Launch   internal/discovery/scanner.go on a command line: isJavaBinary, readCmdline,
--                    deriveJavaHome, parseSystemProps, parseAgentFlags, parseEntryPoint, applyPerfData
-- Discovery/Host     internal/discovery/scanner.go on the files of a process: readStatus, startTime,
--                    readBootTime, readCgroup, detectNamespace; internal/container/cgroup.go
-- Discovery/Scan     internal/discovery/scanner.go: Scan, Inspect; hsperfPath, readPerfData of hsperf.go
-- Injector/Endpoint, Injector/Render, Injector/Steps  internal/injector/injector.go
-- Ebpf/Targets       internal/ebpf/discover.go
-- Ebpf/Sharing       internal/ebpf/discoverer.go: disambiguate, dropSharedPorts
-- Ebpf/Registry      internal/ebpf/registry.go
-- Ebpf/Supervisor    internal/ebpf/supervisor.go: SetTargets, sameTargets, the loop of Run
-- Attach/Handshake   internal/attach/attach_linux.go: connect, createTriggerFiles; LoadAgent
-- Attach/Request, Attach/Reply  internal/attach/protocol.go: encodeRequest, jcmdRequest,
--                    loadAgentRequest, OK, decodeResponse
-- Attach/Properties  internal/attach/properties.go
-- Attach/Commands    internal/attach/attach.go: JCmd, Properties; LoadAgent and canDropTo of runner.go
-- Network/Ports      internal/ebpf/listenports.go
-- Network/Route      internal/netns/route.go: Gateway, parseHexAddress
-- Diag/Deadlock      internal/jvmdiag/threaddump.go: inferDeadlocks, mergeDeadlocks, participantKey
-- Diag/Pileup        internal/jvmdiag/threaddump.go: findPileups, signatureFrame, isBlockingFrame
-- Diag/Histogram     internal/jvmdiag/classhistogram.go: Top, Diff
-- Ingest/Tokens      internal/ingesttoken/token.go, and permits of internal/receiver/auth.go
-- Ingest/Route       internal/receiver/route.go
-- Ingest/Semconv     internal/receiver/semconv.go: detectRuntime, firstNonEmpty, firstNonZero
-- Ingest/Values, Ingest/Convert  internal/receiver/convert.go, and Span of internal/model/span.go
-- Ingest/Metrics     internal/receiver/convert_metrics.go, and Metric of internal/model/metric.go
-- Ingest/Ids         internal/model/span.go: the text and the JSON of identifiers
-- Ingest/Binder      internal/receiver/binder.go: newBinder, listenOn, resolveListenAddr
-- Pipeline/Limiter   internal/pipeline/limits.go: rateLimiter
-- Pipeline/Guard     internal/pipeline/limits.go: cardinalityGuard
-- Pipeline/Normalize internal/pipeline/pipeline.go: normalize, truncate
-- Pipeline/Lane, Pipeline/Flow  internal/pipeline/pipeline.go: New, Consume, ConsumeMetrics, Run,
--                    drain, drainMetrics, write, writeMetrics
-- Base               tests, lists, text, equality and association lists that these share
--
-- State is passed explicitly. What other goroutines may do between two critical sections is a step
-- of its own: a call of attach is a task that moves through phases, admit is also split at its
-- two locks, each turn of the pipeline's loops is one step, and so are each turn of its drains and each
-- of its last flushes, so statements about every list of steps are statements about every interleaving of
-- them. The injector may not have answered yet when its task's turn comes, which then changes nothing. A `select` with several ready cases takes
-- the choice as an argument, as it takes the clock and the answers of the injector and the writer.
--
-- A time is a number of nanoseconds, since Go's zero time in the inventory. A string is its list of
-- bytes; letters are lowered as in ASCII. A message of the manager is a symbol. The tokens of the
-- limiter are exact, in billionths, where the source has floats. A map is an association list; the
-- order in which Go ranges over it is that of the list. Lists of what entered a channel and of
-- what was handed to the writer are history that the source does not keep. A file is what its JSON
-- decodes to. The loops are structural recursion; only the digits of a number use fuel, one more
-- than the number itself, which has no more digits than that, and the walk along what threads wait
-- for, one more than there are threads: each step marks a thread. Signed numbers are integers, and
-- where an int64 can wrap the conversion is written out. A Go panic is a result.
--
-- What the kernel, the user database, the container runtime and the url package answer is a record
-- or a function that the definitions take. The regular expressions of a cgroup path are written out. The
-- reader of Injector/Render/Loading is what the documentation of java.util.Properties describes. A
-- float64 of a metric is a finite number, kept as its bits, an infinity or no number.
--
-- Not modelled: the sockets of the attach protocol and the helper process, the parsers of dumps, the
-- store, its SQL and the servers, which read and write the host or the network or match regular
-- expressions; the YAML of the configurations; logging; the copies that are handed out.
pub mod Base
pub mod Injector
pub mod Inventory
pub mod Discovery
pub mod Ingest
pub mod Ebpf
pub mod Network
pub mod Pipeline
pub mod Attach
pub mod Diag
mod Examples
