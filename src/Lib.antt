-- ===== src/Lib.antt =====
-- BugIT records the input and output of services (agent and local recorders), gathers it in a collector that
-- takes snapshots when something goes wrong, and replays a snapshot under a debugger. This library models the
-- parts of it that decide something, and proves what they promise.
--
-- Parts and files:
-- Base, Text: shared names; Boolean tests, a signed `int`, lists over native numbers, and the functions of Go's
--   `strings`, `bytes`, `strconv` and `fmt` that the sources call.
-- IoEvent: api/ioevent/event.go, the event and its record of 2089 bytes. IoEvent/Stream: the events of an archive,
--   as snapshot.go writes and pkg/drearchive/archive.go reads them. IoEvent/Wire: api/grpcapi/events.go.
-- VectorClock: pkg/vectorclock/clock.go, the counters and the header that carries them.
-- Agent: dre-agent/internal/forward/grpc_client.go, the injection before an event is sent.
-- Capture: pkg/recordproxy/proxy.go (`emit`) and `outboundURLPath` of pkg/captureattach/attach_tap.go.
--   Capture/Outbound: `OutboundProxy`, what it records and answers.
-- Collector/Vector, Buffer, Trigger, Ingest, Redact, Snapshot, Server: the packages of these names under
--   dre-collector/internal. An event goes from Server (`collect`) to Ingest, from there to Vector, Buffer and
--   Trigger; a trigger that fires makes Server capture the buffer, with Redact and Snapshot. Server/Routes: the
--   HTTP handlers of `Run`, behind the redirections of `http.ServeMux` (Server/Clean). Server/Placed: the hooks of a
--   local capture, and where a new snapshot is copied to.
-- LocalCapture: dre-collector/pkg/localcapture, the incident that describes a capture (incident.go) and the services
--   of its replay (replayconfig.go). LocalCapture/Daemon: daemon.go and attach.go, which post what was recorded to
--   the collector (`posted_item`, read by `item_event` of Collector/Server/Posted) and ask it for snapshots.
-- Inspector: pkg/captureattach. Inspector and Inspector/Pick: the debug targets of cdp_session.go, their scores and the
--   choice among them. Inspector/Session: `CDPSession`, a step relation in which the goroutines of `Call`, `pump` and
--   `Close` interleave, one access to the shared fields at a time. Inspector/Tap: attach_tap.go, the handlers that
--   turn messages of the session into events, and how a tap is started. Inspector/Prepare: inspect.go, which puts the
--   hooks of Project in place and waits for an inspector.
-- DebugBridge: pkg/debugbridge/node.go, the calls over its connection and the places it reads.
-- Project: pkg/project, the settings, the search for the folder, the ports and the patched scripts, over a `Disk` of
--   files that may be missing, unreadable or not writable. Runtime: pkg/runtimedetect/detect.go. Discover:
--   pkg/discover/discover.go.
-- SourceMap: pkg/sourcemap/map.go and api/manifest/source_ref.go.
-- Replay/Keys, Multi, Single: dre-replay-cli/internal/proxy (grpc_match.go, multi.go, proxy.go). Replay/TimeFreeze:
--   timefreeze/engine.go. Replay/Session: orchestrator/session.go. Replay/Debugger: debugger/debugger.go, which
--   drives the session; a move of the cursor moves the proxy and the frozen time. Replay/Summary: summary/summary.go
--   and delve/sync.go.
-- Examples: concrete inputs on which the theorems apply.
--
-- Conventions: a struct is a record with the fields that its operations use; a method is a function from the state
-- to the state and its result. A lock makes an operation one step, so orderings are sequences of steps. `none` is a
-- panic where a slice goes past its end, else a nil pointer or `ok == false`. The calls of `time.Now` are arguments,
-- in nanoseconds. Unsigned fields wrap by `% 2 ^ w`; a Go `int` that cannot be negative is a natural number, any
-- other is `ℤ`, far from its bounds. Texts are byte lists; case folding and white space are those of ASCII.
--
-- Fuel: `read_events` has one round more than the stream has bytes, and each round reads 2089 of them;
-- `write_digits` has one round more than the number; `walk_up` has one round more than the path has bytes, and each
-- round shortens it, so its answer `out_of_rounds` does not occur. All other loops recurse on their list, a loop that
-- waits on the rounds that begin before its deadline.
--
-- Not modelled: connections, listeners, processes, files, JSON, tar, gzip, AES-GCM, protobuf encoding, eBPF,
-- Kubernetes and cloud storage. What a capture meets of them (a new id, packing, encryption, the store) is the
-- argument `Outside`; the hooks that build an incident and write the settings of a replay are fields of the collector,
-- and a theorem that needs it says that they do not panic. The coders of YAML and JSON are arguments, too; a theorem
-- that needs one says what of it. A text of the hook files of pkg/project/hooks.go is JavaScript and an argument.
-- Commands, storage, TLS, metrics and leader election are not modelled.
mod Base
pub mod Text
pub mod IoEvent
pub mod VectorClock
pub mod Agent
pub mod Capture
pub mod Collector
pub mod Replay
pub mod SourceMap
pub mod LocalCapture
pub mod Inspector
pub mod Project
pub mod Runtime
pub mod DebugBridge
pub mod Discover
pub mod Examples
