-- ===== src/Collector/Server.antt =====
-- dre-collector/internal/server/server.go: the collector behind its gRPC and HTTP handlers. What the
-- outside decides (the clock, a new id, files, the store of snapshots) is an argument; `none` is a panic.
pub mod Capture
pub mod Clean
pub mod Download
pub mod Manual
pub mod Scrubbed
pub mod Posted
pub mod Placed
pub mod Routes
use bug_it.Base.{
  ℕ, zero, suc, ◌+◌, ◌%◌, ◌^◌, Bool, true, false, not, ◌&&◌, ◌||◌, List, [], ◌∷◌, ◌++◌, map, Option,
  none, some, ◌==◌, if◌then◌else◌, length, copy, ◌>>=◌,
}
use bug_it.Text.{Bytes, codes, bytes_eq, has_prefix, trim_prefix}
use bug_it.Text.Search.{contains, has_suffix, trim_suffix}
use bug_it.IoEvent.{IoEvent, payload_of}
use bug_it.Capture.{cut_payload, fill_event}
use bug_it.Collector.Buffer
use bug_it.Collector.Buffer.{Event}
use bug_it.Collector.Trigger.{Trigger, fire_manual}
use bug_it.Collector.Vector
use bug_it.Collector.Redact.{RedactionEntry, scrub}
use bug_it.Collector.Ingest.{Service, ingest_event}
use bug_it.Collector.Server.Placed.{LocalHooks, buffer_events_to_native, post_process_snapshot}
use bug_it.Project.Disk.{Disk}
use bug_it.Collector.Snapshot.{Incident, Manifest, Exporter, Files, set_incident, export, is_empty}

-- `grpcapi.SnapshotInfo`
pub record SnapshotInfo : Type 0 where
  pub id : Bytes
  pub path : Bytes
  pub captured_at : ℕ
  pub event_count : ℕ
  pub storage_uri : Bytes
  pub download_url : Bytes

pub record Collector : Type 0 where
  pub service : Service
  pub exporter : Exporter
  pub has_storage : Bool
  pub http_base : Bytes
  pub local : LocalHooks
  pub disk : Disk
  pub snapshots : List SnapshotInfo

-- What one capture meets outside: the id and the path of the new file, the time, the calls of the export and
-- the store.
pub record Outside : Type 0 where
  pub id : Bytes
  pub path : Bytes
  pub now : ℕ
  pub files : Files
  pub upload : Bytes → Bytes → Option Bytes
  pub presign_get : Bytes → Option Bytes

-- The incident that a builder finds is set.
unfoldable pub find_incident :
    Option (List IoEvent → Option (Option Incident)) → Exporter → List Event → Option Exporter
find_incident none e events = some e
find_incident (some build) e events = do
  found_one ← build (buffer_events_to_native events)
  some (elim found_one [ none ↦ e | some inc ↦ set_incident e (some inc) ])

-- A round of the loop that scrubs the events.
unfoldable pub scrub_event : IoEvent → Option (IoEvent × List RedactionEntry)
scrub_event evt = do
  payload ← payload_of evt
  (scrubbed, log) ← scrub payload
  some (
    record evt { payload_len = length scrubbed % 2 ^ 32; payload = copy evt.payload scrubbed },
    log,
  )

unfoldable pub scrub_events : List Event → Option (List Event × List RedactionEntry)
scrub_events [] = some ([], [])
scrub_events (ev ∷ events) = do
  (evt, log) ← scrub_event ev.io_event
  (rest, more) ← scrub_events events
  some (record ev { io_event = evt } ∷ rest, log ++ more)

-- `strings.TrimRight(s, "/")`
unfoldable pub trim_slashes : Bytes → Bytes
trim_slashes [] = []
trim_slashes (c ∷ s) = elim (trim_slashes s) [
  | [] ↦ if c == b'/' then [] else c ∷ []
  | d ∷ t ↦ c ∷ d ∷ t
]

abbrev pub snapshots_path : Bytes
snapshots_path = codes "/v1/snapshots/"

abbrev pub download_suffix : Bytes
download_suffix = codes "/download"

-- The address that the collector serves itself, where there is no other.
unfoldable pub own_url : Bytes → Bytes → Bytes → Bytes
own_url http_base id url =
    if is_empty url && not (is_empty http_base)
    then trim_slashes http_base ++ snapshots_path ++ id ++ download_suffix
    else url

-- The addresses that the store gives: the place, and the link if it can be signed.
unfoldable pub stored : Bool → Bool → Outside → Bytes → Bytes → Bytes × Bytes
stored has_storage is_readable env id content =
    if has_storage && is_readable
    then elim (env.upload id content) [
      | none ↦ ([], [])
      | some uri ↦ (uri, elim (env.presign_get id) [ none ↦ [] | some url ↦ url ])
    ]
    else ([], [])

-- The entry of the list of snapshots.
unfoldable pub snapshot_info : Collector → Outside → Manifest → Bytes → SnapshotInfo
snapshot_info c env m content =
    let (uri, url) = stored c.has_storage (not (c.disk.denied env.path)) env m.id content in
    record {
      id = m.id;
      path = env.path;
      captured_at = m.captured_at;
      event_count = m.event_count;
      storage_uri = uri;
      download_url = own_url c.http_base m.id url;
    }

-- The file of an export that did not fail is on the disk.
unfoldable pub exported_file : Disk → Bytes → Bytes → Disk
exported_file d path file = record d {
  files = λ p. if bytes_eq p path then some file else d.files p;
}

-- The end of `captureSnapshot`: a failed export adds nothing, and any other is listed and then copied.
unfoldable pub add_snapshot :
    Collector → Outside → List Event → Exporter × Option (Manifest × Bytes) → Option Collector
add_snapshot c env events (e, none) = some (record c { exporter = e })
add_snapshot c env events (e, some (m, content)) =
    post_process_snapshot c.local (exported_file c.disk env.path content) env.path events
    >>= λ disk. some (record c {
      exporter = e;
      disk = disk;
      snapshots = c.snapshots ++ snapshot_info c env m content ∷ [];
    })

-- What follows the scrubbing in `captureSnapshot`.
unfoldable pub finish_capture :
    Collector → Outside → Trigger → List Event × List RedactionEntry → Option Collector
finish_capture c env trig (scrubbed, log) =
    let graph = c.service.vector in
    add_snapshot c env scrubbed (
      export c.exporter env.files env.id env.path env.now scrubbed graph.nodes graph.edges log trig)

-- `captureSnapshot`: the builder sees the events before they are scrubbed.
unfoldable pub capture_snapshot : Collector → Outside → Trigger → Option Collector
capture_snapshot c env trig = do
  exporter ← find_incident c.local.incident_builder c.exporter (Buffer.snapshot c.service.buf)
  scrubbed ← scrub_events (Buffer.snapshot c.service.buf)
  finish_capture (record c { exporter = exporter }) env trig scrubbed

-- The callback of the triggers.
unfoldable pub on_snap : Collector → Outside → Option Trigger → Option Collector
on_snap c env none = some c
on_snap c env (some trig) = capture_snapshot c env trig

-- `ingestEvent` with the callback that `New` gives the triggers.
unfoldable pub collect : Collector → Outside → IoEvent → Bytes → ℕ → ℕ → Option Collector
collect c env evt node now later = ingest_event c.service evt node now later >>= λ (service, fired).
    on_snap (record c { service = service }) env fired

-- `TriggerSnapshotResponse`
pub record SnapshotResponse : Type 0 where
  pub snapshot_id : Bytes
  pub path : Bytes
  pub storage_uri : Bytes
  pub download_url : Bytes

-- The answer names the last snapshot of the list.
unfoldable pub last_response : List SnapshotInfo → SnapshotResponse
last_response [] = record {
  snapshot_id = codes "pending";
  path = [];
  storage_uri = [];
  download_url = [];
}
last_response (info ∷ []) = record {
  snapshot_id = info.id;
  path = info.path;
  storage_uri = info.storage_uri;
  download_url = info.download_url;
}
last_response (info ∷ next ∷ rest) = last_response (next ∷ rest)

-- `TriggerSnapshot`
unfoldable pub trigger_snapshot :
    Collector → Outside → Bytes → ℕ → Option (Collector × SnapshotResponse)
trigger_snapshot c env detail now =
    let (triggers, fired) = fire_manual c.service.triggers detail now in
    let service = record c.service { triggers = triggers } in
    on_snap (record c { service = service }) env fired >>= λ c'.
    some (c', last_response c'.snapshots)

-- `ListSnapshots`
unfoldable pub list_snapshots : Collector → List SnapshotInfo
list_snapshots c = c.snapshots
