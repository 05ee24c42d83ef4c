-- ===== src/Collector/Snapshot.antt =====
-- dre-collector/internal/snapshot/snapshot.go: what an archive holds. Packing, encryption and files are
-- arguments.
pub mod Timeline
pub mod Nodes
use bug_it.Base.{
  ℕ, suc, ℤ, pos, ◌+◌, Bool, true, false, not, ◌&&◌, ◌||◌, List, [], ◌∷◌, ◌++◌, map, Option, none,
  some, ◌==◌, if◌then◌else◌, length, ◌>>=◌,
}
use bug_it.Text.{Bytes, bytes_eq}
use bug_it.IoEvent.{IoEvent}
use bug_it.IoEvent.Stream.{encode_events}
use bug_it.Replay.TimeFreeze.{ClockEntry}
use bug_it.SourceMap.{SourceRef, Store, snapshot}
use bug_it.Collector.Buffer.{Event}
use bug_it.Collector.Redact.{RedactionEntry}
use bug_it.Collector.Trigger.{Trigger}
use bug_it.Collector.Vector.{VectorNode, VectorEdge}

-- `manifest.Incident`
pub record Incident : Type 0 where
  pub title : Bytes
  pub summary : Bytes
  pub root_cause : Bytes
  pub services : List Bytes
  pub failed_step : Bytes

-- `manifest.Manifest`; a time is a number of nanoseconds.
pub record Manifest : Type 0 where
  pub id : Bytes
  pub cluster : Bytes
  pub nodes : List Bytes
  pub trigger : Trigger
  pub captured_at : ℕ
  pub event_count : ℕ
  pub checksum : Bytes
  pub incident : Option Incident

-- `none` is a nil pointer.
pub record Exporter : Type 0 where
  pub dir : Bytes
  pub cluster : Bytes
  pub key : Bytes
  pub incident : Option Incident
  pub source_map : Option Store

-- `New`
unfoldable pub new : Bytes → Bytes → Bytes → Exporter
new dir cluster key = record {
  dir = dir;
  cluster = cluster;
  key = key;
  incident = none;
  source_map = none;
}

-- `SetIncident` and `SetSourceMap`
unfoldable pub set_incident : Exporter → Option Incident → Exporter
set_incident e inc = record e { incident = inc }

unfoldable pub set_source_map : Exporter → Option Store → Exporter
set_source_map e store = record e { source_map = store }

abbrev pub is_empty : Bytes → Bool
is_empty [] = true
is_empty (c ∷ s) = false

-- `seen[node] = true`
abbrev pub mark : (Bytes → Bool) → Bytes → Bytes → Bool
mark seen node n = if bytes_eq n node then true else seen n

-- The loop of `uniqueNodes`; a name that is missing in the map reads as false.
unfoldable pub unseen_nodes : (Bytes → Bool) → List Event → List Bytes
unseen_nodes seen [] = []
unseen_nodes seen (ev ∷ events) =
    let skipped = unseen_nodes seen events in
    let added = ev.node_id ∷ unseen_nodes (mark seen ev.node_id) events in
    if is_empty ev.node_id || seen ev.node_id then skipped else added

-- `uniqueNodes`
unfoldable pub unique_nodes : List Event → List Bytes
unique_nodes events = unseen_nodes (λ n. false) events

-- A loop of `buildClockTimeline`: the entries of the events that pass the test, from the index `i` on.
unfoldable pub clock_entries : (IoEvent → Bool) → ℕ → List Event → List ClockEntry
clock_entries test i [] = []
clock_entries test i (ev ∷ events) =
    let rest = clock_entries test (suc i) events in
    if test ev.io_event
    then record { index = pos i; timestamp_ns = ev.io_event.timestamp_ns } ∷ rest
    else rest

abbrev pub is_clock : IoEvent → Bool
is_clock evt = evt.is_write == 3

abbrev pub is_io : IoEvent → Bool
is_io evt = not (evt.is_write == 2)

-- `buildClockTimeline`: the clock readings, or the times of the events where there are none.
unfoldable pub build_clock_timeline : List Event → List ClockEntry
build_clock_timeline events = elim (clock_entries is_clock 0 events) [
  | [] ↦ clock_entries is_io 0 events
  | e ∷ es ↦ e ∷ es
]

-- What the snapshot's files are made of; `none` stands for an empty source map.
pub record Contents : Type 0 where
  pub manifest : Manifest
  pub events_bin : Bytes
  pub nodes : List VectorNode
  pub edges : List VectorEdge
  pub redaction : List RedactionEntry
  pub clock : List ClockEntry
  pub source_map : List SourceRef

-- What the calls below `Export` do: making the directory, packing and encrypting, and writing the file.
pub record Files : Type 0 where
  pub mkdir : Bytes → Bool
  pub sha256_hex : Bytes → Bytes
  pub pack_tar_gz : Contents → Option Bytes
  pub encrypt : Bytes → Bytes → Option Bytes
  pub write_file : Bytes → Bytes → Bool

-- The text of the pointer's map, empty where it is nil.
unfoldable pub source_refs : Option Store → List SourceRef
source_refs none = []
source_refs (some store) = snapshot store

-- The manifest and the files of an export.
unfoldable pub contents :
    Exporter
    → Files
    → Bytes
    → ℕ
    → List Event
    → List VectorNode
    → List VectorEdge
    → List RedactionEntry
    → Trigger
    → Contents
contents e files id now events nodes edges redaction trig =
    let events_bin = encode_events (map Event.io_event events) in
    record {
      manifest = record {
        id = id;
        cluster = e.cluster;
        nodes = unique_nodes events;
        trigger = trig;
        captured_at = now;
        event_count = length events;
        checksum = files.sha256_hex events_bin;
        incident = e.incident;
      };
      events_bin = events_bin;
      nodes = nodes;
      edges = edges;
      redaction = redaction;
      clock = build_clock_timeline events;
      source_map = source_refs e.source_map;
    }

-- The end of `Export`: the manifest with the file's content, if no call fails.
unfoldable pub seal : Exporter → Files → Bytes → Contents → Option (Manifest × Bytes)
seal e files path c = do
  tar_gz ← files.pack_tar_gz c
  encrypted ← files.encrypt tar_gz e.key
  if files.write_file path encrypted then some (c.manifest, encrypted) else none

-- `Export`: the exporter afterwards, and the result. The incident is used up as soon as the directory is
-- there.
unfoldable pub export :
    Exporter
    → Files
    → Bytes
    → Bytes
    → ℕ
    → List Event
    → List VectorNode
    → List VectorEdge
    → List RedactionEntry
    → Trigger
    → Exporter × Option (Manifest × Bytes)
export e files id path now events nodes edges redaction trig =
    if not (files.mkdir e.dir) then (e, none) else (
      record e { incident = none },
      seal e files path (contents e files id now events nodes edges redaction trig),
    )
