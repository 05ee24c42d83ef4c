-- ===== src/Examples/Handlers.antt =====
-- The collector behind its handlers on concrete inputs.
use bug_it.Base.{
  ℕ, ◌≡◌, ◌≢◌, if◌then◌else◌, refl, ap, ◌>>=◌, subst, List, [], ◌∷◌, ◌++◌, Option, none, some,
  arith, All, true, false,
}
use bug_it.Text.{Bytes, codes, bytes_eq}
use bug_it.Text.Search.{has_suffix}
use bug_it.Collector.Vector
use bug_it.Collector.Vector.{parse_header, observe, merge_remote, VectorEdge}
use bug_it.Collector.Buffer.{Event}
use bug_it.Collector.Trigger
use bug_it.Collector.Trigger.{
  Trigger, TriggerType, http_5xx, evaluate, manual, fire_manual, fire, evaluate_payload,
  first_match, is_automatic, is_cooling, match_detail,
}
use bug_it.Collector.Redact.{RedactionEntry}
use bug_it.Collector.Snapshot
use bug_it.Collector.Snapshot.{
  Incident, Exporter, Files, is_empty, unique_nodes, build_clock_timeline, is_clock, is_io,
}
use bug_it.Collector.Server.{
  Collector, Outside, SnapshotInfo, collect, scrub_events, snapshots_path, download_suffix,
}
use bug_it.Collector.Server.Capture.{Builds, Writes, IsSafe, collect-IsSafe}
use bug_it.Collector.Server.Scrubbed.{Fits, IsSound, AreScrubbed, scrub_events-AreScrubbed}
use bug_it.Collector.Server.Download.{DownloadAnswer}
use bug_it.Collector.Server.Posted.{Item, IsItem}
use bug_it.Collector.Server.Placed.{LocalHooks, buffer_events_to_native, post_process_snapshot}
use bug_it.Collector.Server.Placed.Copied.{WritesOnly, put-other, post_process_snapshot-placed}
use bug_it.Collector.Server.Clean.{clean_path, path_parts, kept_parts, next_parts, joined_parts}
use bug_it.LocalCapture.{Report, build_incident}
use bug_it.LocalCapture.Incident.{build_incident-Reports}
use bug_it.LocalCapture.Services.{services}
use bug_it.LocalCapture.Services.Ports.{services-count}
use bug_it.IoEvent.{IoEvent, IsBounded}
use bug_it.Collector.Server.Routes.{
  HttpRequest, IsServed, IsDownload, serve_http, downloaded, serve_http-IsServed,
  serve_http-IsDownload,
}
use bug_it.Project.Disk.{Disk, content, read_file, write_file}
use bug_it.Text.Path.{join, base, behind_last, trim_right_byte}
use bug_it.Examples.{differ, sample, get_request, server_failure, sample-IsTyped, sample-IsBounded}

abbrev arrival : ℕ → Bytes → Bytes → Event
arrival at node payload = record { io_event = sample 0 payload; node_id = node; at = at }

abbrev arrivals : List Event
arrivals = arrival 5 (codes "a") get_request ∷ arrival 9 (codes "b") server_failure ∷ []

arrivals-IsSound : All IsSound arrivals
arrivals-IsSound = (
  (
    sample-IsTyped 0 get_request (omega arith) (omega arith),
    sample-IsBounded 0 get_request (omega arith) (omega arith),
  ),
  (
    (
      sample-IsTyped 0 server_failure (omega arith) (omega arith),
      sample-IsBounded 0 server_failure (omega arith) (omega arith),
    ),
    tt,
  ),
)

scrub_events-AreScrubbed_example :
    (events' : List Event) × (log : List RedactionEntry) × (scrub_events arrivals
      ≡ some (events', log))
    × AreScrubbed arrivals events' log
scrub_events-AreScrubbed_example = scrub_events-AreScrubbed arrivals arrivals-IsSound

abbrev files : Files
files = record {
  mkdir = λ dir. true;
  sha256_hex = λ s. [];
  pack_tar_gz = λ c. some c.events_bin;
  encrypt = λ s key. some s;
  write_file = λ path s. true;
}

abbrev outside : Outside
outside = record {
  id = codes "id7";
  path = codes "/data/incident-id7.dre";
  now = 9000;
  files = files;
  upload = λ id s. none;
  presign_get = λ id. none;
}

abbrev info : SnapshotInfo
info = record {
  id = codes "id6";
  path = codes "/data/incident-id6.dre";
  captured_at = 8000;
  event_count = 2;
  storage_uri = [];
  download_url = [];
}

-- What is used of a report as an incident.
abbrev incident_of : Option Report → Option Incident
incident_of none = none
incident_of (some r) = some (record {
  title = r.title;
  summary = r.summary;
  root_cause = r.root_cause;
  services = [];
  failed_step = r.failed_step;
})

abbrev builder : List IoEvent → Option (Option Incident)
builder evts = build_incident evts >>= λ o. some (incident_of o)

-- A writer that looks for the services, and writes a text for them.
abbrev writer : Disk → Bytes → Bytes → List IoEvent → Option Disk
writer d path root evts = services evts >>= λ keyed. some (write_file d path (codes "version: 1")).0

abbrev hooks : LocalHooks
hooks = record {
  incident_builder = some builder;
  snapshot_dir = codes "/srv/.bugit/snapshots";
  latest_link = codes "/srv/.bugit/latest.dre";
  replay_path = codes "/srv/.bugit/replay.yaml";
  project_root = codes "/srv";
  replay_writer = some writer;
}

IsBounded-events : (evts : List IoEvent) → All Fits evts → All IsBounded evts
IsBounded-events [] h = tt
IsBounded-events (evt ∷ evts) ((typed, bounded), h) = (bounded, IsBounded-events evts h)

builds : Builds (some builder)
builds [] fits = (none, (unfold build_incident in refl))
builds (evt ∷ evts) fits =
    let (r, e, _) = build_incident-Reports evt evts (IsBounded-events (evt ∷ evts) fits) in
    (incident_of (some r), rw e refl)

writes_only : WritesOnly (some writer)
writes_only d path root evts bounded =
    let (keyed, e, _, _) = services-count evts bounded in
    (
      (write_file d path (codes "version: 1")).0,
      rw e refl,
      λ p apart. put-other d path p (codes "version: 1") apart,
    )

writes : Writes (some writer)
writes d path root evts fits =
    let (d', e, _) = writes_only d path root evts (IsBounded-events evts fits) in (d', e)

-- Only the new snapshot is there.
abbrev snapshot_disk : Disk
snapshot_disk = record {
  files = λ path. if bytes_eq path (codes "/data/id7.dre") then some (codes "DRE") else none;
  denied = λ path. false;
  writable = λ path. true;
}

there : read_file snapshot_disk (codes "/data/id7.dre") ≡ content (codes "DRE")
unfolding read_file bytes_eq
there = refl

abbrev collector : Collector
collector = record {
  service = record {
    buf = record { events = arrivals };
    triggers = Trigger.new true;
    vector = Vector.new;
  };
  exporter = Snapshot.new (codes "/data") (codes "local") (codes "key");
  has_storage = false;
  http_base = codes "http://collector:8080/";
  local = hooks;
  disk = snapshot_disk;
  snapshots = info ∷ [];
}

safe : IsSafe collector
safe = (arrivals-IsSound, builds, writes)

collect-IsSafe_example :
    (c' : Collector) × (collect collector outside (sample 0 server_failure) (codes "b") 9000 9001
      ≡ some c')
    × IsSafe c'
collect-IsSafe_example =
    collect-IsSafe collector outside (sample 0 server_failure) (codes "b") 9000 9001 safe
      (sample-IsTyped 0 server_failure (omega arith) (omega arith))
      (sample-IsBounded 0 server_failure (omega arith) (omega arith))

abbrev posted : List (Item × Outside × ℕ × ℕ)
posted =
    (
      record {
        timestamp_ns = 0;
        fd = 4;
        is_write = 0;
        comm = codes "shop";
        payload = server_failure;
      },
      outside,
      9000,
      9001,
    )
    ∷ []

abbrev items_of : Option (Bytes × List (Item × Outside × ℕ × ℕ)) → List (Item × Outside × ℕ × ℕ)
items_of none = []
items_of (some (node, items)) = items

abbrev post : HttpRequest
post = record {
  is_get = false;
  is_post = true;
  path = codes "/v1/events";
  host = codes "collector:8080";
  events = some ([], posted);
  detail = [];
}

serve_http-IsServed_example : IsServed collector true (serve_http collector true outside 9000 post)
serve_http-IsServed_example =
    serve_http-IsServed collector true outside 9000 post safe
      (λ node items e. subst (All λ r. IsItem r.0) (ap items_of e) ((omega arith, omega arith), tt))

serve_http-IsDownload_example :
    (a : DownloadAnswer) × (serve_http collector true outside 9000 (record {
      is_get = true;
      is_post = false;
      path = snapshots_path ++ codes "id6" ++ download_suffix;
      host = codes "collector:8080";
      events = none;
      detail = [];
    })
      ≡ some (collector, downloaded a))
    × IsDownload info (codes "collector:8080") a
serve_http-IsDownload_example =
    serve_http-IsDownload collector true outside 9000 [] [] info (codes "collector:8080") refl tt
      (λ e. cc) (unfold has_suffix bytes_eq in refl)
      (unfold clean_path path_parts kept_parts next_parts joined_parts has_suffix bytes_eq in refl)

post_process_snapshot-placed_example :
    let dest = join (codes "/srv/.bugit/snapshots") (base (codes "/data/id7.dre")) in
    (d' : Disk) × (post_process_snapshot hooks snapshot_disk (codes "/data/id7.dre") arrivals
      ≡ some d')
    × (d'.files dest ≡ some (codes "DRE"))
    × (d'.files (codes "/srv/.bugit/latest.dre") ≡ some (codes "DRE"))
    × ((p : Bytes)
        → dest ≢ p
        → codes "/srv/.bugit/latest.dre" ≢ p
        → codes "/srv/.bugit/replay.yaml" ≢ p
        → d'.files p ≡ snapshot_disk.files p)
post_process_snapshot-placed_example =
    post_process_snapshot-placed hooks snapshot_disk (codes "/data/id7.dre") (codes "DRE") arrivals
      refl there refl refl refl refl writes_only
      (unfold buffer_events_to_native in
        (
          sample-IsBounded 0 get_request (omega arith) (omega arith),
          (sample-IsBounded 0 server_failure (omega arith) (omega arith), tt),
        ))
      (differ (codes "/srv/.bugit/replay.yaml")
        (join (codes "/srv/.bugit/snapshots") (base (codes "/data/id7.dre")))
        (unfold join base bytes_eq behind_last trim_right_byte in refl))
      (differ (codes "/srv/.bugit/replay.yaml") (codes "/srv/.bugit/latest.dre")
        (unfold bytes_eq in refl))
