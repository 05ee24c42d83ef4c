-- ===== src/Collector/Server/Placed.antt =====
-- `postProcessSnapshot` and the hooks that it uses: where a new snapshot is copied to (server.go).
pub mod Copied
use bug_it.Base.{
  ◌≡◌, ◌≢◌, refl, ap, sym, ◌∙◌, ◌⊎◌, inl, inr, Bool, true, false, not, ◌&&◌, List, [], ◌∷◌, Option,
  none, some, map, if◌then◌else◌, Bool-cases, subst,
}
use bug_it.Text.{Bytes, bytes_eq, bytes_eq_refl, bytes_eq_sound}
use bug_it.Text.Path.{base, join}
use bug_it.IoEvent.{IoEvent}
use bug_it.Collector.Buffer.{Event}
use bug_it.Collector.Snapshot.{Incident, is_empty}
use bug_it.Project.Disk.{Disk, Read, found, content, missing, failed, read_file, write_file}

-- The hooks of a local capture; the outer `none` of a hook's result is a panic. The source map is the exporter's.
pub record LocalHooks : Type 0 where
  pub incident_builder : Option (List IoEvent → Option (Option Incident))
  pub snapshot_dir : Bytes
  pub latest_link : Bytes
  pub replay_path : Bytes
  pub project_root : Bytes
  pub replay_writer : Option (Disk → Bytes → Bytes → List IoEvent → Option Disk)

-- `bufferEventsToNative`
unfoldable pub buffer_events_to_native : List Event → List IoEvent
buffer_events_to_native = map Event.io_event

-- A write whose error is ignored. `os.MkdirAll` decides with the rest of the disk which paths can be written.
abbrev put_file : Disk → Bytes → Bytes → Disk
put_file d path text = (write_file d path text).0

-- The copy into the folder of the snapshots, and the path that is used from there on.
unfoldable pub place_read : Disk → Bytes → Bytes → Read → Disk × Bytes
place_read d path dest (content text) = (put_file d dest text, dest)
place_read d path dest missing = (d, path)
place_read d path dest failed = (d, path)

unfoldable pub place_snapshot : Disk → Bytes → Bytes → Disk × Bytes
place_snapshot d path dest =
    if bytes_eq path dest then (d, path) else place_read d path dest (read_file d path)

-- The copy at the latest link.
unfoldable pub link_read : Disk → Bytes → Read → Disk
link_read d link (content text) = put_file d link text
link_read d link missing = d
link_read d link failed = d

unfoldable pub link_snapshot : Disk → Bytes → Bytes → Disk
link_snapshot d link path = if is_empty link then d else link_read d link (read_file d path)

-- The writer's call, if there is a writer; its error is only logged.
abbrev pub written_settings :
    Option (Disk → Bytes → Bytes → List IoEvent → Option Disk)
    → Disk
    → Bytes
    → Bytes
    → List IoEvent
    → Option Disk
written_settings none d path root events = some d
written_settings (some write) d path root events = write d path root events

unfoldable pub write_replay : LocalHooks → Disk → List Event → Option Disk
write_replay h d [] = some d
write_replay h d (ev ∷ events) =
    if is_empty h.replay_path
    then some d
    else written_settings h.replay_writer d h.replay_path h.project_root
        (buffer_events_to_native (ev ∷ events))

unfoldable pub copy_snapshot : LocalHooks → Disk → Bytes → Disk
copy_snapshot h d path =
    let (placed, at) = place_snapshot d path (join h.snapshot_dir (base path)) in
    link_snapshot placed h.latest_link at

-- `postProcessSnapshot`
unfoldable pub post_process_snapshot : LocalHooks → Disk → Bytes → List Event → Option Disk
post_process_snapshot h d path events =
    if is_empty h.snapshot_dir then some d else write_replay h (copy_snapshot h d path) events
