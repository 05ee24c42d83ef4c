-- ===== src/Collector/Server/Manual.antt =====
-- What a capture adds, and what a manual trigger answers (server.go).
use bug_it.Base.{◌≡◌, ◌⊎◌, false, [], ◌∷◌, ◌++◌, none, length}
use bug_it.Text.{Bytes}
use bug_it.Collector.Trigger
use bug_it.Collector.Trigger.{Trigger}
use bug_it.Collector.Snapshot.{Exporter, Contents}
use bug_it.Collector.Server.{SnapshotInfo, Collector, Outside}

-- One of the calls of an export fails, for the directory, the key and the path that it uses.
abbrev pub HasFailed : Exporter → Outside → Type 0
HasFailed e env =
    (env.files.mkdir e.dir ≡ false)
    ⊎ ((c : Contents) × (env.files.pack_tar_gz c ≡ none))
    ⊎ ((s : Bytes) × (env.files.encrypt s e.key ≡ none))
    ⊎ ((s : Bytes) × (env.files.write_file env.path s ≡ false))

-- The snapshot that a capture with the id and the path of `env` adds, if it adds one.
abbrev pub IsAdded : Collector → Outside → Collector → Type 0
IsAdded c env c' =
    (info : SnapshotInfo) × (c'.snapshots ≡ c.snapshots ++ info ∷ [])
    × (info.id ≡ env.id)
    × (info.path ≡ env.path)
    × (info.event_count ≡ length c.service.buf.events)
