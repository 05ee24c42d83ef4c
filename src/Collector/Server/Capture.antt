-- ===== src/Collector/Server/Capture.antt =====
-- No event makes the collector panic (server.go).
use bug_it.Base.{
  ℕ, ◌≡◌, refl, sym, subst, inl, inr, true, false, List, [], ◌∷◌, ◌++◌, Option, none, some, arith,
  All, All-append, Bool-cases,
}
use bug_it.Text.{Bytes}
use bug_it.IoEvent.{IoEvent, IsTyped, IsBounded}
use bug_it.Collector.Buffer.{Event, RollingBuffer, add, drop_old, is_recent}
use bug_it.Collector.Buffer
use bug_it.Collector.Trigger.{Trigger}
use bug_it.Collector.Redact.{RedactionEntry}
use bug_it.Collector.Ingest.Total.{ingest_event-total}
use bug_it.Collector.Snapshot.{Incident, Manifest, Exporter, set_incident, export, is_empty}
use bug_it.Collector.Server.{
  Collector, Outside, add_snapshot, finish_capture, capture_snapshot, on_snap, collect,
  find_incident, exported_file, snapshot_info,
}
use bug_it.Collector.Server.Placed.{
  LocalHooks, buffer_events_to_native, written_settings, write_replay, copy_snapshot,
  post_process_snapshot,
}
use bug_it.Project.Disk.{Disk}
use bug_it.Collector.Server.Scrubbed.{
  Fits, IsSound, AreScrubbed, AreScrubbed-IsSound, scrub_events-AreScrubbed,
}

-- A builder of incidents does not panic on events that have the sizes of their Go types.
abbrev pub Builds : Option (List IoEvent → Option (Option Incident)) → Type 0
Builds none = Unit
Builds (some build) =
    (evts : List IoEvent) → All Fits evts → (o : Option Incident) × (build evts ≡ some o)

-- Nor does a writer of the settings of the replay.
abbrev pub Writes : Option (Disk → Bytes → Bytes → List IoEvent → Option Disk) → Type 0
Writes none = Unit
Writes (some write) =
    (d : Disk) (path root : Bytes) (evts : List IoEvent)
    → All Fits evts
    → (d' : Disk) × (write d path root evts ≡ some d')

-- The events in the buffer have the sizes of their Go types, and lengths inside their payloads; the hooks can
-- take such events.
abbrev pub IsSafe : Collector → Type 0
IsSafe c =
    All IsSound c.service.buf.events
    × Builds c.local.incident_builder
    × Writes c.local.replay_writer

natives-Fits :
    (events : List Event) → All IsSound events → All Fits (buffer_events_to_native events)
unfolding buffer_events_to_native
natives-Fits [] h = tt
natives-Fits (ev ∷ events) (one, h) = (one, natives-Fits events h)

-- The exporter has the same directory and key.
abbrev pub SamePlace : Exporter → Exporter → Type 0
SamePlace e e' = (e'.dir ≡ e.dir) × (e'.key ≡ e.key)

set-SamePlace :
    (e : Exporter) (o : Option Incident)
    → SamePlace e (elim o [ none ↦ e | some inc ↦ set_incident e (some inc) ])
unfolding set_incident
set-SamePlace e none = (refl, refl)
set-SamePlace e (some inc) = (refl, refl)

find_incident-SamePlace :
    (b : Option (List IoEvent → Option (Option Incident))) (e : Exporter) (events : List Event)
    → Builds b
    → All IsSound events
    → (e' : Exporter) × (find_incident b e events ≡ some e') × SamePlace e e'
unfolding find_incident
find_incident-SamePlace none e events builds sound = (e, refl, (refl, refl))
find_incident-SamePlace (some build) e events builds sound =
    let (o, built) = builds (buffer_events_to_native events) (natives-Fits events sound) in
    (elim o [ none ↦ e | some inc ↦ set_incident e (some inc) ], rw built refl, set-SamePlace e o)

written-returns :
    (w : Option (Disk → Bytes → Bytes → List IoEvent → Option Disk)) (d : Disk) (path root : Bytes)
    (evts : List IoEvent)
    → Writes w
    → All Fits evts
    → (d' : Disk) × (written_settings w d path root evts ≡ some d')
written-returns none d path root evts writes fits = (d, refl)
written-returns (some write) d path root evts writes fits = writes d path root evts fits

write_replay-returns :
    (h : LocalHooks) (d : Disk) (events : List Event)
    → Writes h.replay_writer
    → All IsSound events
    → (d' : Disk) × (write_replay h d events ≡ some d')
unfolding write_replay
write_replay-returns h d [] writes sound = (d, refl)
write_replay-returns h d (ev ∷ events) writes sound =
    let fits = natives-Fits (ev ∷ events) sound in
    let (d', e) =
      written-returns h.replay_writer d h.replay_path h.project_root
        (buffer_events_to_native (ev ∷ events)) writes fits in
    elim (Bool-cases (is_empty h.replay_path)) [
      | inl off ↦ (d, rw off refl)
      | inr on ↦ (d', rw on e)
    ]

post_process-returns :
    (h : LocalHooks) (d : Disk) (path : Bytes) (events : List Event)
    → Writes h.replay_writer
    → All IsSound events
    → (d' : Disk) × (post_process_snapshot h d path events ≡ some d')
unfolding post_process_snapshot
post_process-returns h d path events writes sound =
    let (d', e) = write_replay-returns h (copy_snapshot h d path) events writes sound in
    elim (Bool-cases (is_empty h.snapshot_dir)) [
      | inl off ↦ (d, rw off refl)
      | inr on ↦ (d', rw on e)
    ]

-- A capture leaves all but the exporter, the disk and the list of snapshots as it is.
abbrev pub IsKeptBy : Collector → Collector → Type 0
IsKeptBy c c' = (c'.service ≡ c.service) × (c'.local ≡ c.local)

-- What an export adds, if it did not fail: the snapshot is listed.
abbrev pub HasListed :
    Collector → Outside → Exporter × Option (Manifest × Bytes) → Collector → Type 0
HasListed c env (e, none) c' = c'.snapshots ≡ c.snapshots
HasListed c env (e, some (m, content)) c' =
    c'.snapshots ≡ c.snapshots ++ snapshot_info c env m content ∷ []

add_snapshot-returns :
    (c : Collector) (env : Outside) (events : List Event) (r : Exporter × Option (Manifest × Bytes))
    → Writes c.local.replay_writer
    → All IsSound events
    → (c' : Collector) × (add_snapshot c env events r ≡ some c')
      × IsKeptBy c c'
      × HasListed c env r c'
unfolding add_snapshot
add_snapshot-returns c env events (e, none) writes sound =
    (record c { exporter = e }, refl, (refl, refl), refl)
add_snapshot-returns c env events (e, some (m, content)) writes sound =
    let (disk, k) =
      post_process-returns c.local (exported_file c.disk env.path content) env.path events writes
        sound in
    (
      record c {
        exporter = e;
        disk = disk;
        snapshots = c.snapshots ++ snapshot_info c env m content ∷ [];
      },
      rw k refl,
      (refl, refl),
      refl,
    )

-- A capture returns; what it lists is an export of the scrubbed events.
pub capture-returns :
    (c : Collector) (env : Outside) (trig : Trigger)
    → IsSafe c
    → (c' : Collector) × (capture_snapshot c env trig ≡ some c')
      × IsKeptBy c c'
      × ((e : Exporter) × (events' : List Event) × (log : List RedactionEntry) × SamePlace
            c.exporter e
          × AreScrubbed c.service.buf.events events' log
          × HasListed
              (record c { exporter = e })
              env
              (export e env.files env.id env.path env.now events' c.service.vector.nodes
                c.service.vector.edges log trig)
              c')
unfolding capture_snapshot finish_capture Buffer.snapshot
capture-returns c env trig (sound, builds, writes) =
    let (e, found_one, place) =
      find_incident-SamePlace c.local.incident_builder c.exporter c.service.buf.events builds
        sound in
    let (events', log, scrubbed_all, scrubbed) =
      scrub_events-AreScrubbed c.service.buf.events sound in
    let (c', k, kept, listed) =
      add_snapshot-returns (record c { exporter = e }) env events'
        (export e env.files env.id env.path env.now events' c.service.vector.nodes
          c.service.vector.edges log trig)
        writes (AreScrubbed-IsSound c.service.buf.events events' log sound scrubbed) in
    (c', rw found_one (rw scrubbed_all k), kept, (e, events', log, place, scrubbed, listed))

pub on_snap-returns :
    (c : Collector) (env : Outside) (fired : Option Trigger)
    → IsSafe c
    → (c' : Collector) × (on_snap c env fired ≡ some c') × IsKeptBy c c'
unfolding on_snap
on_snap-returns c env none safe = (c, refl, (refl, refl))
on_snap-returns c env (some trig) safe =
    let (c', e, kept, _) = capture-returns c env trig safe in (c', e, kept)

pub IsKeptBy-IsSafe : (c c' : Collector) → IsSafe c → IsKeptBy c c' → IsSafe c'
IsKeptBy-IsSafe c c' (sound, builds, writes) (same, hooks) = (
  subst (λ s. All IsSound s.buf.events) (sym same) sound,
  subst (λ (h : LocalHooks). Builds h.incident_builder) (sym hooks) builds,
  subst (λ (h : LocalHooks). Writes h.replay_writer) (sym hooks) writes,
)

kept_from :
    (now : ℕ) (ev : Event) (events : List Event)
    → is_recent now ev ≡ true
    → drop_old now (ev ∷ events) ≡ ev ∷ events
unfolding drop_old
kept_from now ev events e = ground arith

dropped_to :
    (now : ℕ) (ev : Event) (events : List Event)
    → is_recent now ev ≡ false
    → drop_old now (ev ∷ events) ≡ drop_old now events
unfolding drop_old
dropped_to now ev events e = ground arith

drop_old-All :
    (now : ℕ) (events : List Event) → All IsSound events → All IsSound (drop_old now events)
drop_old-All now [] h = unfold drop_old in tt
drop_old-All now (ev ∷ events) (p, h) = elim (Bool-cases (is_recent now ev)) [
  | inl recent ↦ subst (All IsSound) (sym (kept_from now ev events recent)) (p, h)
  | inr old ↦ subst (All IsSound) (sym (dropped_to now ev events old)) (drop_old-All now events h)
]

add-All :
    (b : RollingBuffer) (evt : IoEvent) (node : Bytes) (now : ℕ)
    → IsTyped evt
    → IsBounded evt
    → All IsSound b.events
    → All IsSound (add b evt node now).events
unfolding add
add-All b evt node now typed bounded h =
    drop_old-All now _ (All-append IsSound b.events _ h ((typed, bounded), tt))

-- Where the buffered events are typed and bounded and the hooks do not panic on such events, no event that is so
-- too makes the collector panic, with the snapshot that it may trigger, its incident, its copies and the settings of
-- its replay, and the state stays so.
pub collect-IsSafe :
    (c : Collector) (env : Outside) (evt : IoEvent) (node : Bytes) (now later : ℕ)
    → IsSafe c
    → IsTyped evt
    → IsBounded evt
    → (c' : Collector) × (collect c env evt node now later ≡ some c') × IsSafe c'
unfolding collect
collect-IsSafe c env evt node now later safe typed bounded =
    let (r, e, buf) = ingest_event-total c.service evt node now later bounded in
    let (sound, builds, writes) = safe in
    let kept : All IsSound r.0.buf.events =
      subst (λ b. All IsSound b.events) (sym buf)
        (add-All c.service.buf evt node now typed bounded sound) in
    let safe_now : IsSafe (record c { service = r.0 }) = (kept, builds, writes) in
    let (c', k, same) = on_snap-returns (record c { service = r.0 }) env r.1 safe_now in
    (c', rw e k, IsKeptBy-IsSafe (record c { service = r.0 }) c' safe_now same)
