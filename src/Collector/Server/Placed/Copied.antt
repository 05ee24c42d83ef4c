-- ===== src/Collector/Server/Placed/Copied.antt =====
-- The copies of a new snapshot (dre-collector/internal/server/server.go).
use bug_it.Base.{
  ◌≡◌, ◌≢◌, refl, ap, sym, ◌∙◌, inl, inr, true, false, All, List, [], ◌∷◌, Option, none, some,
  Bool-cases, subst,
}
use bug_it.Text.{Bytes, bytes_eq, bytes_eq_refl, bytes_eq_sound}
use bug_it.Text.Path.{base, join}
use bug_it.Collector.Snapshot.{is_empty}
use bug_it.Project.Disk.{Disk, found, content, missing, failed, read_file, write_file}
use bug_it.IoEvent.{IoEvent, IsBounded}
use bug_it.Collector.Buffer.{Event}
use bug_it.Collector.Server.Placed.{
  buffer_events_to_native, written_settings, write_replay, post_process_snapshot, LocalHooks,
  place_read, place_snapshot, link_read, link_snapshot, copy_snapshot,
}

put-own :
    (d : Disk) (p text : Bytes) → d.writable p ≡ true → (write_file d p text).0.files p ≡ some text
unfolding write_file
put-own d p text h = rw h (rw (bytes_eq_refl p) refl)

pub put-other : (d : Disk) (p q text : Bytes) → p ≢ q → (write_file d p text).0.files q ≡ d.files q
unfolding write_file
put-other d p q text apart = elim (Bool-cases (d.writable p)) [
  | inr closed ↦ rw closed refl
  | inl h ↦ elim (Bool-cases (bytes_eq q p)) [
    | inl same ↦ absurd (apart (sym (bytes_eq_sound q p same)))
    | inr e ↦ rw h (rw e refl)
  ]
]

put-closed : (d : Disk) (p text : Bytes) → d.writable p ≡ false → (write_file d p text).0 ≡ d
unfolding write_file
put-closed d p text h = rw h refl

put-writable : (d : Disk) (p q text : Bytes) → (write_file d p text).0.writable q ≡ d.writable q
unfolding write_file
put-writable d p q text = elim (Bool-cases (d.writable p)) [ inl h ↦ rw h refl | inr h ↦ rw h refl ]

put-denied : (d : Disk) (p q text : Bytes) → (write_file d p text).0.denied q ≡ d.denied q
unfolding write_file
put-denied d p q text = elim (Bool-cases (d.writable p)) [ inl h ↦ rw h refl | inr h ↦ rw h refl ]

found-content : (o : Option Bytes) (text : Bytes) → found o ≡ content text → o ≡ some text
found-content none text h = cc
found-content (some s) text h = cc

read-content : (d : Disk) (p text : Bytes) → read_file d p ≡ content text → d.files p ≡ some text
unfolding read_file
read-content d p text h = elim (Bool-cases (d.denied p)) [
  | inl e ↦ absurd (refused e)
  | inr e ↦ found-content (d.files p) text (opened e)
]
  where
    opened : d.denied p ≡ false → found (d.files p) ≡ content text
    opened e = let same : read_file d p ≡ found (d.files p) = rw e refl in sym same ∙ h

    refused : d.denied p ≡ true → ⊥
    refused e =
        let same : read_file d p ≡ failed = rw e refl in
        let no : failed ≡ content text = sym same ∙ h in cc

content-read :
    (d : Disk) (p text : Bytes)
    → d.denied p ≡ false
    → d.files p ≡ some text
    → read_file d p ≡ content text
unfolding read_file
content-read d p text h k = rw h (ap found k)

-- The snapshot is where `postProcessSnapshot` looks for it from there on, and nothing but its copy has changed.
abbrev HasPlaced : Disk → Bytes → Bytes → Disk × Bytes → Type 0
HasPlaced d dest text (placed, at) =
    (read_file placed at ≡ content text)
    × (placed.files dest ≡ some text)
    × ((p : Bytes) → placed.writable p ≡ d.writable p)
    × ((p : Bytes) → dest ≢ p → placed.files p ≡ d.files p)

copied-HasPlaced :
    (d : Disk) (dest text : Bytes)
    → d.writable dest ≡ true
    → d.denied dest ≡ false
    → HasPlaced d dest text ((write_file d dest text).0, dest)
copied-HasPlaced d dest text w o = (
  content-read (write_file d dest text).0 dest text (put-denied d dest dest text ∙ o)
      (put-own d dest text w),
  put-own d dest text w,
  (λ p. put-writable d dest p text),
  (λ p apart. put-other d dest p text apart),
)

place-HasPlaced :
    (d : Disk) (path dest text : Bytes)
    → read_file d path ≡ content text
    → d.writable dest ≡ true
    → d.denied dest ≡ false
    → HasPlaced d dest text (place_snapshot d path dest)
unfolding place_snapshot place_read
place-HasPlaced d path dest text r w o = elim (Bool-cases (bytes_eq path dest)) [
  | inl same ↦
      let e = bytes_eq_sound path dest same in
      rw same (r, ap d.files (sym e) ∙ read-content d path text r, (λ p. refl), (λ p apart. refl))
  | inr apart ↦ rw apart (
      subst (λ x. HasPlaced d dest text (place_read d path dest x)) (sym r)
        (copied-HasPlaced d dest text w o))
]

linked_copy :
    (d : Disk) (link path text : Bytes)
    → is_empty link ≡ false
    → read_file d path ≡ content text
    → link_snapshot d link path ≡ (write_file d link text).0
unfolding link_snapshot
linked_copy d link path text linked back =
    rw linked (ap (link_read d link) back ∙ (unfold link_read in refl))

kept_copy :
    (d : Disk) (link dest text : Bytes)
    → d.writable link ≡ true
    → d.files dest ≡ some text
    → (write_file d link text).0.files dest ≡ some text
kept_copy d link dest text w own = elim (Bool-cases (bytes_eq link dest)) [
  | inl same ↦
      subst (λ q. (write_file d link text).0.files q ≡ some text) (bytes_eq_sound link dest same)
        (put-own d link text w)
  | inr e ↦ put-other d link dest text (λ same. differ e same) ∙ own
]
  where
    differ : bytes_eq link dest ≡ false → link ≡ dest → ⊥
    differ e same =
        let k : bytes_eq link dest ≡ true = ap (bytes_eq link) (sym same) ∙ bytes_eq_refl link in cc

place-unwritable :
    (d : Disk) (path dest text : Bytes)
    → read_file d path ≡ content text
    → path ≢ dest
    → d.writable dest ≡ false
    → place_snapshot d path dest ≡ (d, dest)
unfolding place_snapshot
place-unwritable d path dest text r apart w = elim (Bool-cases (bytes_eq path dest)) [
  | inl same ↦ absurd (apart (bytes_eq_sound path dest same))
  | inr e ↦ rw e (
      ap (place_read d path dest) r
      ∙ (unfold place_read in ap (λ (s : Disk). (s, dest)) (put-closed d dest text w)))
]

link-missing : (d : Disk) (link dest : Bytes) → d.files dest ≡ none → link_snapshot d link dest ≡ d
unfolding link_snapshot
link-missing d link dest gone = elim (Bool-cases (is_empty link)) [
  | inl e ↦ rw e refl
  | inr e ↦ rw e (elim (Bool-cases (d.denied dest)) [
    | inl denied ↦ ap (link_read d link) (unreadable denied) ∙ (unfold link_read in refl)
    | inr open_path ↦ ap (link_read d link) (absent open_path) ∙ (unfold link_read in refl)
  ])
]
  where
    unreadable : d.denied dest ≡ true → read_file d dest ≡ failed
    unreadable e = unfold read_file in rw e refl

    absent : d.denied dest ≡ false → read_file d dest ≡ missing
    absent e = unfold read_file in rw e (ap found gone)

copy_snapshot-placed :
    (h : LocalHooks) (d : Disk) (path text : Bytes)
    → let dest = join h.snapshot_dir (base path) in
      read_file d path ≡ content text
      → d.writable dest ≡ true
      → d.denied dest ≡ false
      → is_empty h.latest_link ≡ false
      → d.writable h.latest_link ≡ true
      → ((copy_snapshot h d path).files dest ≡ some text)
        × ((copy_snapshot h d path).files h.latest_link ≡ some text)
        × ((p : Bytes)
            → dest ≢ p
            → h.latest_link ≢ p
            → (copy_snapshot h d path).files p ≡ d.files p)
unfolding copy_snapshot link_snapshot
copy_snapshot-placed h d path text r w o linked wl =
    let dest = join h.snapshot_dir (base path) in
    let s = place_snapshot d path dest in
    let (back, own, open_paths, others) = place-HasPlaced d path dest text r w o in
    let closed = open_paths h.latest_link ∙ wl in
    subst
      (λ (e : Disk).
        (e.files dest ≡ some text)
        × (e.files h.latest_link ≡ some text)
        × ((p : Bytes) → dest ≢ p → h.latest_link ≢ p → e.files p ≡ d.files p))
      (sym (linked_copy s.0 h.latest_link s.1 text linked back))
      (
        kept_copy s.0 h.latest_link dest text closed own,
        put-own s.0 h.latest_link text closed,
        (λ p apart off. put-other s.0 h.latest_link p text off ∙ others p apart),
      )

-- A writer of the settings of the replay does not panic on events with lengths inside their payloads, and changes no
-- file but the one at its path.
abbrev pub WritesOnly : Option (Disk → Bytes → Bytes → List IoEvent → Option Disk) → Type 0
WritesOnly none = Unit
WritesOnly (some write) =
    (d : Disk) (path root : Bytes) (evts : List IoEvent)
    → All IsBounded evts
    → (d' : Disk) × (write d path root evts ≡ some d')
      × ((p : Bytes) → path ≢ p → d'.files p ≡ d.files p)

written-kept :
    (w : Option (Disk → Bytes → Bytes → List IoEvent → Option Disk)) (d : Disk) (path root : Bytes)
    (evts : List IoEvent)
    → WritesOnly w
    → All IsBounded evts
    → (d' : Disk) × (written_settings w d path root evts ≡ some d')
      × ((p : Bytes) → path ≢ p → d'.files p ≡ d.files p)
written-kept none d path root evts only bounded = (d, refl, λ p apart. refl)
written-kept (some write) d path root evts only bounded = only d path root evts bounded

write_replay-kept :
    (h : LocalHooks) (d : Disk) (events : List Event)
    → WritesOnly h.replay_writer
    → All IsBounded (buffer_events_to_native events)
    → (d' : Disk) × (write_replay h d events ≡ some d')
      × ((p : Bytes) → h.replay_path ≢ p → d'.files p ≡ d.files p)
unfolding write_replay
write_replay-kept h d [] only bounded = (d, refl, λ p apart. refl)
write_replay-kept h d (ev ∷ events) only bounded =
    let (d', e, kept) =
      written-kept h.replay_writer d h.replay_path h.project_root
        (buffer_events_to_native (ev ∷ events)) only bounded in
    elim (Bool-cases (is_empty h.replay_path)) [
      | inl off ↦ (d, rw off refl, λ p apart. refl)
      | inr on ↦ (d', rw on e, kept)
    ]

-- Where the folder of the snapshots is set, a new snapshot can be read, its copy can be written and read, the latest
-- link is set and can be written, and the writer of the settings does not panic and changes no file but its own, which
-- is neither the copy nor the link: `postProcessSnapshot` does not panic, leaves the snapshot in the folder and at the
-- link, and changes no other file but those settings.
pub post_process_snapshot-placed :
    (h : LocalHooks) (d : Disk) (path text : Bytes) (events : List Event)
    → let dest = join h.snapshot_dir (base path) in
      is_empty h.snapshot_dir ≡ false
      → read_file d path ≡ content text
      → d.writable dest ≡ true
      → d.denied dest ≡ false
      → is_empty h.latest_link ≡ false
      → d.writable h.latest_link ≡ true
      → WritesOnly h.replay_writer
      → All IsBounded (buffer_events_to_native events)
      → h.replay_path ≢ dest
      → h.replay_path ≢ h.latest_link
      → (d' : Disk) × (post_process_snapshot h d path events ≡ some d')
        × (d'.files dest ≡ some text)
        × (d'.files h.latest_link ≡ some text)
        × ((p : Bytes) → dest ≢ p → h.latest_link ≢ p → h.replay_path ≢ p → d'.files p ≡ d.files p)
unfolding post_process_snapshot
post_process_snapshot-placed h d path text events on r w o linked wl only bounded apart off =
    let (own, link, others) = copy_snapshot-placed h d path text r w o linked wl in
    let (d', e, kept) = write_replay-kept h (copy_snapshot h d path) events only bounded in
    (d', rw on e, kept _ apart ∙ own, kept _ off ∙ link, λ p a b c. kept p c ∙ others p a b)

-- The copy is not made where its path cannot be written, but its path is used from there on: then the link is not
-- written either, though the snapshot can be read.
pub copy_snapshot-unwritable :
    (h : LocalHooks) (d : Disk) (path text : Bytes)
    → let dest = join h.snapshot_dir (base path) in
      read_file d path ≡ content text
      → path ≢ dest
      → d.writable dest ≡ false
      → d.files dest ≡ none
      → copy_snapshot h d path ≡ d
unfolding copy_snapshot
copy_snapshot-unwritable h d path text r apart w gone =
    let dest = join h.snapshot_dir (base path) in
    ap (λ (s : Disk × Bytes). link_snapshot s.0 h.latest_link s.1)
      (place-unwritable d path dest text r apart w)
    ∙ link-missing d h.latest_link dest gone
