-- ===== src/Collector/Server/Download.antt =====
-- `GET /v1/snapshots/<id>/download`, and which snapshot it is answered with (server.go).
use bug_it.Base.{
  Bool, true, false, not, ◌&&◌, List, [], ◌∷◌, ◌++◌, Option, none, some, if◌then◌else◌, ◌≡◌, ◌≢◌,
  refl, inl, inr, All, Bool-cases, drop-append,
}
use bug_it.Text.{Bytes, codes, bytes_eq, has_prefix, trim_prefix, bytes_eq_refl, bytes_eq_sound}
use bug_it.Text.Search.{
  contains, has_suffix, trim_suffix, has_suffix-append, trim_suffix-append, has_prefix-append,
}
use bug_it.Collector.Snapshot.{is_empty}
use bug_it.Collector.Server.{SnapshotInfo, Collector, snapshots_path, download_suffix}

-- The answers of `serveSnapshotDownload`.
pub data DownloadAnswer : Type 0 where
  not_allowed not_found : DownloadAnswer
  redirect : Bytes → DownloadAnswer
  file : Bytes → DownloadAnswer

-- The first snapshot of the id.
unfoldable pub find_snapshot : List SnapshotInfo → Bytes → Option SnapshotInfo
find_snapshot [] id = none
find_snapshot (info ∷ infos) id = if bytes_eq info.id id then some info else find_snapshot infos id

-- The end of the handler: an address on another host is a redirection.
unfoldable pub serve_info : SnapshotInfo → Bytes → DownloadAnswer
serve_info info host =
    if is_empty info.path
    then not_found
    else if not (is_empty info.download_url)
        && has_prefix info.download_url (codes "http")
        && not (contains info.download_url host)
    then redirect info.download_url
    else file info.path

-- The lookup, on an id that is not empty.
unfoldable pub serve_id : List SnapshotInfo → Bytes → Bytes → DownloadAnswer
serve_id infos id host =
    if is_empty id
    then not_found
    else elim (find_snapshot infos id) [ none ↦ not_found | some info ↦ serve_info info host ]

-- `serveSnapshotDownload`
unfoldable pub serve_snapshot_download : Collector → Bool → Bytes → Bytes → DownloadAnswer
serve_snapshot_download c is_get url_path host =
    let rest = trim_prefix url_path snapshots_path in
    if not is_get
    then not_allowed
    else if not (has_suffix rest download_suffix)
    then not_found
    else serve_id c.snapshots (trim_suffix (trim_suffix rest download_suffix) (codes "/")) host

find_first :
    (before after : List SnapshotInfo) (info : SnapshotInfo)
    → All (λ other. other.id ≢ info.id) before
    → find_snapshot (before ++ info ∷ after) info.id ≡ some info
unfolding find_snapshot
find_first [] after info h = rw (bytes_eq_refl info.id)
find_first (other ∷ before) after info (ne, h) = elim (Bool-cases (bytes_eq other.id info.id)) [
  | inl same ↦ absurd (ne (bytes_eq_sound other.id info.id same))
  | inr apart ↦ rw apart (find_first before after info h)
]

not_empty : (s : Bytes) → s ≢ [] → is_empty s ≡ false
not_empty [] ne = absurd (ne refl)
not_empty (c ∷ s) ne = refl

id_of_path :
    (id : Bytes)
    → has_suffix id (codes "/") ≡ false
    → (trim_prefix (snapshots_path ++ id ++ download_suffix) snapshots_path ≡ id ++ download_suffix)
      × (trim_suffix (trim_suffix (id ++ download_suffix) download_suffix) (codes "/") ≡ id)
unfolding trim_prefix
id_of_path id no_slash = (
  rw (has_prefix-append snapshots_path (id ++ download_suffix))
      (drop-append snapshots_path (id ++ download_suffix)),
  rw (trim_suffix-append id download_suffix) (unfold trim_suffix in rw no_slash),
)

-- The address `/v1/snapshots/<id>/download`, which the collector writes into its answers, is served with the
-- first snapshot of this id, if the id is not empty and does not end with a slash.
pub download_first :
    (c : Collector) (before after : List SnapshotInfo) (info : SnapshotInfo) (host : Bytes)
    → c.snapshots ≡ before ++ info ∷ after
    → All (λ other. other.id ≢ info.id) before
    → info.id ≢ []
    → has_suffix info.id (codes "/") ≡ false
    → serve_snapshot_download c true (snapshots_path ++ info.id ++ download_suffix) host
      ≡ serve_info info host
unfolding serve_snapshot_download serve_id
download_first c before after info host e first ne no_slash =
    let (rest, id) = id_of_path info.id no_slash in
    let found : find_snapshot c.snapshots info.id ≡ some info =
      rw e (find_first before after info first) in
    let suffix = has_suffix-append info.id download_suffix in
    let full = not_empty info.id ne in rw rest (rw suffix (rw id (rw full (rw found refl))))
