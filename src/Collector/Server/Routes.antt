-- ===== src/Collector/Server/Routes.antt =====
-- The HTTP handlers that `Run` registers (server.go), behind `http.ServeMux`, which redirects a request whose path is
-- not clean. A path has no escapes, and the method is not CONNECT.
use bug_it.Base.{
  ℕ, ◌≡◌, ◌≢◌, refl, ap, ◌∙◌, ◌⊎◌, inl, inr, Bool, true, false, not, ◌&&◌, List, [], ◌∷◌, ◌++◌,
  Option, none, some, if◌then◌else◌, ◌>>=◌, All, Bool-cases,
}
use bug_it.Text.{Bytes, codes, bytes_eq, bytes_eq_refl, has_prefix}
use bug_it.Text.Search.{has_suffix, contains}
use bug_it.Collector.Trigger.{fire_manual}
use bug_it.Collector.Server.{
  SnapshotInfo, Collector, Outside, SnapshotResponse, last_response, trigger_snapshot,
  list_snapshots, snapshots_path, download_suffix,
}
use bug_it.Collector.Server.Capture.{IsSafe, on_snap-returns, IsKeptBy-IsSafe}
use bug_it.Collector.Server.Download.{
  DownloadAnswer, not_found, redirect, file, serve_info, serve_snapshot_download, download_first,
}
use bug_it.Collector.Server.Clean.{clean_path}
use bug_it.Collector.Snapshot.{is_empty}
use bug_it.Collector.Server.Posted.{
  Item, IsItem, Status, method_not_allowed, serve_ingest_events, serve_ingest_events-IsSafe,
}

-- A request, with its body as the handlers of the two posts read it. `detail` is empty where the body is no JSON.
pub record HttpRequest : Type 0 where
  pub is_get : Bool
  pub is_post : Bool
  pub path : Bytes
  pub host : Bytes
  pub events : Option (Bytes × List (Item × Outside × ℕ × ℕ))
  pub detail : Bytes

pub data HttpAnswer : Type 0 where
  ok_text : Bytes → HttpAnswer
  not_leader : HttpAnswer
  ingested : Status → HttpAnswer
  triggered : SnapshotResponse → HttpAnswer
  only_post : HttpAnswer
  listed : List SnapshotInfo → HttpAnswer
  downloaded : DownloadAnswer → HttpAnswer
  no_route : HttpAnswer
  moved : Bytes → HttpAnswer

unfoldable pub serve_readyz : Bool → HttpAnswer
serve_readyz ready = if ready then ok_text (codes "ready") else not_leader

-- The handler of `/v1/trigger`.
unfoldable pub serve_trigger :
    Collector → Outside → ℕ → Bool → Bytes → Option (Collector × HttpAnswer)
serve_trigger c env now is_post detail =
    if is_post
    then (trigger_snapshot c env detail now >>= λ (c', r). some (c', triggered r))
    else some (c, only_post)

-- The handler of `/v1/snapshots`.
unfoldable pub serve_snapshots : Collector → HttpRequest → HttpAnswer
serve_snapshots c r =
    if not (bytes_eq r.path (codes "/v1/snapshots"))
    then downloaded (serve_snapshot_download c r.is_get r.path r.host)
    else listed (list_snapshots c)

unfoldable pub serve_events : Collector → HttpRequest → Option (Collector × HttpAnswer)
serve_events c r =
    serve_ingest_events c r.is_post r.events >>= λ (c', status). some (c', ingested status)

-- The routes of `Run`: the whole path, but for the last, which takes the paths below it.
unfoldable pub serve_route :
    Collector → Bool → Outside → ℕ → HttpRequest → Option (Collector × HttpAnswer)
serve_route c ready env now r =
    if bytes_eq r.path (codes "/healthz")
    then some (c, ok_text (codes "ok"))
    else if bytes_eq r.path (codes "/readyz")
    then some (c, serve_readyz ready)
    else if bytes_eq r.path (codes "/v1/events")
    then serve_events c r
    else if bytes_eq r.path (codes "/v1/trigger")
    then serve_trigger c env now r.is_post r.detail
    else if bytes_eq r.path (codes "/v1/snapshots")
    then some (c, serve_snapshots c r)
    else if has_prefix r.path snapshots_path
    then some (c, downloaded (serve_snapshot_download c r.is_get r.path r.host))
    else some (c, no_route)

-- The server of `Run`.
unfoldable pub serve_http :
    Collector → Bool → Outside → ℕ → HttpRequest → Option (Collector × HttpAnswer)
serve_http c ready env now r =
    if bytes_eq (clean_path r.path) r.path
    then serve_route c ready env now r
    else some (c, moved (clean_path r.path))

trigger-returns :
    (c : Collector) (env : Outside) (now : ℕ) (detail : Bytes)
    → IsSafe c
    → (c' : Collector) × (r : SnapshotResponse) × (trigger_snapshot c env detail now ≡ some (c', r))
      × IsSafe c'
unfolding trigger_snapshot
trigger-returns c env now detail safe =
    let triggers = (fire_manual c.service.triggers detail now).0 in
    let c₁ : Collector = record c { service = record c.service { triggers = triggers } } in
    let (c', e, kept) = on_snap-returns c₁ env (fire_manual c.service.triggers detail now).1 safe in
    (c', last_response c'.snapshots, rw e refl, IsKeptBy-IsSafe c₁ c' safe kept)

-- What a handler does: it answers, the state stays safe, and a request that is no POST leaves it as it is.
abbrev pub IsServed : Collector → Bool → Option (Collector × HttpAnswer) → Type 0
IsServed c is_post o =
    (c' : Collector) × (a : HttpAnswer) × (o ≡ some (c', a))
    × IsSafe c'
    × ((is_post ≡ true) ⊎ (c' ≡ c))

plain-IsServed :
    (c : Collector) (is_post : Bool) (a : HttpAnswer) → IsSafe c → IsServed c is_post (some (c, a))
plain-IsServed c is_post a safe = (c, a, refl, safe, inr refl)

trigger-IsServed :
    (c : Collector) (env : Outside) (now : ℕ) (is_post : Bool) (detail : Bytes)
    → IsSafe c
    → IsServed c is_post (serve_trigger c env now is_post detail)
unfolding serve_trigger
trigger-IsServed c env now false detail safe = plain-IsServed c false only_post safe
trigger-IsServed c env now true detail safe =
    let (c', r, e, safe') = trigger-returns c env now detail safe in
    (c', triggered r, rw e refl, safe', inl refl)

refused_events :
    (c : Collector) (is_post : Bool) (request : Option (Bytes × List (Item × Outside × ℕ × ℕ)))
    → is_post ≡ false
    → serve_ingest_events c is_post request ≡ some (c, method_not_allowed)
unfolding serve_ingest_events
refused_events c is_post request e = rw e refl

-- The numbers of the posted events fit their Go types.
abbrev pub AreItems : HttpRequest → Type 0
AreItems r =
    (node : Bytes) (items : List (Item × Outside × ℕ × ℕ))
    → r.events ≡ some (node, items)
    → All (λ i. IsItem i.0) items

events-IsServed :
    (c : Collector) (r : HttpRequest)
    → IsSafe c
    → AreItems r
    → IsServed c r.is_post (serve_events c r)
unfolding serve_events
events-IsServed c r safe h = elim (Bool-cases r.is_post) [
  | inl e ↦
      let (c', status, answer, safe', _) = serve_ingest_events-IsSafe c r.is_post r.events safe h in
      (c', ingested status, rw answer refl, safe', inl e)
  | inr e ↦ (
    c,
    ingested method_not_allowed,
    rw (refused_events c r.is_post r.events e) refl,
    safe,
    inr refl,
  )
]

-- One route: both what it serves and what the others serve.
route-IsServed :
    (c : Collector) (is_post here : Bool) (own other : Option (Collector × HttpAnswer))
    → IsServed c is_post own
    → IsServed c is_post other
    → IsServed c is_post (if here then own else other)
route-IsServed c is_post true own other h k = h
route-IsServed c is_post false own other h k = k

serve_route-IsServed :
    (c : Collector) (ready : Bool) (env : Outside) (now : ℕ) (r : HttpRequest)
    → IsSafe c
    → AreItems r
    → IsServed c r.is_post (serve_route c ready env now r)
unfolding serve_route
serve_route-IsServed c ready env now r safe h =
    let plain = plain-IsServed c r.is_post in
    let route = route-IsServed c r.is_post in
    route _ _ _ (plain (ok_text (codes "ok")) safe) (
      route _ _ _ (plain (serve_readyz ready) safe) (
        route _ _ _ (events-IsServed c r safe h) (
          route _ _ _ (trigger-IsServed c env now r.is_post r.detail safe) (
            route _ _ _ (plain (serve_snapshots c r) safe) (
              route _ _ _
                (plain (downloaded (serve_snapshot_download c r.is_get r.path r.host)) safe)
                (plain no_route safe))))))

-- Whatever is asked of the collector over HTTP, with numbers that fit their Go types in the events that are posted:
-- if the buffered events are typed and bounded and the hooks do not panic on such events, it answers without a panic,
-- and the state stays so. A request that is no POST changes nothing.
pub serve_http-IsServed :
    (c : Collector) (ready : Bool) (env : Outside) (now : ℕ) (r : HttpRequest)
    → IsSafe c
    → AreItems r
    → IsServed c r.is_post (serve_http c ready env now r)
unfolding serve_http
serve_http-IsServed c ready env now r safe h =
    route-IsServed c r.is_post _ _ _ (serve_route-IsServed c ready env now r safe h)
      (plain-IsServed c r.is_post (moved (clean_path r.path)) safe)

clean_route :
    (c : Collector) (ready : Bool) (env : Outside) (now : ℕ) (r : HttpRequest)
    → clean_path r.path ≡ r.path
    → serve_http c ready env now r ≡ serve_route c ready env now r
unfolding serve_http
clean_route c ready env now r e = rw e (rw (bytes_eq_refl r.path) refl)

-- What a snapshot is downloaded as: not at all without a path, by a redirection where its address is a web address
-- that does not contain the host of the request, and else as the file at its path.
abbrev pub IsDownload : SnapshotInfo → Bytes → DownloadAnswer → Type 0
IsDownload info host a =
    ((info.path ≡ []) × (a ≡ not_found))
    ⊎ ((info.path ≢ [])
        × (has_prefix info.download_url (codes "http") ≡ true)
        × (contains info.download_url host ≡ false)
        × (a ≡ redirect info.download_url))
    ⊎ ((info.path ≢ [])
        × ((has_prefix info.download_url (codes "http") ≡ false)
            ⊎ (contains info.download_url host ≡ true))
        × (a ≡ file info.path))

chosen_download :
    (path url : Bytes) (web here : Bool)
    → let a = if not (is_empty url) && web && not here then redirect url else file path in
      has_prefix url (codes "http") ≡ web
      → ((web ≡ true) × (here ≡ false) × (a ≡ redirect url))
        ⊎ (((web ≡ false) ⊎ (here ≡ true)) × (a ≡ file path))
unfolding has_prefix
chosen_download path [] true here e = cc
chosen_download path [] false here e = inr (inl refl, refl)
chosen_download path (c ∷ url) true true e = inr (inr refl, refl)
chosen_download path (c ∷ url) true false e = inl (refl, refl, refl)
chosen_download path (c ∷ url) false here e = inr (inl refl, refl)

serve_info-IsDownload :
    (info : SnapshotInfo) (host : Bytes) → IsDownload info host (serve_info info host)
unfolding serve_info
serve_info-IsDownload info host = elim (empty_cases info.path) [
  | inl e ↦ inl (e, rw e refl)
  | inr (ne, full) ↦
      elim (chosen_download info.path info.download_url
        (has_prefix info.download_url (codes "http")) (contains info.download_url host) refl) [
          | inl (web, away, a) ↦ inr (inl (ne, web, away, rw full a))
          | inr (why, a) ↦ inr (inr (ne, why, rw full a))
        ]
]
  where
    empty_cases : (s : Bytes) → (s ≡ []) ⊎ ((s ≢ []) × (is_empty s ≡ false))
    empty_cases [] = inl refl
    empty_cases (c ∷ s) = inr ((λ e. cc), refl)

-- A GET of `/v1/snapshots/<id>/download` is answered with the first snapshot of this id, whatever the collector's
-- readiness and the time, and changes nothing, if the id is not empty, does not end with a slash and makes a path
-- that is clean: the answer is `not found` for a snapshot without a path, a redirection to its address where that is
-- a web address that does not contain the host, and else the file at its path.
pub serve_http-IsDownload :
    (c : Collector) (ready : Bool) (env : Outside) (now : ℕ) (before after : List SnapshotInfo)
    (info : SnapshotInfo) (host : Bytes)
    → c.snapshots ≡ before ++ info ∷ after
    → All (λ other. other.id ≢ info.id) before
    → info.id ≢ []
    → has_suffix info.id (codes "/") ≡ false
    → clean_path (snapshots_path ++ info.id ++ download_suffix)
      ≡ snapshots_path ++ info.id ++ download_suffix
    → (a : DownloadAnswer) × (serve_http c ready env now (record {
      is_get = true;
      is_post = false;
      path = snapshots_path ++ info.id ++ download_suffix;
      host = host;
      events = none;
      detail = [];
    })
        ≡ some (c, downloaded a))
      × IsDownload info host a
serve_http-IsDownload c ready env now before after info host e first ne no_slash clean = (
  serve_info info host,
  clean_route c ready env now _ clean
      ∙ (unfold serve_route bytes_eq has_prefix in
          ap (λ a. some (c, downloaded a))
            (download_first c before after info host e first ne no_slash)),
  serve_info-IsDownload info host,
)
