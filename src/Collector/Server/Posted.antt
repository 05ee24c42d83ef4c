-- ===== src/Collector/Server/Posted.antt =====
-- `POST /v1/events`, and what it does to the collector (server.go).
use bug_it.Base.{
  ℕ, ◌^◌, Bool, true, false, not, List, [], ◌∷◌, Option, none, some, ◌==◌, if◌then◌else◌, ◌>>=◌,
  ◌<◌, ◌≡◌, refl, All, ◌⊎◌, inl, inr, ◌∙◌,
}
use bug_it.Text.{Bytes, codes}
use bug_it.IoEvent.{IoEvent, IsTyped, IsBounded}
use bug_it.Capture.{cut_payload, fill_event}
use bug_it.Collector.Snapshot.{is_empty}
use bug_it.Capture.Fill.{fill_event-IsTyped, cut_payload-le}
use bug_it.Collector.Server.Capture.{IsSafe, collect-IsSafe}
use bug_it.Collector.Server.{Collector, Outside, collect}

-- An event of the body of `POST /v1/events`.
pub record Item : Type 0 where
  pub timestamp_ns : ℕ
  pub fd : ℕ
  pub is_write : ℕ
  pub comm : Bytes
  pub payload : Bytes

unfoldable pub item_event : Item → ℕ → IoEvent
item_event item now =
    fill_event (if item.timestamp_ns == 0 then now else item.timestamp_ns) item.fd item.is_write
      (cut_payload item.payload) item.comm

-- What `serveIngestEvents` reads of a request; `request` is `none` where the body is not the JSON text.
pub data Status : Type 0 where
  accepted bad_request method_not_allowed : Status

unfoldable pub local_node : Bytes → Bytes
local_node node = if is_empty node then codes "local-dev" else node

-- The loop over the items; each capture has its own outside, and each event its times.
unfoldable pub ingest_items : Collector → Bytes → List (Item × Outside × ℕ × ℕ) → Option Collector
ingest_items c node [] = some c
ingest_items c node ((item, env, now, later) ∷ items) =
    collect c env (item_event item now) node now later >>= λ c'. ingest_items c' node items

unfoldable pub serve_ingest_events :
    Collector → Bool → Option (Bytes × List (Item × Outside × ℕ × ℕ)) → Option (Collector × Status)
serve_ingest_events c is_post request =
    if not is_post then some (c, method_not_allowed) else elim request [
      | none ↦ some (c, bad_request)
      | some (node, items) ↦ ingest_items c (local_node node) items >>= λ c'. some (c', accepted)
    ]

-- What the JSON decoder guarantees of an item: the numbers fit their Go types.
abbrev pub IsItem : Item → Type 0
IsItem item = (item.fd < 2 ^ 32) × (item.is_write < 2 ^ 8)

item_event-IsTyped :
    (item : Item) (now : ℕ)
    → IsItem item
    → IsTyped (item_event item now) × IsBounded (item_event item now)
unfolding item_event
item_event-IsTyped item now (fd, is_write) =
    let (typed, bounded, content) =
      fill_event-IsTyped _ item.fd item.is_write (cut_payload item.payload) item.comm fd is_write
        (cut_payload-le item.payload) in
    (typed, bounded)

ingest_items_eq :
    (c : Collector) (node : Bytes) (item : Item) (env : Outside) (now later : ℕ)
    (items : List (Item × Outside × ℕ × ℕ)) {c' : Collector}
    → collect c env (item_event item now) node now later ≡ some c'
    → ingest_items c node ((item, env, now, later) ∷ items) ≡ ingest_items c' node items
unfolding ingest_items
ingest_items_eq c node item env now later items e = rw e

ingest_items-IsSafe :
    (c : Collector) (node : Bytes) (items : List (Item × Outside × ℕ × ℕ))
    → IsSafe c
    → All (λ r. IsItem r.0) items
    → (c' : Collector) × (ingest_items c node items ≡ some c') × IsSafe c'
ingest_items-IsSafe c node [] safe h = (c, (unfold ingest_items in refl), safe)
ingest_items-IsSafe c node ((item, env, now, later) ∷ items) safe (ok, h) =
    let (typed, bounded) = item_event-IsTyped item now ok in
    let (c₁, e, safe₁) =
      collect-IsSafe c env (item_event item now) node now later safe typed bounded in
    let (c', k, safe') = ingest_items-IsSafe c₁ node items safe₁ h in
    (c', ingest_items_eq c node item env now later items e ∙ k, safe')

-- Whatever is posted in numbers that fit their Go types, the handler answers, and the buffered events stay
-- typed and bounded if they were: the status is `accepted` for a POST
-- of events, and only then the state changes.
pub serve_ingest_events-IsSafe :
    (c : Collector) (is_post : Bool) (request : Option (Bytes × List (Item × Outside × ℕ × ℕ)))
    → IsSafe c
    → ((node : Bytes) (items : List (Item × Outside × ℕ × ℕ))
        → request ≡ some (node, items)
        → All (λ r. IsItem r.0) items)
    → (c' : Collector) × (status : Status) × (serve_ingest_events c is_post request
        ≡ some (c', status))
      × IsSafe c'
      × ((status ≡ accepted) ⊎ (c' ≡ c))
unfolding serve_ingest_events
serve_ingest_events-IsSafe c false request safe h = (c, method_not_allowed, refl, safe, inr refl)
serve_ingest_events-IsSafe c true none safe h = (c, bad_request, refl, safe, inr refl)
serve_ingest_events-IsSafe c true (some (node, items)) safe h =
    let (c', e, safe') = ingest_items-IsSafe c (local_node node) items safe (h node items refl) in
    (c', accepted, rw e refl, safe', inl refl)
