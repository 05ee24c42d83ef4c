-- ===== src/Replay/Multi/Total.antt =====
-- On full events a request is always handled (multi.go).
use bug_it.Base.{
  ℕ, suc, ◌≡◌, refl, inl, inr, Bool, false, List, [], ◌∷◌, Option, none, some, arith, Bool-cases,
  Option-cases, ◌==◌, drop, take, All, All-drop,
}
use bug_it.Text.{Bytes}
use bug_it.IoEvent.{IoEvent, IsBounded, payload_of_within}
use bug_it.Replay.Multi.Serve.{key-cases}
use bug_it.Replay.Keys.{request_key, http_host}
use bug_it.Replay.Multi.{
  MultiServer, set_cursor, is_free_response, next_response, is_match, is_same_request,
  find_response, fallback_from, search_response, serve, match_response, follow, is_refused_host,
}

next_response-total :
    (consumed : ℕ → Bool) (j : ℕ) (ws : List IoEvent)
    → All IsBounded ws
    → (r : Option (ℕ × Bytes)) × (next_response consumed j ws ≡ some r)
unfolding next_response
next_response-total consumed j [] b = (none, refl)
next_response-total consumed j (w ∷ ws) (bw, b) =
    elim (Bool-cases (is_free_response consumed j w)) [
      | inl free ↦ (some (j, take w.payload_len w.payload), ground (arith, payload_of_within w bw))
      | inr taken ↦ let (r, e) = next_response-total consumed (suc j) ws b in (r, rw taken e)
    ]

is_match-total :
    (consumed : ℕ → Bool) (key host : Bytes) (i : ℕ) (evt : IoEvent)
    → IsBounded evt
    → (b : Bool) × (is_match consumed key host i evt ≡ some b)
unfolding is_match
is_match-total consumed key host i evt b = elim (Bool-cases (consumed i)) [
  | inl served ↦ (false, ground arith)
  | inr fresh ↦ elim (Bool-cases (evt.is_write == 0)) [
    | inr other ↦ (false, ground arith)
    | inl read ↦ (
      is_same_request key host (take evt.payload_len evt.payload),
      ground (arith, payload_of_within evt b),
    )
  ]
]

find_response-total :
    (consumed : ℕ → Bool) (key host : Bytes) (i : ℕ) (evts : List IoEvent)
    → All IsBounded evts
    → (r : Option (ℕ × Bytes)) × (find_response consumed key host i evts ≡ some r)
unfolding find_response
find_response-total consumed key host i [] b = (none, refl)
find_response-total consumed key host i (evt ∷ evts) (be, b) =
    let (same, e) = is_match-total consumed key host i evt be in
    let (later, e2) = find_response-total consumed key host (suc i) evts b in
    let (found, e1) = next_response-total consumed (suc i) evts b in
    elim (Bool-cases same) [
      | inr other ↦ (later, ground arith)
      | inl match ↦ elim (Option-cases found) [
        | inl nothing ↦ (later, ground arith)
        | inr (r, here) ↦ (some r, ground arith)
      ]
    ]

search_response-total :
    (m : MultiServer) (request : Bytes)
    → All IsBounded m.events
    → (r : Option (ℕ × Bytes)) × (search_response m request ≡ some r)
unfolding search_response fallback_from
search_response-total m request b =
    let behind = All-drop IsBounded m.cursor m.events b in
    elim (key-cases (request_key request)) [
      | inl e ↦
          let (r, k) = next_response-total m.consumed m.cursor (drop m.cursor m.events) behind in
          (r, ground arith)
      | inr (c, t, e) ↦
          let (r, k) =
            find_response-total m.consumed (c ∷ t) (http_host request) m.cursor
              (drop m.cursor m.events) behind in
          (r, ground arith)
    ]

follow_events : (m : MultiServer) (s : Option ℕ) → (follow m s).events ≡ m.events
unfolding follow set_cursor
follow_events m none = refl
follow_events m (some index) = ground arith

-- A recording whose events have lengths inside their payloads is served without a panic, whatever is asked for.
pub match_response-total :
    (m : MultiServer) (session : Option ℕ) (request host_filter : Bytes)
    → All IsBounded m.events
    → (r : MultiServer × Option Bytes) × (match_response m session request host_filter ≡ some r)
unfolding match_response
match_response-total m session request host_filter b =
    let (found, e) =
      search_response-total (follow m session) request (rw (follow_events m session) b) in
    elim (Bool-cases (is_refused_host host_filter (http_host request))) [
      | inl refused ↦ ((follow m session, none), ground arith)
      | inr allowed ↦ (serve (follow m session) found, ground arith)
    ]
