-- ===== src/Replay/Multi/Serve.antt =====
-- Which response answers a request (multi.go).
use bug_it.Base.{
  ℕ, ◌≤◌, ◌<◌, ◌≡◌, refl, sym, ◌∙◌, ◌≢◌, ◌⊎◌, inl, inr, [], ◌∷◌, Option, none, some, arith,
  Bool-cases, Option-cases, drop,
}
use bug_it.Text.{Bytes}
use bug_it.Replay.Keys.{request_key, http_host}
use bug_it.Replay.Multi.{
  MultiServer, consume, find_response, fallback_from, search_response, serve, match_response,
  follow, is_refused_host,
}
use bug_it.Replay.Multi.Missed.{
  next_response-missed, find_response-missed, IsRefused, is_refused_host-IsRefused,
}
use bug_it.Replay.Multi.Found.{
  IsResponse, IsRequest, next_response-IsResponse, find_response-IsResponse,
}

-- Where the answer to a request stands: behind the recorded request, if the request has a key, and
-- behind the cursor in any case.
pub record IsAnswer (m : MultiServer) (request : Bytes) (j : ℕ) (out : Bytes) : Type 0 where
  pub response : IsResponse m.consumed m.events j out
  pub behind_cursor : m.cursor ≤ j
  pub recorded_request :
      request_key request ≢ []
      → (i : ℕ) × IsRequest m.consumed m.events (request_key request) (http_host request) i
        × (m.cursor ≤ i)
        × (i < j)

pub key-cases : (k : Bytes) → (k ≡ []) ⊎ ((c : ℕ) × (t : Bytes) × (k ≡ c ∷ t))
key-cases [] = inl refl
key-cases (c ∷ t) = inr (c, t, refl)

pub search_keyed :
    (m : MultiServer) (request : Bytes)
    → request_key request ≢ []
    → search_response m request
      ≡ find_response m.consumed
          (request_key request)
          (http_host request)
          m.cursor
          (drop m.cursor m.events)
unfolding search_response
search_keyed m request ne = elim (key-cases (request_key request)) [
  | inl e ↦ absurd (ne e)
  | inr (c, t, e) ↦ ground arith
]

pub search_response-IsAnswer :
    (m : MultiServer) (request : Bytes) {j : ℕ} {out : Bytes}
    → search_response m request ≡ some (some (j, out))
    → IsAnswer m request j out
search_response-IsAnswer m request {j} {out} h = elim (key-cases (request_key request)) [
  | inl e ↦
      let (found, le) =
        next_response-IsResponse m.consumed m.events (drop m.cursor m.events) m.cursor {j = j}
          {out = out} refl (unfold search_response fallback_from in ground arith) in
      record { response = found; behind_cursor = le; recorded_request = λ ne. absurd (ne e) }
  | inr (c, t, e) ↦
      let ne : request_key request ≢ [] = λ z. cc in
      let (found, i, req, le, lt) =
        find_response-IsResponse m.consumed (request_key request) (http_host request) m.events
          (drop m.cursor m.events) m.cursor refl (sym (search_keyed m request ne) ∙ h) in
      record {
        response = found;
        behind_cursor = omega arith;
        recorded_request = λ _. (i, req, le, lt);
      }
]

-- There is nothing to answer a request with: no response from the cursor on that was not served stands behind a
-- recorded request of the same key and host, or none at all is there for a request without a key.
abbrev pub IsUnanswered : MultiServer → Bytes → Type 0
IsUnanswered m request =
    (j : ℕ) (out : Bytes)
    → IsResponse m.consumed m.events j out
    → ((request_key request ≡ []) → ¬ (m.cursor ≤ j))
      × ((request_key request ≢ [])
          → (i : ℕ) → m.cursor ≤ i
          → i < j
          → ¬ IsRequest m.consumed m.events (request_key request) (http_host request) i)

search_response-IsUnanswered :
    (m : MultiServer) (request : Bytes)
    → search_response m request ≡ some none
    → IsUnanswered m request
search_response-IsUnanswered m request h j out r = (
  λ e le.
      next_response-missed m.consumed m.events (drop m.cursor m.events) m.cursor j out refl
        (unfold search_response fallback_from in ground arith) le r,
  λ ne i le lt q.
      find_response-missed m.consumed (request_key request) (http_host request) m.events
        (drop m.cursor m.events) m.cursor i j out refl (sym (search_keyed m request ne) ∙ h) le lt q
        r,
)

-- A request that runs without a panic sees the server as `SetCursor` leaves it for the session's cursor, where there is
-- one. Either it is not answered and leaves the server so: then its host is refused for the listener's, or there is no
-- response to answer it with. Or it is answered with a recorded response from the
-- cursor on that was not served, which is then consumed, and nothing else changes. If the request has a key, the
-- response stands behind a recorded request from the cursor on that was not served, has the same key, and has the
-- same host where both name one; a request without a key is answered wherever the fallback finds a response.
pub match_response-IsAnswer :
    (m : MultiServer) (session : Option ℕ) (request host_filter : Bytes) {m' : MultiServer}
    {r : Option Bytes}
    → match_response m session request host_filter ≡ some (m', r)
    → ((m' ≡ follow m session)
        × (r ≡ none)
        × (IsRefused host_filter (http_host request) ⊎ IsUnanswered (follow m session) request))
      ⊎ ((j : ℕ) × (out : Bytes) × IsAnswer (follow m session) request j out
          × (m' ≡ record (follow m session) { consumed = consume (follow m session).consumed j })
          × (r ≡ some out))
unfolding match_response serve
match_response-IsAnswer m session request host_filter {m'} {r} h =
    elim (Bool-cases (is_refused_host host_filter (http_host request))) [
      | inl refused ↦ inl (
        ground arith,
        ground arith,
        inl (is_refused_host-IsRefused host_filter (http_host request) refused),
      )
      | inr allowed ↦ elim (Option-cases (search_response (follow m session) request)) [
        | inl e ↦ absurd (ground arith)
        | inr (none, e) ↦ inl (
          ground arith,
          ground arith,
          inr (search_response-IsUnanswered (follow m session) request e),
        )
        | inr (some (j, out), e) ↦ inr (
          j,
          out,
          search_response-IsAnswer (follow m session) request e,
          ground arith,
          ground arith,
        )
      ]
    ]
