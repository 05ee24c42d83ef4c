-- ===== src/Replay/Multi.antt =====
-- dre-replay-cli/internal/proxy/multi.go: each recorded response answers one request.
pub mod Found
pub mod Missed
pub mod Serve
pub mod Once
pub mod Total
pub mod Recorded
use bug_it.Base.{
  ℕ, suc, ◌+◌, Bool, true, false, not, ◌&&◌, ◌||◌, List, [], ◌∷◌, Option, none, some, ltb, leb,
  ◌==◌, if◌then◌else◌, ◌>>=◌, length, drop,
}
use bug_it.Text.{Bytes, bytes_eq, equal_fold, has_prefix}
use bug_it.Text.Search.{before_byte}
use bug_it.IoEvent.{IoEvent, payload_of}
use bug_it.Replay.Keys.{request_key, http_host}

-- The fields that answer requests; `consumed[i]` reads as false where it is missing. The cursor is that of
-- the session, which is never negative.
pub record MultiServer : Type 0 where
  pub events : List IoEvent
  pub cursor : ℕ
  pub consumed : ℕ → Bool

-- `NewMulti`
unfoldable pub new_multi : List IoEvent → MultiServer
new_multi events = record { events = events; cursor = 0; consumed = λ _. false }

-- `SetCursor`: going back frees the responses from the new cursor on.
unfoldable pub set_cursor : MultiServer → ℕ → MultiServer
set_cursor m index =
    if ltb index m.cursor
    then record m {
      cursor = index;
      consumed = λ i. if leb index i && ltb i (length m.events) then false else m.consumed i;
    }
    else record m { cursor = index }

-- `m.consumed[j] = true`
unfoldable pub consume : (ℕ → Bool) → ℕ → ℕ → Bool
consume consumed j i = if i == j then true else consumed i

-- A write with a payload that has not been served.
unfoldable pub is_free_response : (ℕ → Bool) → ℕ → IoEvent → Bool
is_free_response consumed j w = w.is_write == 1 && not (w.payload_len == 0) && not (consumed j)

-- The inner loop, on the events from `j` on: the first free response with its payload. The outer `none`
-- is a panic.
unfoldable pub next_response : (ℕ → Bool) → ℕ → List IoEvent → Option (Option (ℕ × Bytes))
next_response consumed j [] = some none
next_response consumed j (w ∷ ws) =
    if is_free_response consumed j w
    then (payload_of w >>= λ out. some (some (j, out)))
    else next_response consumed (suc j) ws

-- `reqHost != "" && httpHost(payload) != "" && httpHost(payload) != reqHost`
unfoldable pub is_other_host : Bytes → Bytes → Bool
is_other_host [] host = false
is_other_host (c ∷ req_host) [] = false
is_other_host (c ∷ req_host) (d ∷ host) = not (bytes_eq (d ∷ host) (c ∷ req_host))

-- The recorded request is the one that is asked for.
unfoldable pub is_same_request : Bytes → Bytes → Bytes → Bool
is_same_request req_key req_host payload =
    bytes_eq (request_key payload) req_key && not (is_other_host req_host (http_host payload))

-- What a recorded event contributes: whether it is a read, not served, with the same request.
unfoldable pub is_match : (ℕ → Bool) → Bytes → Bytes → ℕ → IoEvent → Option Bool
is_match consumed req_key req_host i evt =
    if consumed i
    then some false
    else if not (evt.is_write == 0)
    then some false
    else payload_of evt >>= λ payload. some (is_same_request req_key req_host payload)

-- The outer loop, on the events from `i` on.
unfoldable pub find_response :
    (ℕ → Bool) → Bytes → Bytes → ℕ → List IoEvent → Option (Option (ℕ × Bytes))
find_response consumed req_key req_host i [] = some none
find_response consumed req_key req_host i (evt ∷ evts) =
    let rest = find_response consumed req_key req_host (suc i) evts in
    is_match consumed req_key req_host i evt >>= λ same.
    if not same
    then rest
    else next_response consumed (suc i) evts >>= λ found. elim found [
      | none ↦ rest
      | some r ↦ some (some r)
    ]

-- `fallbackFrom`, from the cursor on.
unfoldable pub fallback_from : MultiServer → Option (Option (ℕ × Bytes))
fallback_from m = next_response m.consumed m.cursor (drop m.cursor m.events)

-- The check of the listener's host: `strings.Split(hostFilter, ":")[0]` against the request's host.
unfoldable pub is_refused_host : Bytes → Bytes → Bool
is_refused_host [] req_host = false
is_refused_host (c ∷ host_filter) [] = false
is_refused_host (c ∷ host_filter) (d ∷ req_host) =
    let filter_host = before_byte (c ∷ host_filter) b':' in
    not (equal_fold (d ∷ req_host) filter_host) && not (has_prefix (d ∷ req_host) filter_host)

-- The search without the lock.
unfoldable pub search_response : MultiServer → Bytes → Option (Option (ℕ × Bytes))
search_response m request = elim (request_key request) [
  | [] ↦ fallback_from m
  | c ∷ k ↦ find_response m.consumed (c ∷ k) (http_host request) m.cursor (drop m.cursor m.events)
]

-- A response that is served is consumed.
unfoldable pub serve : MultiServer → Option (ℕ × Bytes) → MultiServer × Option Bytes
serve m none = (m, none)
serve m (some (j, out)) = (record m { consumed = consume m.consumed j }, some out)

-- `if m.cursorFn != nil { m.SetCursor(m.cursorFn()) }`
unfoldable pub follow : MultiServer → Option ℕ → MultiServer
follow m none = m
follow m (some index) = set_cursor m index

-- `matchResponse`: `session_cursor` is what `cursorFn` returns, `none` if there is no such function.
-- The result `none` is a panic.
unfoldable pub match_response :
    MultiServer → Option ℕ → Bytes → Bytes → Option (MultiServer × Option Bytes)
match_response m session_cursor request host_filter =
    let m' = follow m session_cursor in
    if is_refused_host host_filter (http_host request)
    then some (m', none)
    else search_response m' request >>= λ found. some (serve m' found)
