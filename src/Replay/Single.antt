-- ===== src/Replay/Single.antt =====
-- dre-replay-cli/internal/proxy/proxy.go: the proxy of one listener, which may give an answer many times.
pub mod Reuse
use bug_it.Base.{
  ℕ, suc, ◌+◌, Bool, true, false, not, ◌&&◌, List, [], ◌∷◌, Option, none, some, ◌==◌, if◌then◌else◌,
  ◌>>=◌, drop,
}
use bug_it.Text.{Bytes, bytes_eq}
use bug_it.IoEvent.{IoEvent, payload_of}
use bug_it.Replay.Keys.{request_key, http_host, is_http_keep_alive}
use bug_it.Replay.Multi.{is_other_host}

-- The events, and where the answers without a key go on.
pub record Server : Type 0 where
  pub events : List IoEvent
  pub seq : ℕ

-- `New`
unfoldable pub new : List IoEvent → Server
new events = record { events = events; seq = 0 }

abbrev pub is_response : IoEvent → Bool
is_response evt = evt.is_write == 1 && not (evt.payload_len == 0)

-- The inner loop: the payload of the first response. The outer `none` is a panic.
unfoldable pub first_response : List IoEvent → Option (Option Bytes)
first_response [] = some none
first_response (evt ∷ evts) =
    if is_response evt then (payload_of evt >>= λ out. some (some out)) else first_response evts

-- A recorded request with the key, on the same host where both have one.
unfoldable pub is_request : Bytes → Bytes → IoEvent → Option Bool
is_request req_key req_host evt =
    if not (evt.is_write == 0)
    then some false
    else payload_of evt >>= λ payload.
        some (
          bytes_eq (request_key payload) req_key
          && not (is_other_host req_host (http_host payload)))

-- The outer loop.
unfoldable pub find_answer : Bytes → Bytes → List IoEvent → Option (Option Bytes)
find_answer req_key req_host [] = some none
find_answer req_key req_host (evt ∷ evts) =
    let rest = find_answer req_key req_host evts in
    is_request req_key req_host evt >>= λ same.
    if not same
    then rest
    else first_response evts >>= λ found. elim found [ none ↦ rest | some out ↦ some (some out) ]

-- `fallbackSequential`, on the events from `i` on: the place behind the response, and its payload.
unfoldable pub next_from : ℕ → List IoEvent → Option (Option (ℕ × Bytes))
next_from i [] = some none
next_from i (evt ∷ evts) =
    if is_response evt
    then (payload_of evt >>= λ out. some (some (suc i, out)))
    else next_from (suc i) evts

unfoldable pub fallback_sequential : Server → Option (Server × Option Bytes)
fallback_sequential s = do
  found ← next_from s.seq (drop s.seq s.events)
  elim found [ none ↦ some (s, none) | some (seq, out) ↦ some (record s { seq = seq }, some out) ]

-- `matchResponse`; the result `none` is a panic.
unfoldable pub match_response : Server → Bytes → Option (Server × Option Bytes)
match_response s request = elim (request_key request) [
  | [] ↦ fallback_sequential s
  | c ∷ k ↦ find_answer (c ∷ k) (http_host request) s.events >>= λ out. some (s, out)
]

-- The loop of `handle` over the requests that arrive on a connection: the answers that are written.
unfoldable pub handle : Server → List Bytes → Option (Server × List Bytes)
handle s [] = some (s, [])
handle s (request ∷ requests) = do
  (s', resp) ← match_response s request
  elim resp [
    | none ↦ some (s', [])
    | some out ↦
        if not (is_http_keep_alive request)
        then some (s', out ∷ [])
        else handle s' requests >>= λ (s'', outs). some (s'', out ∷ outs)
  ]
