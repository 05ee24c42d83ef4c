-- ===== src/Examples/Replaying.antt =====
-- The replay on concrete inputs.
use bug_it.Base.{
  ℕ, pos, negsuc, ◌≤◌, ◌<◌, ◌≡◌, ◌≢◌, refl, List, [], ◌∷◌, ◌++◌, none, some, arith, length, All,
  true, false, ◌>>=◌,
}
use bug_it.Text.{Bytes, codes, crlf, bytes_eq, to_upper}
use bug_it.Text.Search.{before_byte}
use bug_it.Text.Trim.{fields, trim_space, trim_left, trim_right}
use bug_it.IoEvent.{IoEvent, IsBounded}
use bug_it.Capture.{RecordProxy, record_request, record_response}
use bug_it.Replay.Keys.{
  request_key, match_grpc_unary, first_line, grpc_unary_of, grpc_request_key, http_request_key,
  http_key_of,
}
use bug_it.Replay.Multi.{MultiServer, new_multi, search_response, is_match, is_free_response}
use bug_it.Replay.Multi.Recorded.{record-unmatched}
use bug_it.Replay.Single
use bug_it.Replay.Single.Reuse.{payload_part, match_response-search_response}
use bug_it.Replay.TimeFreeze.{ClockEntry}
use bug_it.Replay.Session
use bug_it.Replay.Session.{Session, start, seek, step}
use bug_it.Replay.Session.Cursor.{IsSynced, seek_back_frees}
use bug_it.Replay.Debugger.{seek_to, run_to_event}
use bug_it.Replay.Debugger.Dispatch.{after, requests-IsSynced}
use bug_it.Examples.{sample, get_request, response, server_failure, sample-IsBounded}

abbrev recording : List IoEvent
recording = sample 0 get_request ∷ sample 1 response ∷ sample 1 server_failure ∷ []

abbrev server : MultiServer
server = record { events = recording; cursor = 0; consumed = λ _. false }

recording-IsBounded : All IsBounded recording
recording-IsBounded = (
  sample-IsBounded 0 get_request (omega arith) (omega arith),
  (
    sample-IsBounded 1 response (omega arith) (omega arith),
    (sample-IsBounded 1 server_failure (omega arith) (omega arith), tt),
  ),
)

abbrev session : Session
session = record {
  events = recording;
  cursor = 2;
  breakpoints = λ _. false;
  proxy_srv = some (record server { cursor = 2; consumed = λ _. true });
  time_eng = none;
}

session-IsSynced : IsSynced session
session-IsSynced = record { in_range = omega arith; followed = (refl, refl) }

seek_back_frees_example :
    (m' : MultiServer) × ((seek session (pos 1)).proxy_srv ≡ some m')
    × ((i : ℕ) → 1 ≤ i → i < length recording → m'.consumed i ≡ false)
    × ((i : ℕ) → i < 1 → m'.consumed i ≡ true)
seek_back_frees_example =
    seek_back_frees session 1 (record server { cursor = 2; consumed = λ _. true }) session-IsSynced
      refl (omega arith)

abbrev timeline : List ClockEntry
timeline =
    record { index = pos 0; timestamp_ns = 50 } ∷ record { index = pos 2; timestamp_ns = 90 } ∷ []

requests-IsSynced_example : IsSynced (
    after
      (start (Session.new recording) timeline true 0)
      ((run_to_event, pos 0, false) ∷ (seek_to, negsuc 3, false) ∷ []))
requests-IsSynced_example =
    requests-IsSynced recording timeline true 0
      ((run_to_event, pos 0, false) ∷ (seek_to, negsuc 3, false) ∷ [])

abbrev call : Bytes
call = codes "POST /shop.Cart/Add HTTP/1.1" ++ crlf ++ crlf

get_keyed : request_key get_request ≢ []
get_keyed =
    unfold request_key grpc_request_key match_grpc_unary grpc_unary_of first_line fields trim_space
      trim_left trim_right before_byte bytes_eq http_request_key http_key_of to_upper in
    λ e. cc

abbrev single : Single.Server
single = record { events = recording; seq = 0 }

match_response-search_response_example : Single.match_response single get_request ≡ (
    payload_part (search_response (new_multi recording) get_request) >>= λ out. some (single, out))
match_response-search_response_example = match_response-search_response single get_request get_keyed

abbrev recorder : RecordProxy
recorder = record { comm = codes "api"; has_on_event = true; event_index = 4 }

record-unmatched_example :
    (((record_request recorder get_request 7000).1 ≡ some (sample 1 get_request))
      → is_match (λ _. false) (codes "GET /items") [] 0 (sample 1 get_request) ≡ some false)
    × (((record_response recorder get_request 7000).1 ≡ some (sample 1 get_request))
        → is_free_response (λ _. false) 0 (sample 1 get_request) ≡ false)
record-unmatched_example =
    record-unmatched recorder get_request 7000 (λ _. false) (codes "GET /items") [] 0
      (sample 1 get_request)
