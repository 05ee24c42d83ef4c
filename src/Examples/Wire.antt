-- ===== src/Examples/Wire.antt =====
-- Records, messages and headers on concrete inputs.
use bug_it.Base.{◌≤◌, ◌≡◌, refl, List, [], ◌∷◌, ◌++◌, some, arith, length, ap, replicate, true}
use bug_it.Text.{Bytes, codes, crlf, bytes_eq, has_prefix}
use bug_it.Text.Decimal.{format}
use bug_it.Text.Search.{index}
use bug_it.IoEvent.{IoEvent, IsBounded, ok, payload_of, max_payload_len}
use bug_it.IoEvent.Stream.{encode_events, decode_events, decode_events-encode_events}
use bug_it.IoEvent.Wire.{to_native, io_event_from_native, to_native-from_native}
use bug_it.Capture.{fill_event, RecordProxy}
use bug_it.VectorClock
use bug_it.VectorClock.{
  splice, maybe_inject_http, is_http_start, inject_header, increment, clock_text, header_line,
}
use bug_it.Agent
use bug_it.Agent.{Client, message_of, inject_vector}
use bug_it.Agent.Forward.{updated, inject_vector_overflow}
use bug_it.Examples.{
  sample, get_request, response, sample-IsTyped, sample-IsBounded, sample_content,
}

abbrev two_events : List IoEvent
two_events = sample 0 get_request ∷ sample 1 response ∷ []

decode_events-encode_events_example :
    decode_events (encode_events two_events) ≡ some (ok two_events)
decode_events-encode_events_example = decode_events-encode_events two_events (
  sample-IsTyped 0 get_request (omega arith) (omega arith),
  (sample-IsTyped 1 response (omega arith) (omega arith), tt),
)

to_native-from_native_example :
    let e' = to_native (some (io_event_from_native (sample 1 response) (codes "node-a"))) in
    (e'.pid_tgid ≡ (sample 1 response).pid_tgid)
    × (e'.timestamp_ns ≡ (sample 1 response).timestamp_ns)
    × (e'.fd ≡ (sample 1 response).fd)
    × (e'.is_write ≡ (sample 1 response).is_write)
    × (e'.comm ≡ (sample 1 response).comm)
    × (payload_of e' ≡ payload_of (sample 1 response))
to_native-from_native_example =
    to_native-from_native (sample 1 response) (codes "node-a")
      (sample-IsTyped 1 response (omega arith) (omega arith))
      (sample-IsBounded 1 response (omega arith) (omega arith))

abbrev recorder : RecordProxy
recorder = record { comm = codes "api"; has_on_event = true; event_index = 4 }

abbrev client : Client
client = Agent.new (codes "node-a")

-- What the client sends of a write, and of one that fills the payload array.
sent :
    (payload : Bytes)
    → length payload ≤ max_payload_len
    → updated client (sample 1 payload)
      ≡ (maybe_inject_http payload (codes "node-a") (some client.vec)).0
unfolding Agent.new
sent payload small =
    ap (λ p. (maybe_inject_http p (codes "node-a") (some client.vec)).0)
      (sample_content 1 payload (omega arith) small)

injected_length : length (maybe_inject_http get_request (codes "node-a") (some client.vec)).0 ≡ 65
unfolding maybe_inject_http Agent.new VectorClock.new is_http_start inject_header increment bytes_eq
    clock_text format header_line splice index has_prefix
injected_length = refl

-- A request that fills the array up to four bytes.
big : Bytes
unfolding replicate
big = codes "GET /" ++ replicate 2035 b'a' ++ crlf ++ crlf

big-length : length (maybe_inject_http big (codes "node-a") (some client.vec)).0 ≡ 2074
unfolding big replicate maybe_inject_http Agent.new VectorClock.new is_http_start inject_header
    increment bytes_eq clock_text format header_line splice index has_prefix
big-length = refl

big_fits : length big ≤ max_payload_len
unfolding big replicate
big_fits = omega arith

inject_vector_overflow_example :
    (evt' : IoEvent) × (c' : Client) × (inject_vector client (sample 1 big) ≡ some (evt', c'))
    × ¬ IsBounded evt'
inject_vector_overflow_example =
    inject_vector_overflow client (sample 1 big) (sample-IsTyped 1 big (omega arith) big_fits)
      (sample-IsBounded 1 big (omega arith) big_fits) (unfold fill_event in refl)
      (unfold fill_event big replicate in λ e. omega arith)
      (omega (arith, ap length (sent big big_fits), big-length))
      (omega (arith, ap length (sent big big_fits), big-length))
