-- ===== src/Collector/Ingest.antt =====
-- dre-collector/internal/ingest/ingest.go: an event goes to the graph, the buffer and the triggers, in
-- this order. The two calls of `time.Now` below it are arguments; `none` is a panic.
pub mod Header
pub mod Total
pub mod Dangling
use bug_it.Base.{
  ℕ, ◌+◌, Bool, true, false, not, List, [], ◌∷◌, ◌++◌, Option, none, some, ◌==◌, if◌then◌else◌,
  ◌>>=◌, length, take, drop,
}
use bug_it.Text.{Bytes, crlf}
use bug_it.Text.Search.{index}
use bug_it.IoEvent.{IoEvent, payload_of}
use bug_it.IoEvent.Wire.{Message, to_native}
use bug_it.VectorClock.{header_name}
use bug_it.Collector.Vector
use bug_it.Collector.Vector.{observe, parse_header, merge_remote}
use bug_it.Collector.Buffer
use bug_it.Collector.Buffer.{RollingBuffer, add}
use bug_it.Collector.Trigger
use bug_it.Collector.Trigger.{Trigger, evaluate}

pub record Service : Type 0 where
  pub buf : RollingBuffer
  pub triggers : Trigger.Engine
  pub vector : Vector.Engine

-- The header's name with the colon and the space behind it.
abbrev pub header_key : Bytes
header_key = header_name ++ b':' ∷ b' ' ∷ []

-- The value of the first header line in a payload, if its line ends.
unfoldable pub header_value : Bytes → Option Bytes
header_value payload = do
  idx ← index payload header_key
  let rest = drop (idx + length header_key) payload
  end ← index rest crlf
  some (take end rest)

-- The node and the number that the header names.
unfoldable pub read_header : Bytes → Option (Bytes × ℕ)
read_header payload = do value ← header_value payload; parse_header value

-- The header that was read, if there is one, is merged.
abbrev pub merge_read : Vector.Engine → Bytes → Option (Bytes × ℕ) → Vector.Engine
merge_read v local_node none = v
merge_read v local_node (some (remote_node, seq)) = merge_remote v remote_node seq local_node

-- What `parseVectorHeader` does with the payload of a read.
unfoldable pub merge_header : Vector.Engine → Bytes → Bytes → Vector.Engine
merge_header v payload local_node = merge_read v local_node (read_header payload)

-- `parseVectorHeader`
unfoldable pub parse_vector_header : Vector.Engine → IoEvent → Bytes → Option Vector.Engine
parse_vector_header v evt local_node =
    if not (evt.is_write == 0)
    then some v
    else do payload ← payload_of evt; some (merge_header v payload local_node)

-- `ingestEvent`: the service afterwards, and the snapshot that the event triggers.
unfoldable pub ingest_event : Service → IoEvent → Bytes → ℕ → ℕ → Option (Service × Option Trigger)
ingest_event s evt node now later = do
  merged ← parse_vector_header s.vector evt node
  let buf = add s.buf evt node now
  let vector = observe merged node evt
  (triggers, fired) ← evaluate s.triggers evt node later
  some (record { buf = buf; triggers = triggers; vector = vector }, fired)

-- What `Recv` gives, with the times at which the event is handled.
pub data Received : Type 0 where
  message : Message → ℕ → ℕ → Received
  eof : Received
  failure : Received

pub data StreamEnd : Type 0 where
  closed failed pending : StreamEnd

-- `StreamEvents`: the loop ends at the end of the stream or at an error. `pending`: the stream is still open.
unfoldable pub stream_events :
    Service → List Received → List Trigger → Option (Service × List Trigger × StreamEnd)
stream_events s [] fired = some (s, fired, pending)
stream_events s (eof ∷ rest) fired = some (s, fired, closed)
stream_events s (failure ∷ rest) fired = some (s, fired, failed)
stream_events s (message m now later ∷ rest) fired =
    ingest_event s (to_native (some m)) m.node_id now later >>= λ r.
    stream_events r.0 rest (elim r.1 [ none ↦ fired | some t ↦ fired ++ t ∷ [] ])
