-- ===== src/Agent.antt =====
-- dre-agent/internal/forward/grpc_client.go: what the agent does to an event before it sends it.
pub mod Forward
use bug_it.Base.{
  ℕ, ◌+◌, ◌%◌, ◌^◌, Bool, true, false, not, ◌||◌, List, Option, none, some, ◌==◌, if◌then◌else◌,
  ◌>>=◌, length, copy,
}
use bug_it.Text.{Bytes}
use bug_it.IoEvent.{IoEvent, payload_of}
use bug_it.IoEvent.Wire.{Message, io_event_from_native}
use bug_it.VectorClock
use bug_it.VectorClock.{Clock, maybe_inject_http}

-- The client's node and its clock, which is never nil.
pub record Client : Type 0 where
  pub node_id : Bytes
  pub vec : Clock

-- `New`
unfoldable pub new : Bytes → Client
unfolding VectorClock.new
new node_id = record { node_id = node_id; vec = VectorClock.new }

-- The engine that comes back from a call with one.
unfoldable pub keep_clock : Clock → Option Clock → Clock
keep_clock old none = old
keep_clock old (some e) = e

-- The event with the header in its payload. A header that adds nothing leaves the event alone.
unfoldable pub with_payload : IoEvent → Bytes → Bytes → IoEvent
with_payload evt pl updated =
    if length updated == length pl
    then evt
    else record evt { payload_len = length updated % 2 ^ 32; payload = copy evt.payload updated }

-- `injectVector`; `none` is a panic.
unfoldable pub inject_vector : Client → IoEvent → Option (IoEvent × Client)
inject_vector c evt = if not (evt.is_write == 1) || evt.payload_len == 0 then some (evt, c) else do
  pl ← payload_of evt
  let r = maybe_inject_http pl c.node_id (some c.vec)
  some (with_payload evt pl r.0, record c { vec = keep_clock c.vec r.1 })

-- The message that `SendEvent` and `runStream` put on the stream.
unfoldable pub message_of : Client → IoEvent → Option (Message × Client)
message_of c evt = do
  (sent, c') ← inject_vector c evt
  some (io_event_from_native sent c.node_id, c')
