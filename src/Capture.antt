-- ===== src/Capture.antt =====
-- The recorders of local capture: pkg/recordproxy/proxy.go, pkg/captureattach/attach_tap.go and the ingest
-- handler of dre-collector/internal/server/server.go all fill an event in the same way.
pub mod Fill
pub mod Outbound
use bug_it.Base.{
  ℕ, ◌+◌, ◌-◌, ◌%◌, ◌^◌, Bool, true, false, List, [], ◌∷◌, ◌++◌, Option, none, some, ltb, leb, ◌==◌,
  if◌then◌else◌, length, take, copy, drop, ◌||◌,
}
use bug_it.Text.{Bytes, codes, has_prefix}
use bug_it.Text.Search.{index, index_byte}
use bug_it.IoEvent.{max_payload_len, comm_len, IoEvent, zeros}

-- `if len(payload) > MaxPayloadLen { payload = payload[:MaxPayloadLen] }`
unfoldable pub cut_payload : Bytes → Bytes
cut_payload payload =
    if ltb max_payload_len (length payload) then take max_payload_len payload else payload

-- `truncateComm`
unfoldable pub truncate_comm : Bytes → Bytes
truncate_comm name = if leb (length name) comm_len then name else take comm_len name

-- The fields that the recorders set in a zero event.
unfoldable pub fill_event : ℕ → ℕ → ℕ → Bytes → Bytes → IoEvent
fill_event now fd is_write payload comm = record {
  pid_tgid = 0;
  timestamp_ns = now % 2 ^ 64;
  fd = fd;
  payload_len = length payload % 2 ^ 32;
  is_write = is_write;
  comm = copy (zeros comm_len) comm;
  payload = copy (zeros max_payload_len) payload;
}

-- `recordproxy.Server`, as far as `emit` uses it: the callback is there or is nil.
pub record RecordProxy : Type 0 where
  pub comm : Bytes
  pub has_on_event : Bool
  pub event_index : ℕ

-- `Server.emit`; the counter is an `int64` whose low 32 bits become the descriptor.
unfoldable pub emit : RecordProxy → ℕ → Bytes → ℕ → RecordProxy × Option IoEvent
emit s is_write payload now =
    if s.has_on_event
    then (
      record s { event_index = s.event_index + 1 },
      some (
          fill_event now ((s.event_index + 1) % 2 ^ 32) is_write (cut_payload payload)
            (truncate_comm s.comm)),
    )
    else (s, none)

-- `recordRequest` and `recordResponse`, on the bytes of the message.
unfoldable pub record_request : RecordProxy → Bytes → ℕ → RecordProxy × Option IoEvent
record_request s wire now = emit s 1 wire now

unfoldable pub record_response : RecordProxy → Bytes → ℕ → RecordProxy × Option IoEvent
record_response s wire now = emit s 0 wire now

-- The path behind the host, or `/`.
unfoldable pub path_behind : Bytes → Bytes
path_behind rest = elim (index_byte rest b'/') [ none ↦ codes "/" | some j ↦ drop j rest ]

-- `outboundURLPath` of the attach tap.
unfoldable pub outbound_url_path : Bytes → Bytes
outbound_url_path url =
    if has_prefix url (codes "http://") || has_prefix url (codes "https://")
    then elim (index url (codes "://")) [ none ↦ url | some i ↦ path_behind (drop (i + 3) url) ]
    else url
