-- ===== src/Inspector/Tap.antt =====
-- `AttachTap` of pkg/captureattach/attach_tap.go with its wrappers in server_tap.go and network_tap.go: it turns
-- the messages of a debug session into events.
pub mod Events
pub mod Setup
use bug_it.Base.{
  ℕ, ℤ, pos, negsuc, ◌+◌, ◌%◌, ◌^◌, Bool, true, false, ◌||◌, List, [], ◌∷◌, ◌++◌, Option, none,
  some, leb, ltb_ℤ, eq_ℤ, if◌then◌else◌,
}
use bug_it.Text.{Bytes, codes, crlf, bytes_eq}
use bug_it.IoEvent.{IoEvent}
use bug_it.Capture.{cut_payload, truncate_comm, fill_event, outbound_url_path}
use bug_it.LocalCapture.{format_int}
use bug_it.Inspector.{BackendInspector, is_empty_text}
use bug_it.Inspector.Json.{
  Fields, get_text, get_bool, get_number, get_object, text_or_empty, object_or_empty,
}

-- Its session and its sink are arguments of the operations that use them.
pub record AttachTap : Type 0 where
  pub comm : Bytes
  pub target : BackendInspector
  pub next_fd : ℕ
  pub inbound_count : ℕ
  pub ping_seen : Bool

-- The event that is handed to the sink; the counter is an `int64` whose low 32 bits become the descriptor.
unfoldable pub tap_emit : AttachTap → ℕ → Bytes → ℕ → AttachTap × Option IoEvent
tap_emit t is_write payload now = (
  record t { next_fd = t.next_fd + 1 },
  some (
      fill_event now ((t.next_fd + 1) % 2 ^ 32) is_write (cut_payload payload)
        (truncate_comm t.comm)),
)

-- The text that the injected hook hands to the binding, once it is decoded.
pub record BindingMessage : Type 0 where
  pub dir : ℤ
  pub payload : Bytes
  pub ping : Bool

-- `isWrite`, which is 1 for direction 1 alone.
unfoldable pub write_flag : ℤ → ℕ
write_flag dir = if eq_ℤ dir (pos 1) then 1 else 0

-- `handleBindingCalled` behind the decoder.
unfoldable pub handle_binding : AttachTap → Option BindingMessage → ℕ → AttachTap × Option IoEvent
handle_binding t none now = (t, none)
handle_binding t (some msg) now =
    if msg.ping
    then (record t { ping_seen = true }, none)
    else if is_empty_text msg.payload
    then (t, none)
    else tap_emit (record t { inbound_count = t.inbound_count + 1 }) (write_flag msg.dir)
        msg.payload now

-- `ParseBindingMessage` behind the decoder.
unfoldable pub parse_binding_message : Option BindingMessage → ℕ × Bytes × Bool
parse_binding_message none = (0, [], false)
parse_binding_message (some msg) =
    if is_empty_text msg.payload then (0, [], false) else (write_flag msg.dir, msg.payload, true)

unfoldable pub request_text : Bytes → Bytes → Bytes
request_text method path =
    method ++ b' ' ∷ path ++ codes " HTTP/1.1" ++ crlf ++ codes "Host: localhost" ++ crlf ++ crlf

-- `handleOutboundRequest` behind the assertion on `params["request"]`.
unfoldable pub emit_request : AttachTap → Option Fields → ℕ → AttachTap × Option IoEvent
emit_request t none now = (t, none)
emit_request t (some req) now =
    let method = text_or_empty req (codes "method") in
    let url = text_or_empty req (codes "url") in
    if is_empty_text method || is_empty_text url
    then (t, none)
    else tap_emit t 1 (request_text method (outbound_url_path url)) now

unfoldable pub handle_outbound_request : AttachTap → Fields → ℕ → AttachTap × Option IoEvent
handle_outbound_request t params now = emit_request t (get_object params (codes "request")) now

abbrev or_zero : Option ℤ → ℤ
or_zero none = pos 0
or_zero (some n) = n

unfoldable pub response_text : ℤ → Bytes → Bytes → Bytes
response_text status text url =
    codes "HTTP/1.1 "
    ++ format_int status
    ++ b' ' ∷ text
    ++ crlf
    ++ codes "X-BugIT-URL: "
    ++ url
    ++ crlf
    ++ crlf

abbrev pub prepend : Option IoEvent → List IoEvent → List IoEvent
prepend none evts = evts
prepend (some evt) evts = evt ∷ evts

-- The decoder of the binding's texts and `http.StatusText`.
module _ (unmarshal : Bytes → Option BindingMessage) (status_text : ℤ → Bytes) where
  unfoldable pub handle_binding_called : AttachTap → Fields → ℕ → AttachTap × Option IoEvent
  handle_binding_called t params now =
      let payload_str = text_or_empty params (codes "payload") in
      if is_empty_text payload_str then (t, none) else handle_binding t (unmarshal payload_str) now

  unfoldable pub http_status_text : ℤ → Bytes
  http_status_text code =
      let text = status_text code in if is_empty_text text then codes "Unknown" else text

  -- `handleOutboundResponse` behind the assertion on `params["response"]`.
  unfoldable pub emit_response : AttachTap → Option Fields → ℕ → AttachTap × Option IoEvent
  emit_response t none now = (t, none)
  emit_response t (some resp) now =
      let status = or_zero (get_number resp (codes "status")) in
      let given = text_or_empty resp (codes "statusText") in
      let url = text_or_empty resp (codes "url") in
      let text = if is_empty_text given then http_status_text status else given in
      tap_emit t 0 (response_text status text url) now

  unfoldable pub handle_outbound_response : AttachTap → Fields → ℕ → AttachTap × Option IoEvent
  handle_outbound_response t params now = emit_response t (get_object params (codes "response")) now

  -- The handlers of `registerHandlers`, by the method of the message.
  unfoldable pub handle_method : AttachTap → Bytes → Fields → ℕ → AttachTap × Option IoEvent
  handle_method t method params now =
      if bytes_eq method (codes "Network.requestWillBeSent")
      then handle_outbound_request t params now
      else if bytes_eq method (codes "Network.responseReceived")
      then handle_outbound_response t params now
      else if bytes_eq method (codes "Runtime.bindingCalled")
      then handle_binding_called t params now
      else (t, none)

  -- The messages one after the other, each with the time of its handling.
  unfoldable pub handle_methods : AttachTap → List (Bytes × Fields × ℕ) → AttachTap × List IoEvent
  handle_methods t [] = (t, [])
  handle_methods t ((method, params, now) ∷ msgs) =
      let first = handle_method t method params now in
      let rest = handle_methods first.0 msgs in (rest.0, prepend first.1 rest.1)

-- `InboundCount` of the wrappers, which have no tap before they are started.
unfoldable pub wrapped_count : Option AttachTap → ℕ
wrapped_count none = 0
wrapped_count (some t) = t.inbound_count
