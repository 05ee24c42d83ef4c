-- ===== src/Capture/Outbound.antt =====
-- The forward proxy of the outgoing requests: `OutboundProxy` of pkg/recordproxy/proxy.go.
use bug_it.Base.{
  ℕ, ◌%◌, ◌^◌, ◌≡◌, refl, ap, ◌∙◌, ◌⊎◌, inl, inr, Bool, true, false, List, [], ◌∷◌, ◌++◌, map,
  Option, none, some, if◌then◌else◌,
}
use bug_it.Text.{Bytes, codes, crlf}
use bug_it.IoEvent.{IoEvent}
use bug_it.Capture.{cut_payload, truncate_comm, fill_event}

-- `OutboundProxy`, as far as it keeps a state: the callback is there or is nil.
pub record OutboundProxy : Type 0 where
  pub comm : Bytes
  pub has_on_event : Bool

-- `OutboundProxy.emit`, which reads the clock twice.
unfoldable pub emit_outbound : OutboundProxy → ℕ → Bytes → ℕ × ℕ → List IoEvent
emit_outbound p is_write payload (now, later) =
    if p.has_on_event
    then fill_event now (later % 1000000 % 2 ^ 32) is_write (cut_payload payload)
        (truncate_comm p.comm)
      ∷ []
    else []

-- The answer of the server behind, as the transport returns it: `wire` is what `Response.Write` makes of the clone
-- with a body.
pub record Response : Type 0 where
  pub status : ℕ
  pub headers : List (Bytes × List Bytes)
  pub wire : Bytes → Bytes

-- What the outside does with a request that is passed on: the error texts, or the response and its body.
pub data Passed : Type 0 where
  no_request : Bytes → Passed
  no_response : Bytes → Passed
  no_body : Bytes → Response → Passed
  responded : Response → Bytes → Passed

-- What the client gets.
pub record Reply : Type 0 where
  pub status : ℕ
  pub headers : List (Bytes × Bytes)
  pub body : Bytes

-- `http.Error`, with the headers it sets and a line feed behind the text.
abbrev pub http_error : Bytes → ℕ → Reply
http_error text status = record {
  status = status;
  headers =
      (codes "Content-Type", codes "text/plain; charset=utf-8")
      ∷ (codes "X-Content-Type-Options", codes "nosniff")
      ∷ [];
  body = text ++ 10 ∷ [];
}

-- The headers that are added, one for each value.
unfoldable pub flat_headers : List (Bytes × List Bytes) → List (Bytes × Bytes)
flat_headers [] = []
flat_headers ((key, values) ∷ rest) = map (λ v. (key, v)) values ++ flat_headers rest

-- What follows the first `emit` of `handleHTTP`.
unfoldable pub pass_on : OutboundProxy → Bool → Passed → ℕ × ℕ → List IoEvent × Reply
pass_on p false passed clock = ([], http_error (codes "absolute URL required") 400)
pass_on p true (no_request err) clock = ([], http_error err 502)
pass_on p true (no_response err) clock = ([], http_error err 502)
pass_on p true (no_body err resp) clock = ([], http_error err 502)
pass_on p true (responded resp body) clock = (
  emit_outbound p 0 (resp.wire body) clock,
  record { status = resp.status; headers = flat_headers resp.headers; body = body },
)

-- The body of a request; the server gives a request without one the empty body.
pub data RequestBody : Type 0 where
  empty_body : RequestBody
  held : Bytes → RequestBody
  closed : RequestBody

-- `Request.Write` reads the body to its end and closes it, which does nothing to the empty body.
unfoldable pub written_out : RequestBody → RequestBody
written_out empty_body = empty_body
written_out (held body) = closed
written_out closed = closed

-- `handleHTTP`: `wire` is what `Request.Write` makes of the request, `is_absolute` tells whether its URL is, and
-- `transport` is what becomes of the request that is sent with a body.
unfoldable pub handle_http :
    OutboundProxy
    → Bytes
    → RequestBody
    → Bool
    → (RequestBody → Passed)
    → ℕ × ℕ
    → ℕ × ℕ
    → List IoEvent × Reply
handle_http p wire body is_absolute transport clock later =
    let (events, reply) = pass_on p is_absolute (transport (written_out body)) later in
    (emit_outbound p 1 wire clock ++ events, reply)

-- What the outside does with a CONNECT.
pub data Dialled : Type 0 where
  refused : Bytes → Dialled
  no_hijacker : Dialled
  hijack_failed : Bytes → Dialled
  hijacked : Dialled

-- What becomes of a CONNECT: an error, or a tunnel; `is_left_open` is that the connection to the server stays open
-- and nobody holds it.
pub record Tunnelled : Type 0 where
  pub events : List IoEvent
  pub error : Option Reply
  pub to_client : Bytes
  pub is_left_open : Bool

abbrev connect_refused : Bytes → ℕ → Bool → Tunnelled
connect_refused text status is_left_open = record {
  events = [];
  error = some (http_error text status);
  to_client = [];
  is_left_open = is_left_open;
}

-- `handleConnect`, up to the goroutine of `pipe`, which closes both connections.
unfoldable pub handle_connect : OutboundProxy → Bytes → Dialled → ℕ × ℕ → Tunnelled
handle_connect p host (refused err) clock = connect_refused err 502 false
handle_connect p host no_hijacker clock = connect_refused (codes "hijack unsupported") 500 true
handle_connect p host (hijack_failed err) clock = connect_refused err 500 true
handle_connect p host hijacked clock = record {
  events =
      emit_outbound p 1
        (codes "CONNECT "
          ++ host
          ++ codes " HTTP/1.1"
          ++ crlf
          ++ codes "Host: "
          ++ host
          ++ crlf
          ++ crlf)
        clock;
  error = none;
  to_client = codes "HTTP/1.1 200 Connection Established" ++ crlf ++ crlf;
  is_left_open = false;
}

-- What `handleHTTP` records and answers, by what becomes of the request.
abbrev pub IsHandled :
    OutboundProxy → Bytes → Bool → Passed → ℕ × ℕ → ℕ × ℕ → List IoEvent × Reply → Type 0
IsHandled p wire is_absolute passed clock later (events, reply) =
    ((resp : Response) × (body : Bytes) × (passed ≡ responded resp body)
      × (is_absolute ≡ true)
      × (events ≡ emit_outbound p 1 wire clock ++ emit_outbound p 0 (resp.wire body) later)
      × (reply ≡ record { status = resp.status; headers = flat_headers resp.headers; body = body }))
    ⊎ ((events ≡ emit_outbound p 1 wire clock ++ [])
        × ((reply.status ≡ 400) ⊎ (reply.status ≡ 502)))

pass_on-IsHandled :
    (p : OutboundProxy) (wire : Bytes) (is_absolute : Bool) (passed : Passed) (clock later : ℕ × ℕ)
    → IsHandled p wire is_absolute passed clock later (
      emit_outbound p 1 wire clock ++ (pass_on p is_absolute passed later).0,
      (pass_on p is_absolute passed later).1,
    )
unfolding pass_on
pass_on-IsHandled p wire false passed clock later = inr (refl, inl refl)
pass_on-IsHandled p wire true (no_request err) clock later = inr (refl, inr refl)
pass_on-IsHandled p wire true (no_response err) clock later = inr (refl, inr refl)
pass_on-IsHandled p wire true (no_body err resp) clock later = inr (refl, inr refl)
pass_on-IsHandled p wire true (responded resp body) clock later =
    inl (resp, body, refl, refl, refl, refl)

-- Every request is recorded first. Either the URL is absolute and the server behind answers: then the client gets its
-- status, headers and body, and the answer is recorded behind the request; or the client gets an
-- error of the proxy, 400 or 502, and nothing more is recorded.
pub handle_http-IsHandled :
    (p : OutboundProxy) (wire : Bytes) (body : RequestBody) (is_absolute : Bool)
    (transport : RequestBody → Passed) (clock later : ℕ × ℕ)
    → IsHandled p wire is_absolute
        (transport (written_out body))
        clock
        later
        (handle_http p wire body is_absolute transport clock later)
unfolding handle_http
handle_http-IsHandled p wire body is_absolute transport clock later =
    pass_on-IsHandled p wire is_absolute (transport (written_out body)) clock later

-- Recording a request uses up its body: where the transport fails to read a closed body, a request with a body and an
-- absolute URL is recorded and answered with 502, whatever the server behind would have answered.
pub handle_http-closed :
    (p : OutboundProxy) (wire content : Bytes) (transport : RequestBody → Passed)
    (clock later : ℕ × ℕ) {err : Bytes}
    → transport closed ≡ no_response err
    → handle_http p wire (held content) true transport clock later
      ≡ (emit_outbound p 1 wire clock ++ [], http_error err 502)
unfolding handle_http written_out
handle_http-closed p wire content transport clock later {err} fails =
    ap
      (λ passed. (
        emit_outbound p 1 wire clock ++ (pass_on p true passed later).0,
        (pass_on p true passed later).1,
      ))
      fails
    ∙ (unfold pass_on in refl)
