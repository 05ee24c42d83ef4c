-- ===== src/Inspector/Session.antt =====
-- `CDPSession` of pkg/captureattach/cdp_session.go: any number of goroutines in `Call`, the goroutine of
-- `pump`, and those that call `Close`. They share the session's fields; a step is one access to them.
pub mod Turns
pub mod Places
pub mod Invariant
pub mod Safety
pub mod Progress
use bug_it.Base.{
  ℕ, suc, ℤ, pos, negsuc, ◌^◌, ◌<◌, ◌≡◌, Bool, true, false, List, [], ◌∷◌, ◌++◌, Option, none, some,
  ◌==◌, if◌then◌else◌,
}
use bug_it.Text.{Bytes, codes, bytes_eq}
use bug_it.Inspector.Json.{
  Fields, no_fields, get_number, get_object, text_or_empty, object_or_empty,
}

-- What `Call` writes: the number, the method and the parameters, where there are any.
pub record Request : Type 0 where
  pub id : ℕ
  pub method : Bytes
  pub params : Option Fields

pub data CdpError : Type 0 where
  session_closed : CdpError
  send_failed : CdpError
  cdp_error : Fields → CdpError
  context_done : CdpError

-- What the `select` of `Call` ends with.
pub data Received : Type 0 where
  message : Fields → Received
  failed : CdpError → Received

pub data CallResult : Type 0 where
  result : Fields → CallResult
  error : CdpError → CallResult

-- The result that `Call` makes of the message it receives.
unfoldable pub result_of : Fields → CallResult
result_of resp = elim (get_object resp (codes "error")) [
  | some err ↦ error (cdp_error err)
  | none ↦ elim (get_object resp (codes "result")) [ some m ↦ result m | none ↦ result no_fields ]
]

unfoldable pub call_result : Received → CallResult
call_result (message resp) = result_of resp
call_result (failed e) = error e

-- The fields of the session. A channel in `pending` holds one message at most; it stays in `channels`
-- when its number is deleted, since `pump` may have loaded it. `sent` and `handled` record what was written
-- to the connection and which handlers ran; `closing` says that a goroutine of `Close` has set `closed` and
-- has yet to drop the connection.
pub record Shared : Type 0 where
  pub has_conn : Bool
  pub closed : Bool
  pub closing : Bool
  pub next_id : ℕ
  pub pending : ℕ → Bool
  pub channels : ℕ → Option Fields
  pub handlers : Bytes → Bool
  pub sent : List Request
  pub handled : List (Bytes × Fields)

unfoldable pub update {ℓ} : {A : Type ℓ} → (ℕ → A) → ℕ → A → ℕ → A
update f i a j = if i == j then a else f j

-- Where a goroutine in `Call` stands.
pub data Caller : Type 0 where
  idle : Caller
  open_seen : Bytes → Option Fields → Caller  -- behind `closed.Load`
  numbered : ℕ → Bytes → Option Fields → Caller  -- behind `nextID.Add`
  stored : ℕ → Bytes → Option Fields → Caller  -- behind `pending.Store`
  waiting : ℕ → Caller  -- in the `select`
  leaving : ℕ → Received → Caller  -- before the deferred `pending.Delete`
  returned : CallResult → Caller
  crashed : Caller  -- the nil connection was used

-- Where the goroutine of `pump` stands.
pub data Pump : Type 0 where
  checking : Pump  -- head of the loop
  passed : Pump  -- behind `closed.Load`
  reading : Pump  -- in `Receive`, with a connection that was not nil
  holding : Fields → Pump
  delivering : ℕ → Fields → Pump  -- before `ch <- msg`
  failing : Pump  -- before `s.Close()`
  ended : Pump
  panicked : Pump  -- the nil connection was used

-- `On`, which replaces an earlier handler of the method.
unfoldable pub on : Shared → Bytes → Shared
on s method = record s { handlers = λ m. if bytes_eq m method then true else s.handlers m }

-- `int64(msg["id"])`, where the number names a call.
abbrev pub as_id : Option ℤ → Option ℕ
as_id none = none
as_id (some (pos n)) = some n
as_id (some (negsuc n)) = none

unfoldable pub message_id : Fields → Option ℕ
message_id msg = as_id (get_number msg (codes "id"))

-- What `pump` does with a message that it has received: a message with a number is for the channel of
-- that number, if it is pending; another is for the handler of its method.
unfoldable pub dispatch_by : Shared → Fields → Option ℤ → Shared × Pump
dispatch_by s msg (some (pos n)) = (s, if s.pending n then delivering n msg else checking)
dispatch_by s msg (some (negsuc n)) = (s, checking)
dispatch_by s msg none =
    let method = text_or_empty msg (codes "method") in
    if bytes_eq method []
    then (s, checking)
    else if s.handlers method
    then (
      record s { handled = s.handled ++ (method, object_or_empty msg (codes "params")) ∷ [] },
      checking,
    )
    else (s, checking)

unfoldable pub dispatch : Shared → Fields → Shared × Pump
dispatch s msg = dispatch_by s msg (get_number msg (codes "id"))

-- A step of one goroutine in `Call`. The context and the outcome of a write are free. The premise of `number`
-- leaves out the wrap of the `int64`, which a session would reach after 2^63 - 1 calls.
pub data Move (s : Shared) : Caller → Shared → Caller → Type 0 where
  refuse : s.closed ≡ true → Move s idle s (returned (error session_closed))
  see_open :
      (method : Bytes) (params : Option Fields)
      → s.closed ≡ false
      → Move s idle s (open_seen method params)
  number :
      {method : Bytes} {params : Option Fields}
      → suc s.next_id < 2 ^ 63
      → Move s
          (open_seen method params)
          (record s { next_id = suc s.next_id })
          (numbered (suc s.next_id) method params)
  store :
      {id : ℕ} {method : Bytes} {params : Option Fields}
      → Move s
          (numbered id method params)
          (record s { pending = update s.pending id true; channels = update s.channels id none })
          (stored id method params)
  send :
      {id : ℕ} {method : Bytes} {params : Option Fields}
      → s.has_conn ≡ true
      → Move s
          (stored id method params)
          (record s { sent = record { id = id; method = method; params = params } ∷ s.sent })
          (waiting id)
  send_error :
      {id : ℕ} {method : Bytes} {params : Option Fields}
      → s.has_conn ≡ true
      → Move s (stored id method params) s (leaving id (failed send_failed))
  send_nil :
      {id : ℕ} {method : Bytes} {params : Option Fields}
      → s.has_conn ≡ false
      → Move s (stored id method params) s crashed
  receive :
      {id : ℕ} (msg : Fields)
      → s.channels id ≡ some msg
      → Move s
          (waiting id)
          (record s { channels = update s.channels id none })
          (leaving id (message msg))
  cancel : {id : ℕ} → Move s (waiting id) s (leaving id (failed context_done))
  delete :
      {id : ℕ} {r : Received}
      → Move s
          (leaving id r)
          (record s { pending = update s.pending id false })
          (returned (call_result r))
  again : {r : CallResult} → Move s (returned r) s idle

-- A step of `pump`. Behind a failed `Receive` it calls `Close`; that its goroutine drops the connection is a
-- step of the system.
pub data Turn (s : Shared) : Pump → Shared → Pump → Type 0 where
  stop : s.closed ≡ true → Turn s checking s ended
  go_on : s.closed ≡ false → Turn s checking s passed
  load : s.has_conn ≡ true → Turn s passed s reading
  load_nil : s.has_conn ≡ false → Turn s passed s panicked
  read : (msg : Fields) → Turn s reading s (holding msg)
  read_error : Turn s reading s failing
  route : {msg : Fields} → Turn s (holding msg) (dispatch s msg).0 (dispatch s msg).1
  deliver :
      {n : ℕ} {msg : Fields}
      → s.channels n ≡ none
      → Turn s (delivering n msg) (record s { channels = update s.channels n (some msg) }) checking
  close : s.closed ≡ false → Turn s failing (record s { closed = true; closing = true }) ended
  close_again : s.closed ≡ true → Turn s failing s ended

pub record System : Type 0 where
  pub shared : Shared
  pub callers : ℕ → Caller
  pub pump : Pump

-- `Close` swaps `closed`, and drops the connection if it was the first to do so.
pub data Step (s : System) : System → Type 0 where
  call :
      (i : ℕ) {t : Shared} {c : Caller}
      → Move s.shared (s.callers i) t c
      → Step s (record s { shared = t; callers = update s.callers i c })
  turn :
      {t : Shared} {p : Pump}
      → Turn s.shared s.pump t p
      → Step s (record s { shared = t; pump = p })
  register : (method : Bytes) → Step s (record s { shared = on s.shared method })
  swap_closed :
      s.shared.closed ≡ false
      → Step s (record s { shared = record s.shared { closed = true; closing = true } })
  drop_conn :
      s.shared.closing ≡ true
      → Step s (record s { shared = record s.shared { has_conn = false; closing = false } })

-- The session that `ConnectCDPURL` returns once the dial succeeded.
abbrev pub fresh_session : Shared
fresh_session = record {
  has_conn = true;
  closed = false;
  closing = false;
  next_id = 0;
  pending = λ id. false;
  channels = λ id. none;
  handlers = λ method. false;
  sent = [];
  handled = [];
}

abbrev pub init : System
init = record { shared = fresh_session; callers = λ i. idle; pump = checking }

pub data Reach (s : System) : System → Type 0 where
  start : Reach s s
  later : {t u : System} → Reach s t → Step t u → Reach s u
