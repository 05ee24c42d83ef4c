-- ===== src/IoEvent/Wire.antt =====
-- api/grpcapi/events.go: the event as a protobuf message, and back.
use bug_it.Base.{
  ℕ, ◌%◌, ◌≤◌, ◌<◌, ◌^◌, ◌≡◌, refl, ap, sym, [], ◌∷◌, ◌∙◌, Option, none, some, arith, ltb, leb,
  if◌then◌else◌, length, take, copy, length-take, take-copy, take_whole, true,
}
use bug_it.Text.{Bytes}
use bug_it.IoEvent.{
  max_payload_len, comm_len, IoEvent, IsTyped, IsBounded, zeros, zero_event, payload_of,
  payload_of_within,
}
use bug_it.IoEvent.Codec.{length-zeros, length-array, array_full}

-- The generated message of dre.v1.
pub record Message : Type 0 where
  pub pid_tgid : ℕ
  pub timestamp_ns : ℕ
  pub fd : ℕ
  pub payload_len : ℕ
  pub is_write : ℕ
  pub comm : Bytes
  pub payload : Bytes
  pub node_id : Bytes

-- `if pl > MaxPayloadLen { pl = MaxPayloadLen }`
unfoldable pub clamp_len : ℕ → ℕ
clamp_len pl = if ltb max_payload_len pl then max_payload_len else pl

-- `IOEventFromNative`. The payload array has room for the length that is cut here.
unfoldable pub io_event_from_native : IoEvent → Bytes → Message
io_event_from_native e node_id = record {
  pid_tgid = e.pid_tgid;
  timestamp_ns = e.timestamp_ns;
  fd = e.fd;
  payload_len = clamp_len e.payload_len;
  is_write = e.is_write;
  comm = e.comm;
  payload = take (clamp_len e.payload_len) e.payload;
  node_id = node_id;
}

-- A name is copied only if the message has all of it.
unfoldable pub native_comm : Bytes → Bytes
native_comm comm =
    if leb comm_len (length comm)
    then copy (zeros comm_len) (take comm_len comm)
    else zeros comm_len

-- The payload is copied as far as the message and the length reach.
unfoldable pub native_payload : ℕ → Bytes → Bytes
native_payload pl payload =
    let n = if ltb (length payload) pl then length payload else pl in
    if ltb 0 n then copy (zeros max_payload_len) (take n payload) else zeros max_payload_len

-- `ToNative`; `none` is the nil message.
unfoldable pub to_native : Option Message → IoEvent
to_native none = zero_event
to_native (some m) = record {
  pid_tgid = m.pid_tgid;
  timestamp_ns = m.timestamp_ns;
  fd = m.fd;
  payload_len = clamp_len m.payload_len;
  is_write = m.is_write % 256;
  comm = native_comm m.comm;
  payload = native_payload (clamp_len m.payload_len) m.payload;
}

-- What the protobuf types of a message's numbers guarantee.
pub record IsMessage (m : Message) : Type 0 where
  pub pid_fits : m.pid_tgid < 2 ^ 64
  pub timestamp_fits : m.timestamp_ns < 2 ^ 64
  pub fd_fits : m.fd < 2 ^ 32
  pub payload_len_fits : m.payload_len < 2 ^ 32

pub clamp_len-le : (n : ℕ) → clamp_len n ≤ max_payload_len
unfolding clamp_len
clamp_len-le n = ground arith

pub clamp_len_within : (n : ℕ) → n ≤ max_payload_len → clamp_len n ≡ n
unfolding clamp_len
clamp_len_within n h = ground arith

pub clamp_len_over : (n : ℕ) → max_payload_len < n → clamp_len n ≡ max_payload_len
unfolding clamp_len
clamp_len_over n h = ground arith

length-native_comm : (s : Bytes) → length (native_comm s) ≡ comm_len
length-native_comm s =
    unfold native_comm in
    ground (arith, length-array comm_len (take comm_len s), length-zeros comm_len)

native_comm_full : (s : Bytes) → length s ≡ comm_len → native_comm s ≡ s
native_comm_full s h =
    unfold native_comm in ground (arith, array_full comm_len s h, take_whole comm_len s)

length-native_payload : (n : ℕ) (s : Bytes) → length (native_payload n s) ≡ max_payload_len
unfolding native_payload
length-native_payload n s = ground (
  arith,
  length-array max_payload_len (take (if ltb (length s) n then length s else n) s),
  length-zeros max_payload_len,
)

take-native_payload :
    (n : ℕ) (s : Bytes) → length s ≡ n → n ≤ max_payload_len → take n (native_payload n s) ≡ s
unfolding native_payload
take-native_payload n [] h k = rw (← h)
take-native_payload n (c ∷ s) h k =
    let full : (if ltb (length (c ∷ s)) n then length (c ∷ s) else n) ≡ n = ground arith in
    let more : ltb 0 n ≡ true = ground arith in
    rw (full, more)
      (take-copy n (zeros max_payload_len) (take n (c ∷ s))
          (omega (arith, length-zeros max_payload_len)) (omega (arith, length-take n (c ∷ s)))
        ∙ ap (take n) (take_whole n (c ∷ s) (omega arith))
        ∙ take_whole n (c ∷ s) (omega arith))

-- Whatever a client sends, the native event has full arrays and a length inside its payload.
pub to_native-IsTyped :
    (m : Message) → IsMessage m → IsTyped (to_native (some m)) × IsBounded (to_native (some m))
unfolding to_native
to_native-IsTyped m h = (
  record {
    pid_fits = h.pid_fits;
    timestamp_fits = h.timestamp_fits;
    fd_fits = h.fd_fits;
    payload_len_fits = omega (arith, clamp_len-le m.payload_len);
    is_write_fits = omega arith;
    comm_array = length-native_comm m.comm;
    payload_array = length-native_payload (clamp_len m.payload_len) m.payload;
  },
  omega (
    arith,
    clamp_len-le m.payload_len,
    length-native_payload (clamp_len m.payload_len) m.payload,
  ),
)

pub to_native-IsBounded : (m : Message) → IsBounded (to_native (some m))
unfolding to_native
to_native-IsBounded m =
    omega
      (arith, clamp_len-le m.payload_len, length-native_payload (clamp_len m.payload_len) m.payload)

-- An event with the sizes of its Go types and a length inside its payload comes back from the wire with its header fields, and with its payload up to its length.
pub to_native-from_native :
    (e : IoEvent) (node : Bytes)
    → IsTyped e
    → IsBounded e
    → let e' = to_native (some (io_event_from_native e node)) in
      (e'.pid_tgid ≡ e.pid_tgid)
      × (e'.timestamp_ns ≡ e.timestamp_ns)
      × (e'.fd ≡ e.fd)
      × (e'.is_write ≡ e.is_write)
      × (e'.comm ≡ e.comm)
      × (payload_of e' ≡ payload_of e)
unfolding to_native io_event_from_native
to_native-from_native e node t b =
    let n = e.payload_len in
    let fits : n ≤ max_payload_len = omega (arith, t.payload_array) in
    let once : clamp_len n ≡ n = clamp_len_within n fits in
    let e' = to_native (some (io_event_from_native e node)) in
    let back : take n (native_payload n (take n e.payload)) ≡ take n e.payload =
      take-native_payload n (take n e.payload) (omega (arith, length-take n e.payload)) fits in
    (
      refl,
      refl,
      refl,
      omega (arith, t.is_write_fits),
      native_comm_full e.comm t.comm_array,
      payload_of_within e' (
            rw (once, once)
              (omega (arith, length-native_payload n (take n e.payload), t.payload_array)))
          ∙ ap some (rw (once, once) back)
          ∙ sym (payload_of_within e b),
    )
