-- ===== src/IoEvent.antt =====
-- api/ioevent/event.go: the captured I/O event and its record of 2089 bytes.
pub mod Codec
pub mod Stream
pub mod Wire
use bug_it.Base.{
  ℕ, zero, suc, ◌+◌, ◌-◌, ◌*◌, ◌/◌, ◌%◌, ◌^◌, ◌≤◌, ◌<◌, ◌≡◌, refl, List, [], ◌∷◌, ◌++◌, Option,
  none, some, arith, ltb, if◌then◌else◌, ◌==◌, length, take, drop, replicate, copy, slice_to,
}
use bug_it.Text.{Bytes}

abbrev pub max_payload_len : ℕ
max_payload_len = 2048

abbrev pub comm_len : ℕ
comm_len = 16

abbrev pub record_size : ℕ
record_size = 8 + 8 + 4 + 4 + 1 + comm_len + max_payload_len

-- `IsWrite` is 0 for a read, 1 for a write, 2 for a scheduler marker, 3 for a clock reading.
pub record IoEvent : Type 0 where
  pub pid_tgid : ℕ
  pub timestamp_ns : ℕ
  pub fd : ℕ
  pub payload_len : ℕ
  pub is_write : ℕ
  pub comm : Bytes
  pub payload : Bytes

-- What the Go types of the fields guarantee.
pub record IsTyped (e : IoEvent) : Type 0 where
  pub pid_fits : e.pid_tgid < 2 ^ 64
  pub timestamp_fits : e.timestamp_ns < 2 ^ 64
  pub fd_fits : e.fd < 2 ^ 32
  pub payload_len_fits : e.payload_len < 2 ^ 32
  pub is_write_fits : e.is_write < 2 ^ 8
  pub comm_array : length e.comm ≡ comm_len
  pub payload_array : length e.payload ≡ max_payload_len

-- The length field stays inside the payload array, so `e.Payload[:e.PayloadLen]` does not panic.
abbrev pub IsBounded : IoEvent → Type 0
IsBounded e = e.payload_len ≤ length e.payload

unfoldable pub zeros : ℕ → Bytes
unfolding replicate
zeros n = replicate n 0

-- `var e IOEvent`
unfoldable pub zero_event : IoEvent
unfolding zeros
zero_event = record {
  pid_tgid = 0;
  timestamp_ns = 0;
  fd = 0;
  payload_len = 0;
  is_write = 0;
  comm = zeros comm_len;
  payload = zeros max_payload_len;
}

-- `e.Payload[:e.PayloadLen]`, with its panic.
unfoldable pub payload_of : IoEvent → Option Bytes
unfolding slice_to
payload_of e = slice_to e.payload e.payload_len

pub payload_of_within :
    (e : IoEvent) → IsBounded e → payload_of e ≡ some (take e.payload_len e.payload)
unfolding payload_of
payload_of_within e b = ground arith

-- `binary.LittleEndian.PutUintN`: `width` bytes, the least significant first.
unfoldable pub put_le : ℕ → ℕ → Bytes
put_le zero v = []
put_le (suc width) v = v % 256 ∷ put_le width (v / 256)

-- `binary.LittleEndian.UintN`
unfoldable pub get_le : Bytes → ℕ
get_le [] = 0
get_le (b ∷ s) = b + 256 * get_le s

-- `buf[from:to]` of a buffer that is long enough.
abbrev pub slice : Bytes → ℕ → ℕ → Bytes
slice buf from to = take (to - from) (drop from buf)

-- The fields stand in the record one behind the other; the two arrays are copied into their places.
unfoldable pub encode : IoEvent → Bytes
unfolding put_le zeros copy
encode e =
    put_le 8 e.pid_tgid
    ++ put_le 8 e.timestamp_ns
    ++ put_le 4 e.fd
    ++ put_le 4 e.payload_len
    ++ (e.is_write ∷ [])
    ++ copy (zeros comm_len) e.comm
    ++ copy (zeros max_payload_len) e.payload

-- The errors of `io.ReadFull`.
pub data ReadError : Type 0 where
  eof unexpected_eof : ReadError

pub data Decoded (A : Type 0) : Type 0 where
  ok : A → Decoded A
  err : ReadError → Decoded A

-- The event that stands in a record.
unfoldable pub decode_record : Bytes → IoEvent
unfolding get_le zeros copy
decode_record buf = record {
  pid_tgid = get_le (slice buf 0 8);
  timestamp_ns = get_le (slice buf 8 16);
  fd = get_le (slice buf 16 20);
  payload_len = get_le (slice buf 20 24);
  is_write = get_le (slice buf 24 25);
  comm = copy (zeros comm_len) (slice buf 25 41);
  payload = copy (zeros max_payload_len) (drop 41 buf);
}

-- Reads one record from a reader; the unread bytes stay.
unfoldable pub decode : Bytes → Decoded (IoEvent × Bytes)
unfolding decode_record
decode [] = err eof
decode (b ∷ rest) =
    if ltb (length (b ∷ rest)) record_size
    then err unexpected_eof
    else ok (decode_record (take record_size (b ∷ rest)), drop record_size (b ∷ rest))
