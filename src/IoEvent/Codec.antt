-- ===== src/IoEvent/Codec.antt =====
-- What `Encode` writes, `Decode` reads back.
use native.Mathlib.Nat.{pow-suc, pow-zero}
use bug_it.Base.{
  ℕ, zero, suc, ◌+◌, ◌-◌, ◌*◌, ◌/◌, ◌^◌, ◌≤◌, ◌<◌, ◌≡◌, refl, ap, ◌∙◌, sym, [], ◌∷◌, ◌++◌, false,
  ltb→lt, ◌⊎◌, drop_left, drop_exact, take_left, take_whole, length-drop, take_exact, arith, ltb,
  length, take, drop, copy, length-append, length-copy, length-replicate, copy_exact, Bool-cases,
  inl, inr,
}
use bug_it.Text.{Bytes}
use bug_it.IoEvent.{
  max_payload_len, comm_len, record_size, IoEvent, IsTyped, zeros, put_le, get_le, slice, encode,
  decode_record, decode, ok, err, eof, unexpected_eof,
}

pub length-zeros : (n : ℕ) → length (zeros n) ≡ n
unfolding zeros
length-zeros n = length-replicate n 0

pub length-array : (n : ℕ) (s : Bytes) → length (copy (zeros n) s) ≡ n
length-array n s = length-copy (zeros n) s ∙ length-zeros n

-- Copying a full array over zeros gives that array.
pub array_full : (n : ℕ) (s : Bytes) → length s ≡ n → copy (zeros n) s ≡ s
array_full n s h = copy_exact (zeros n) s (length-zeros n ∙ sym h)

length-put_le : (w v : ℕ) → length (put_le w v) ≡ w
unfolding put_le
length-put_le zero v = refl
length-put_le (suc w) v = ap suc (length-put_le w (v / 256))

-- A number that fits the width is read back.
pub get_le-put_le : (w v : ℕ) → v < 256 ^ w → get_le (put_le w v) ≡ v
unfolding get_le put_le
get_le-put_le zero v h = omega (arith, rw pow-zero at h)
get_le-put_le (suc w) v h =
    let bound : v < 256 ^ w * 256 = rw pow-suc at h in
    let ih = get_le-put_le w (v / 256) (omega arith) in omega arith

-- A window that ends before the last part of a concatenation.
slice_left :
    (xs ys : Bytes) (from to : ℕ)
    → from ≤ to
    → to ≤ length xs
    → slice (xs ++ ys) from to ≡ slice xs from to
slice_left xs ys from to h k =
    rw (drop_left from xs ys (omega arith))
      (take_left (to - from) (drop from xs) ys (omega (arith, length-drop from xs)))

-- The window of the last part.
slice_end :
    (pre mid : Bytes) (from to : ℕ)
    → length pre ≡ from
    → from + length mid ≡ to
    → slice (pre ++ mid) from to ≡ mid
slice_end pre mid from to h k =
    rw (drop_exact from pre mid h) (take_whole (to - from) mid (omega arith))

-- The seven parts of a record, each in its window.
module _ (a b c d w f g : Bytes) (ha : length a ≡ 8) (hb : length b ≡ 8) (hc : length c ≡ 4)
    (hd : length d ≡ 4) (hw : length w ≡ 1) (hf : length f ≡ comm_len)
    (hg : length g ≡ max_payload_len) where
  abbrev whole : Bytes
  whole = a ++ b ++ c ++ d ++ w ++ f ++ g

  length-whole : length whole ≡ record_size
  length-whole = omega (arith, length-append {0})

  window_6 :
      (from to : ℕ)
      → from ≤ to
      → to ≤ 41
      → slice whole from to ≡ slice (a ++ b ++ c ++ d ++ w ++ f) from to
  window_6 from to h k =
      slice_left (a ++ b ++ c ++ d ++ w ++ f) g from to h (omega (arith, length-append {0}))

  window_4 :
      (from to : ℕ) → from ≤ to → to ≤ 24 → slice whole from to ≡ slice (a ++ b ++ c ++ d) from to
  window_4 from to h k =
      window_6 from to h (omega arith)
      ∙ slice_left (a ++ b ++ c ++ d ++ w) f from to h (omega (arith, length-append {0}))
      ∙ slice_left (a ++ b ++ c ++ d) w from to h (omega (arith, length-append {0}))

  window_2 : (from to : ℕ) → from ≤ to → to ≤ 16 → slice whole from to ≡ slice (a ++ b) from to
  window_2 from to h k =
      window_4 from to h (omega arith)
      ∙ slice_left (a ++ b ++ c) d from to h (omega (arith, length-append {0}))
      ∙ slice_left (a ++ b) c from to h (omega (arith, length-append {0}))

  at_pid : slice whole 0 8 ≡ a
  at_pid =
      window_2 0 8 (omega arith) (omega arith)
      ∙ slice_left a b 0 8 (omega arith) (omega arith)
      ∙ slice_end [] a 0 8 refl (omega arith)

  at_timestamp : slice whole 8 16 ≡ b
  at_timestamp = window_2 8 16 (omega arith) (omega arith) ∙ slice_end a b 8 16 ha (omega arith)

  at_fd : slice whole 16 20 ≡ c
  at_fd =
      window_4 16 20 (omega arith) (omega arith)
      ∙ slice_left (a ++ b ++ c) d 16 20 (omega arith) (omega (arith, length-append {0}))
      ∙ slice_end (a ++ b) c 16 20 (omega (arith, length-append {0})) (omega arith)

  at_payload_len : slice whole 20 24 ≡ d
  at_payload_len =
      window_4 20 24 (omega arith) (omega arith)
      ∙ slice_end (a ++ b ++ c) d 20 24 (omega (arith, length-append {0})) (omega arith)

  at_is_write : slice whole 24 25 ≡ w
  at_is_write =
      window_6 24 25 (omega arith) (omega arith)
      ∙ slice_left (a ++ b ++ c ++ d ++ w) f 24 25 (omega arith) (omega (arith, length-append {0}))
      ∙ slice_end (a ++ b ++ c ++ d) w 24 25 (omega (arith, length-append {0})) (omega arith)

  at_comm : slice whole 25 41 ≡ f
  at_comm =
      window_6 25 41 (omega arith) (omega arith)
      ∙ slice_end (a ++ b ++ c ++ d ++ w) f 25 41 (omega (arith, length-append {0})) (omega arith)

  at_payload : drop 41 whole ≡ g
  at_payload = drop_exact 41 (a ++ b ++ c ++ d ++ w ++ f) g (omega (arith, length-append {0}))

  windows :
      (slice whole 0 8 ≡ a)
      × (slice whole 8 16 ≡ b)
      × (slice whole 16 20 ≡ c)
      × (slice whole 20 24 ≡ d)
      × (slice whole 24 25 ≡ w)
      × (slice whole 25 41 ≡ f)
      × (drop 41 whole ≡ g)
  windows = (at_pid, at_timestamp, at_fd, at_payload_len, at_is_write, at_comm, at_payload)

pub length-encode : (e : IoEvent) → length (encode e) ≡ record_size
unfolding encode
length-encode e =
    length-whole (put_le 8 e.pid_tgid) (put_le 8 e.timestamp_ns) (put_le 4 e.fd)
      (put_le 4 e.payload_len) (e.is_write ∷ []) (copy (zeros comm_len) e.comm)
      (copy (zeros max_payload_len) e.payload) (length-put_le 8 e.pid_tgid)
      (length-put_le 8 e.timestamp_ns) (length-put_le 4 e.fd) (length-put_le 4 e.payload_len) refl
      (length-array comm_len e.comm) (length-array max_payload_len e.payload)

get_le_byte : (b : ℕ) → get_le (b ∷ []) ≡ b
unfolding get_le
get_le_byte b = omega arith

-- The record of an event holds that event.
pub decode_record-encode : (e : IoEvent) → IsTyped e → decode_record (encode e) ≡ e
unfolding decode_record encode
decode_record-encode e t =
    let ws =
      windows (put_le 8 e.pid_tgid) (put_le 8 e.timestamp_ns) (put_le 4 e.fd)
        (put_le 4 e.payload_len) (e.is_write ∷ []) (copy (zeros comm_len) e.comm)
        (copy (zeros max_payload_len) e.payload) (length-put_le 8 e.pid_tgid)
        (length-put_le 8 e.timestamp_ns) (length-put_le 4 e.fd) (length-put_le 4 e.payload_len) refl
        (length-array comm_len e.comm) (length-array max_payload_len e.payload) in
    let comm = array_full comm_len e.comm t.comm_array in
    let payload = array_full max_payload_len e.payload t.payload_array in
    λ i. record {
      pid_tgid = (ap get_le ws.0 ∙ get_le-put_le 8 e.pid_tgid t.pid_fits) i;
      timestamp_ns = (ap get_le ws.1 ∙ get_le-put_le 8 e.timestamp_ns t.timestamp_fits) i;
      fd = (ap get_le ws.2 ∙ get_le-put_le 4 e.fd t.fd_fits) i;
      payload_len = (ap get_le ws.3 ∙ get_le-put_le 4 e.payload_len t.payload_len_fits) i;
      is_write = (ap get_le ws.4 ∙ get_le_byte e.is_write) i;
      comm = (ap (copy (zeros comm_len)) (ws.5 ∙ comm) ∙ comm) i;
      payload = (ap (copy (zeros max_payload_len)) (ws.6 ∙ payload) ∙ payload) i;
    }

-- A reader that holds a whole record gives its event and keeps the rest.
pub decode_whole :
    (s : Bytes)
    → record_size ≤ length s
    → decode s ≡ ok (decode_record (take record_size s), drop record_size s)
unfolding decode
decode_whole [] h = absurd (omega arith)
decode_whole (b ∷ s) h =
    let long : ltb (length (b ∷ s)) record_size ≡ false = ground arith in rw long

-- `Decode` undoes `Encode` on an event with the sizes of its Go types, whatever bytes follow in the reader.
pub decode-encode :
    (e : IoEvent) (rest : Bytes) → IsTyped e → decode (encode e ++ rest) ≡ ok (e, rest)
decode-encode e rest t =
    decode_whole (encode e ++ rest) (omega (arith, length-append {0}, length-encode e))
    ∙ rw (
      take_exact record_size (encode e) rest (length-encode e),
      drop_exact record_size (encode e) rest (length-encode e),
      decode_record-encode e t,
    )

-- The three outcomes of a read, by the bytes that are left.
pub decode-cases :
    (s : Bytes)
    → ((decode s ≡ err eof) × (length s ≡ 0))
      ⊎ ((decode s ≡ err unexpected_eof) × (0 < length s) × (length s < record_size))
      ⊎ ((e : IoEvent) × (rest : Bytes) × (decode s ≡ ok (e, rest))
          × (length s ≡ record_size + length rest))
decode-cases [] = unfold decode in inl (refl, refl)
decode-cases (b ∷ s) = elim (Bool-cases (ltb (length (b ∷ s)) record_size)) [
  | inl short ↦ inr (inl (unfold decode in (rw short), omega arith, ltb→lt _ _ short))
  | inr long ↦
      let enough : record_size ≤ length (b ∷ s) = ground arith in
      inr (
        inr (
          decode_record (take record_size (b ∷ s)),
          drop record_size (b ∷ s),
          decode_whole (b ∷ s) enough,
          omega (arith, length-drop record_size (b ∷ s)),
        ))
]
