-- ===== src/Capture/Fill.antt =====
-- A recorded event is a full event that holds what was recorded (proxy.go, attach_tap.go).
use bug_it.Base.{
  ℕ, ◌+◌, ◌%◌, ◌^◌, ◌≤◌, ◌<◌, ◌≡◌, refl, ap, sym, ◌∙◌, true, some, arith, ltb, length, take, copy,
  length-take, take-copy, take_whole, Bool-cases, inl, inr,
}
use bug_it.Text.{Bytes}
use bug_it.IoEvent.{
  IoEvent, IsTyped, IsBounded, max_payload_len, comm_len, payload_of, payload_of_within, zeros,
}
use bug_it.IoEvent.Codec.{length-zeros, length-array}
use bug_it.Capture.{cut_payload, truncate_comm, fill_event, RecordProxy, emit}

pub cut_payload-take : (payload : Bytes) → cut_payload payload ≡ take max_payload_len payload
unfolding cut_payload
cut_payload-take payload = elim (Bool-cases (ltb max_payload_len (length payload))) [
  | inl over ↦ rw over
  | inr fits ↦
      let small : length payload ≤ max_payload_len = ground arith in
      rw fits (sym (take_whole max_payload_len payload small))
]

pub cut_payload-le : (payload : Bytes) → length (cut_payload payload) ≤ max_payload_len
cut_payload-le payload =
    omega (arith, ap length (cut_payload-take payload), length-take max_payload_len payload)

pub fill_event-IsTyped :
    (now fd is_write : ℕ) (payload comm : Bytes)
    → fd < 2 ^ 32
    → is_write < 2 ^ 8
    → length payload ≤ max_payload_len
    → let evt = fill_event now fd is_write payload comm in
      IsTyped evt × IsBounded evt × (payload_of evt ≡ some payload)
unfolding fill_event
fill_event-IsTyped now fd is_write payload comm f w small =
    let evt = fill_event now fd is_write payload comm in
    let size = length-array max_payload_len payload in
    let word : length payload % 2 ^ 32 ≡ length payload = omega arith in
    let bounded : IsBounded evt = omega (arith, size) in
    let content : take (length payload % 2 ^ 32) (copy (zeros max_payload_len) payload) ≡ payload =
      rw word (
        take-copy (length payload) (zeros max_payload_len) payload
          (omega (arith, length-zeros max_payload_len)) (omega arith)
        ∙ take_whole (length payload) payload (omega arith)) in
    (
      record {
        pid_fits = omega arith;
        timestamp_fits = omega arith;
        fd_fits = f;
        payload_len_fits = omega arith;
        is_write_fits = w;
        comm_array = length-array comm_len comm;
        payload_array = size;
      },
      bounded,
      payload_of_within evt bounded ∙ ap some content,
    )

-- Where the callback is set, each recorded message becomes one event with full arrays, a length inside its payload, and the first
-- 2048 bytes of the message; the counter gives it the next descriptor.
pub emit-IsTyped :
    (s : RecordProxy) (is_write : ℕ) (payload : Bytes) (now : ℕ)
    → s.has_on_event ≡ true
    → is_write < 2 ^ 8
    → (evt : IoEvent) × (emit s is_write payload now
        ≡ (record s { event_index = s.event_index + 1 }, some evt))
      × IsTyped evt
      × IsBounded evt
      × (payload_of evt ≡ some (take max_payload_len payload))
      × (evt.is_write ≡ is_write)
      × (evt.fd ≡ (s.event_index + 1) % 2 ^ 32)
unfolding emit
emit-IsTyped s is_write payload now on w =
    let fd = (s.event_index + 1) % 2 ^ 32 in
    let cut = cut_payload payload in
    let evt = fill_event now fd is_write cut (truncate_comm s.comm) in
    let small = cut_payload-le payload in
    let (t, b, p) =
      fill_event-IsTyped now fd is_write cut (truncate_comm s.comm) (omega arith) w small in
    (
      evt,
      ground arith,
      t,
      b,
      p ∙ ap some (cut_payload-take payload),
      unfold fill_event in refl,
      unfold fill_event in refl,
    )
