-- ===== src/Agent/Forward.antt =====
-- What reaches the collector of an event with an injected header (grpc_client.go, events.go).
use bug_it.Base.{
  ◌%◌, ◌^◌, ◌≤◌, ◌<◌, ◌≡◌, sym, ◌∙◌, ◌≢◌, inl, inr, some, arith, ltb, ◌==◌, length, take, copy,
  length-copy, length-take, take-copy, take_whole, Bool-cases, ltb→lt, ==_iff,
}
use bug_it.Text.{Bytes}
use bug_it.IoEvent.{IoEvent, IsTyped, IsBounded, max_payload_len, payload_of_within}
use bug_it.IoEvent.Wire.{
  Message, io_event_from_native, clamp_len, clamp_len-le, clamp_len_within, clamp_len_over,
}
use bug_it.VectorClock.{maybe_inject_http}
use bug_it.VectorClock.Inject.{maybe_inject_http-same}
use bug_it.Agent.{Client, inject_vector, with_payload, keep_clock, message_of}

-- The payload after the injection.
abbrev pub updated : Client → IoEvent → Bytes
updated c evt = (maybe_inject_http (take evt.payload_len evt.payload) c.node_id (some c.vec)).0

-- Written over a full array and read up to the cut length, a text is cut at the array's end.
take-copy_cut :
    (payload u : Bytes)
    → length payload ≡ max_payload_len
    → take (clamp_len (length u)) (copy payload u) ≡ take max_payload_len u
take-copy_cut payload u h = elim (Bool-cases (ltb max_payload_len (length u))) [
  | inl over ↦
      let cut : clamp_len (length u) ≡ max_payload_len =
        clamp_len_over (length u) (ltb→lt _ _ over) in
      rw cut (take-copy max_payload_len payload u (omega arith) (ground arith))
  | inr fits ↦
      let small : length u ≤ max_payload_len = ground arith in
      rw (clamp_len_within (length u) small) (
        take-copy (length u) payload u (omega arith) (omega arith)
        ∙ take_whole (length u) u (omega arith)
        ∙ sym (take_whole max_payload_len u small))
]

-- The payload of the message of an event with a new payload `u`.
payload-with_payload :
    (evt : IoEvent) (u node : Bytes)
    → IsTyped evt
    → IsBounded evt
    → length u < 2 ^ 32
    → (length u ≡ length (take evt.payload_len evt.payload) → u ≡ take evt.payload_len evt.payload)
    → (io_event_from_native (with_payload evt (take evt.payload_len evt.payload) u) node).payload
      ≡ take max_payload_len u
unfolding io_event_from_native with_payload
payload-with_payload evt u node t b fits same =
    let pl = take evt.payload_len evt.payload in
    elim (Bool-cases (length u == length pl)) [
      | inl e ↦
          let u_pl : u ≡ pl = same ((==_iff _ _).0 e) in
          rw e (
            rw (u_pl, clamp_len_within evt.payload_len (omega (arith, t.payload_array)))
              (sym (
                take_whole max_payload_len pl
                  (omega (arith, length-take evt.payload_len evt.payload, t.payload_array)))))
      | inr e ↦
          let word : length u % 2 ^ 32 ≡ length u = omega arith in
          rw e (rw word (take-copy_cut evt.payload u t.payload_array))
    ]

-- A write with a payload, of the sizes of its Go types, is sent with the payload after the injection, cut
-- at the size of the payload array; the injected length fits 32 bits.
pub message_of-updated :
    (c : Client) (evt : IoEvent)
    → IsTyped evt
    → IsBounded evt
    → evt.is_write ≡ 1
    → evt.payload_len ≢ 0
    → length (updated c evt) < 2 ^ 32
    → (m : Message) × (c' : Client) × (message_of c evt ≡ some (m, c'))
      × (m.payload ≡ take max_payload_len (updated c evt))
      × (m.payload_len ≤ max_payload_len)
unfolding message_of inject_vector io_event_from_native
message_of-updated c evt t b w ne fits =
    let r = maybe_inject_http (take evt.payload_len evt.payload) c.node_id (some c.vec) in
    let sent = with_payload evt (take evt.payload_len evt.payload) r.0 in
    (
      io_event_from_native sent c.node_id,
      record c { vec = keep_clock c.vec r.1 },
      ground (arith, payload_of_within evt b),
      payload-with_payload evt r.0 c.node_id t b fits
          (maybe_inject_http-same (take evt.payload_len evt.payload) c.node_id c.vec),
      omega (arith, clamp_len-le sent.payload_len),
    )

overflow-with_payload :
    (evt : IoEvent) (pl u : Bytes)
    → length evt.payload ≡ max_payload_len
    → length pl ≤ max_payload_len
    → max_payload_len < length u
    → length u < 2 ^ 32
    → ¬ IsBounded (with_payload evt pl u)
unfolding with_payload
overflow-with_payload evt pl u t small over fits bounded =
    elim (Bool-cases (length u == length pl)) [
      | inl e ↦ absurd (omega (arith, (==_iff (length u) (length pl)).0 e))
      | inr e ↦
          let kept : length u % 2 ^ 32 ≤ length (copy evt.payload u) = rw e at bounded in
          absurd (omega (arith, length-copy evt.payload u))
    ]

-- A write whose payload outgrows the array by the injection, within 32 bits, gets a length past its array.
pub inject_vector_overflow :
    (c : Client) (evt : IoEvent)
    → IsTyped evt
    → IsBounded evt
    → evt.is_write ≡ 1
    → evt.payload_len ≢ 0
    → max_payload_len < length (updated c evt)
    → length (updated c evt) < 2 ^ 32
    → (evt' : IoEvent) × (c' : Client) × (inject_vector c evt ≡ some (evt', c')) × ¬ IsBounded evt'
unfolding inject_vector
inject_vector_overflow c evt t b w ne over fits =
    let r = maybe_inject_http (take evt.payload_len evt.payload) c.node_id (some c.vec) in
    (
      with_payload evt (take evt.payload_len evt.payload) r.0,
      record c { vec = keep_clock c.vec r.1 },
      ground (arith, payload_of_within evt b),
      overflow-with_payload evt (take evt.payload_len evt.payload) r.0 t.payload_array
          (omega (arith, length-take evt.payload_len evt.payload, t.payload_array)) over fits,
    )
