-- ===== src/Inspector/Tap/Events.antt =====
-- The events of a tap, over any sequence of messages (pkg/captureattach/attach_tap.go).
use bug_it.Base.{
  ℕ, ℤ, pos, ◌+◌, ◌%◌, ◌^◌, ◌≤◌, ◌≡◌, refl, ap, ◌∙◌, sym, subst, ◌⊎◌, inl, inr, ◌||◌, List, [], ◌∷◌,
  ◌++◌, Option, if◌then◌else◌, none, some, arith, length, Bool-cases, eq_ℤ,
}
use bug_it.Text.{Bytes, codes, bytes_eq}
use bug_it.IoEvent.{IoEvent, IsTyped, IsBounded, max_payload_len}
use bug_it.Capture.{cut_payload, truncate_comm, fill_event}
use bug_it.Capture.Fill.{fill_event-IsTyped, cut_payload-le}
use bug_it.Inspector.{is_empty_text}
use bug_it.Inspector.Json.{Fields, get_object, text_or_empty}
use bug_it.Inspector.Tap.{
  AttachTap, BindingMessage, tap_emit, write_flag, handle_binding, handle_outbound_request,
  emit_request, emit_response, handle_binding_called, handle_outbound_response, handle_method,
  prepend, handle_methods,
}

-- An event that a tap may hand on with a descriptor.
abbrev pub IsEmitted : ℕ → IoEvent → Type 0
IsEmitted n evt =
    IsTyped evt
    × IsBounded evt
    × (evt.payload_len ≤ max_payload_len)
    × (evt.is_write ≤ 1)
    × (evt.fd ≡ n % 2 ^ 32)

-- What one message does: it leaves the counter and yields nothing, or takes the next number for an event.
abbrev pub IsHandled : AttachTap → AttachTap × Option IoEvent → Type 0
IsHandled t r =
    ((r.1 ≡ none) × (r.0.next_fd ≡ t.next_fd) × (r.0.inbound_count ≡ t.inbound_count))
    ⊎ ((evt : IoEvent) × (r.1 ≡ some evt)
        × (r.0.next_fd ≡ t.next_fd + 1)
        × (t.inbound_count ≤ r.0.inbound_count)
        × (r.0.inbound_count ≤ t.inbound_count + 1)
        × IsEmitted (t.next_fd + 1) evt)

tap_emit-IsEmitted :
    (t : AttachTap) (is_write : ℕ) (payload : Bytes) (now : ℕ)
    → is_write ≤ 1
    → (evt : IoEvent) × (tap_emit t is_write payload now
        ≡ (record t { next_fd = t.next_fd + 1 }, some evt))
      × IsEmitted (t.next_fd + 1) evt
unfolding tap_emit
tap_emit-IsEmitted t is_write payload now w =
    let fd = (t.next_fd + 1) % 2 ^ 32 in
    let cut = cut_payload payload in
    let small = cut_payload-le payload in
    let (typed, bounded, content) =
      fill_event-IsTyped now fd is_write cut (truncate_comm t.comm) (omega arith) (omega arith)
        small in
    (
      fill_event now fd is_write cut (truncate_comm t.comm),
      refl,
      (
        typed,
        bounded,
        unfold fill_event in omega arith,
        unfold fill_event in w,
        unfold fill_event in refl,
      ),
    )

tap_emit-IsHandled :
    (t : AttachTap) (is_write : ℕ) (payload : Bytes) (now : ℕ)
    → is_write ≤ 1
    → IsHandled t (tap_emit t is_write payload now)
tap_emit-IsHandled t is_write payload now w =
    let (evt, e, ok) = tap_emit-IsEmitted t is_write payload now w in
    subst (IsHandled t) (sym e) (inr (evt, refl, refl, omega arith, omega arith, ok))

write_flag-le : (dir : ℤ) → write_flag dir ≤ 1
unfolding write_flag
write_flag-le dir = elim (Bool-cases (eq_ℤ dir (pos 1))) [
  | inl e ↦ rw e (omega arith)
  | inr e ↦ rw e (omega arith)
]

handle_binding-IsHandled :
    (t : AttachTap) (msg : Option BindingMessage) (now : ℕ) → IsHandled t (handle_binding t msg now)
unfolding handle_binding
handle_binding-IsHandled t none now = inl (refl, refl, refl)
handle_binding-IsHandled t (some msg) now = elim (Bool-cases msg.ping) [
  | inl e ↦ rw e (inl (refl, refl, refl))
  | inr e ↦ elim (Bool-cases (is_empty_text msg.payload)) [
    | inl k ↦ rw e (rw k (inl (refl, refl, refl)))
    | inr k ↦
        let u = record t { inbound_count = t.inbound_count + 1 } in
        let (evt, same, ok) =
          tap_emit-IsEmitted u (write_flag msg.dir) msg.payload now (write_flag-le msg.dir) in
        rw e (
          rw k
            (subst (IsHandled t) (sym same) (inr (evt, refl, refl, omega arith, omega arith, ok))))
  ]
]

emit_request-IsHandled :
    (t : AttachTap) (req : Option Fields) (now : ℕ) → IsHandled t (emit_request t req now)
unfolding emit_request
emit_request-IsHandled t none now = inl (refl, refl, refl)
emit_request-IsHandled t (some req) now =
    elim (Bool-cases (
      is_empty_text (text_or_empty req (codes "method"))
      || is_empty_text (text_or_empty req (codes "url")))) [
        | inl e ↦ rw e (inl (refl, refl, refl))
        | inr e ↦ rw e (tap_emit-IsHandled t 1 _ now (omega arith))
      ]

-- The events of a run: their descriptors go up one by one.
abbrev pub Numbered : ℕ → List IoEvent → Type 0
Numbered n [] = Unit
Numbered n (evt ∷ evts) = IsEmitted (n + 1) evt × Numbered (n + 1) evts

-- What a sent request must have for an event: a method and an address.
abbrev pub sent_direction : Option Fields → Option ℕ
sent_direction none = none
sent_direction (some req) =
    if is_empty_text (text_or_empty req (codes "method"))
      || is_empty_text (text_or_empty req (codes "url"))
    then none
    else some 1

abbrev pub received_direction : Option Fields → Option ℕ
received_direction none = none
received_direction (some resp) = some 0

-- What the hook's text must be for an event: no ping, and with a payload; its own direction counts where it is 1.
abbrev pub hook_direction : Option BindingMessage → Option ℕ
hook_direction none = none
hook_direction (some msg) =
    if msg.ping || is_empty_text msg.payload
    then none
    else some (if eq_ℤ msg.dir (pos 1) then 1 else 0)

-- The direction of the event that a message is worth, if it is worth one.
abbrev pub direction_of : (Bytes → Option BindingMessage) → Bytes → Fields → Option ℕ
direction_of unmarshal method params =
    let hooked = text_or_empty params (codes "payload") in
    if bytes_eq method (codes "Network.requestWillBeSent")
    then sent_direction (get_object params (codes "request"))
    else if bytes_eq method (codes "Network.responseReceived")
    then received_direction (get_object params (codes "response"))
    else if bytes_eq method (codes "Runtime.bindingCalled")
    then (if is_empty_text hooked then none else hook_direction (unmarshal hooked))
    else none

abbrev pub mark_of : ℕ → Option ℕ → List (ℕ × ℕ)
mark_of now none = []
mark_of now (some direction) = (now % 2 ^ 64, direction) ∷ []

-- The times and directions of the messages that are worth an event.
abbrev pub marks_of : (Bytes → Option BindingMessage) → List (Bytes × Fields × ℕ) → List (ℕ × ℕ)
marks_of unmarshal [] = []
marks_of unmarshal ((method, params, now) ∷ msgs) =
    mark_of now (direction_of unmarshal method params) ++ marks_of unmarshal msgs

abbrev pub marks : List IoEvent → List (ℕ × ℕ)
marks [] = []
marks (evt ∷ evts) = (evt.timestamp_ns, evt.is_write) ∷ marks evts

abbrev mark_one : Option IoEvent → List (ℕ × ℕ)
mark_one none = []
mark_one (some evt) = (evt.timestamp_ns, evt.is_write) ∷ []

marks-prepend :
    (first : Option IoEvent) (rest : List IoEvent)
    → marks (prepend first rest) ≡ mark_one first ++ marks rest
marks-prepend none rest = refl
marks-prepend (some evt) rest = refl

handle_binding-mark :
    (t : AttachTap) (msg : Option BindingMessage) (now : ℕ)
    → mark_one (handle_binding t msg now).1 ≡ mark_of now (hook_direction msg)
unfolding handle_binding tap_emit fill_event write_flag
handle_binding-mark t none now = refl
handle_binding-mark t (some msg) now = elim (Bool-cases msg.ping) [
  | inl e ↦ rw e refl
  | inr e ↦ elim (Bool-cases (is_empty_text msg.payload)) [
    | inl k ↦ rw e (rw k refl)
    | inr k ↦ rw e (rw k refl)
  ]
]

emit_request-mark :
    (t : AttachTap) (req : Option Fields) (now : ℕ)
    → mark_one (emit_request t req now).1 ≡ mark_of now (sent_direction req)
unfolding emit_request tap_emit fill_event
emit_request-mark t none now = refl
emit_request-mark t (some req) now =
    elim (Bool-cases (
      is_empty_text (text_or_empty req (codes "method"))
      || is_empty_text (text_or_empty req (codes "url")))) [ inl e ↦ rw e refl | inr e ↦ rw e refl ]

-- What a run of the handlers does.
abbrev pub IsRun : AttachTap → List (ℕ × ℕ) → AttachTap × List IoEvent → Type 0
IsRun t expected r =
    (marks r.1 ≡ expected)
    × Numbered t.next_fd r.1
    × (r.0.next_fd ≡ t.next_fd + length r.1)
    × (t.inbound_count ≤ r.0.inbound_count)
    × (r.0.inbound_count ≤ t.inbound_count + length r.1)

IsRun-prepend :
    (t : AttachTap) (one expected : List (ℕ × ℕ)) (first : AttachTap × Option IoEvent)
    (rest : AttachTap × List IoEvent)
    → mark_one first.1 ≡ one
    → IsHandled t first
    → IsRun first.0 expected rest
    → IsRun t (one ++ expected) (rest.0, prepend first.1 rest.1)
IsRun-prepend t one expected first rest m h (same, numbered, n, low, high) =
    let all : marks (prepend first.1 rest.1) ≡ one ++ expected =
      marks-prepend first.1 rest.1 ∙ ap (λ l. l ++ marks rest.1) m ∙ ap (λ l. one ++ l) same in
    let (numbers, counter, above, below) = prepended h in (all, numbers, counter, above, below)
  where
    prepended :
        IsHandled t first
        → Numbered t.next_fd (prepend first.1 rest.1)
          × (rest.0.next_fd ≡ t.next_fd + length (prepend first.1 rest.1))
          × (t.inbound_count ≤ rest.0.inbound_count)
          × (rest.0.inbound_count ≤ t.inbound_count + length (prepend first.1 rest.1))
    prepended (inl (e, fd, count)) =
        rw e (subst (λ k. Numbered k rest.1) fd numbered, omega arith, omega arith, omega arith)
    prepended (inr (evt, e, fd, up, down, ok)) =
        rw e
          ((ok, subst (λ k. Numbered k rest.1) fd numbered), omega arith, omega arith, omega arith)

module _ (unmarshal : Bytes → Option BindingMessage) (status_text : ℤ → Bytes) where
  emit_response-IsHandled :
      (t : AttachTap) (resp : Option Fields) (now : ℕ)
      → IsHandled t (emit_response unmarshal status_text t resp now)
  unfolding emit_response
  emit_response-IsHandled t none now = inl (refl, refl, refl)
  emit_response-IsHandled t (some resp) now = tap_emit-IsHandled t 0 _ now (omega arith)

  handle_binding_called-IsHandled :
      (t : AttachTap) (params : Fields) (now : ℕ)
      → IsHandled t (handle_binding_called unmarshal status_text t params now)
  unfolding handle_binding_called
  handle_binding_called-IsHandled t params now =
      elim (Bool-cases (is_empty_text (text_or_empty params (codes "payload")))) [
        | inl e ↦ rw e (inl (refl, refl, refl))
        | inr e ↦ rw e (handle_binding-IsHandled t _ now)
      ]

  handle_method-IsHandled :
      (t : AttachTap) (method : Bytes) (params : Fields) (now : ℕ)
      → IsHandled t (handle_method unmarshal status_text t method params now)
  unfolding handle_method handle_outbound_request handle_outbound_response
  handle_method-IsHandled t method params now =
      elim (Bool-cases (bytes_eq method (codes "Network.requestWillBeSent"))) [
        | inl a ↦ rw a (emit_request-IsHandled t _ now)
        | inr a ↦ elim (Bool-cases (bytes_eq method (codes "Network.responseReceived"))) [
          | inl b ↦ rw a (rw b (emit_response-IsHandled t _ now))
          | inr b ↦ elim (Bool-cases (bytes_eq method (codes "Runtime.bindingCalled"))) [
            | inl c ↦ rw a (rw b (rw c (handle_binding_called-IsHandled t params now)))
            | inr c ↦ rw a (rw b (rw c (inl (refl, refl, refl))))
          ]
        ]
      ]

  emit_response-mark :
      (t : AttachTap) (resp : Option Fields) (now : ℕ)
      → mark_one (emit_response unmarshal status_text t resp now).1
        ≡ mark_of now (received_direction resp)
  unfolding emit_response tap_emit fill_event
  emit_response-mark t none now = refl
  emit_response-mark t (some resp) now = refl

  handle_method-mark :
      (t : AttachTap) (method : Bytes) (params : Fields) (now : ℕ)
      → mark_one (handle_method unmarshal status_text t method params now).1
        ≡ mark_of now (direction_of unmarshal method params)
  unfolding handle_method handle_outbound_request handle_outbound_response handle_binding_called
  handle_method-mark t method params now =
      elim (Bool-cases (bytes_eq method (codes "Network.requestWillBeSent"))) [
        | inl a ↦ rw a (emit_request-mark t _ now)
        | inr a ↦ elim (Bool-cases (bytes_eq method (codes "Network.responseReceived"))) [
          | inl b ↦ rw a (rw b (emit_response-mark t _ now))
          | inr b ↦ elim (Bool-cases (bytes_eq method (codes "Runtime.bindingCalled"))) [
            | inr c ↦ rw a (rw b (rw c refl))
            | inl c ↦ elim (Bool-cases (is_empty_text (text_or_empty params (codes "payload")))) [
              | inl e ↦ rw a (rw b (rw c (rw e refl)))
              | inr e ↦ rw a (rw b (rw c (rw e (handle_binding-mark t _ now))))
            ]
          ]
        ]
      ]

  -- Whatever messages arrive, the events are one for each message that is worth one, in their order, with the time
  -- at which it is handled (as a `uint64`) and its direction: a request with a method and an address (direction 1), a response (0), and
  -- a hook's text that is decoded, is no ping and has a payload (1 if it says so, else 0). Every event is a full event
  -- with a payload of at most 2048 bytes and its length within the payload; the events take the consecutive descriptors
  -- behind the tap's counter, and no more inbound messages are counted than events are handed on.
  pub handle_methods-IsRun :
      (t : AttachTap) (msgs : List (Bytes × Fields × ℕ))
      → IsRun t (marks_of unmarshal msgs) (handle_methods unmarshal status_text t msgs)
  unfolding handle_methods
  handle_methods-IsRun t [] = (refl, tt, omega arith, omega arith, omega arith)
  handle_methods-IsRun t ((method, params, now) ∷ msgs) =
      let first = handle_method unmarshal status_text t method params now in
      IsRun-prepend t (mark_of now (direction_of unmarshal method params)) (marks_of unmarshal msgs)
        first (handle_methods unmarshal status_text first.0 msgs)
        (handle_method-mark t method params now) (handle_method-IsHandled t method params now)
        (handle_methods-IsRun first.0 msgs)
