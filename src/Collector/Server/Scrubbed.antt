-- ===== src/Collector/Server/Scrubbed.antt =====
-- What the scrubbing of a snapshot changes (server.go).
use bug_it.Base.{
  ◌%◌, ◌^◌, ◌≡◌, refl, ap, sym, ◌∙◌, List, [], ◌∷◌, ◌++◌, some, length, copy, arith, take, All,
  drop, subst, drop-copy, length-take, length-copy, take-copy, take_all,
}
use bug_it.Text.{Bytes}
use bug_it.IoEvent.{IoEvent, IsTyped, IsBounded, payload_of, payload_of_within}
use bug_it.Collector.Buffer.{Event}
use bug_it.Collector.Redact.{RedactionEntry, scrub}
use bug_it.Collector.Redact.Mask.{IsMasked}
use bug_it.Collector.Redact.Scrub.{IsRedacted, scrub-Redacts}
use bug_it.Collector.Server.{scrub_event, scrub_events}

-- The scrubbed event is the captured one with stars in the part of its payload that counts; the log names
-- places of that part.
pub record IsScrubbed (evt evt' : IoEvent) (log : List RedactionEntry) : Type 0 where
  pub rest_same : evt' ≡ record evt { payload = evt'.payload }
  pub array : length evt'.payload ≡ length evt.payload
  pub behind : drop evt.payload_len evt'.payload ≡ drop evt.payload_len evt.payload
  pub content : Bytes
  pub counts : payload_of evt' ≡ some content
  pub masked : IsMasked (take evt.payload_len evt.payload) content
  pub logged : All (IsRedacted content) log

length_content :
    (evt : IoEvent) → IsBounded evt → length (take evt.payload_len evt.payload) ≡ evt.payload_len
length_content evt b = length-take evt.payload_len evt.payload ∙ omega arith

scrub_event_eq :
    (evt : IoEvent) {payload out : Bytes} {log : List RedactionEntry}
    → payload_of evt ≡ some payload
    → scrub payload ≡ some (out, log)
    → scrub_event evt
      ≡ some (record evt { payload_len = length out % 2 ^ 32; payload = copy evt.payload out }, log)
unfolding scrub_event
scrub_event_eq evt e k = rw e (rw k)

-- An event of the buffer can be scrubbed.
scrub_event-IsScrubbed :
    (evt : IoEvent)
    → IsTyped evt
    → IsBounded evt
    → (evt' : IoEvent) × (log : List RedactionEntry) × (scrub_event evt ≡ some (evt', log))
      × IsScrubbed evt evt' log
scrub_event-IsScrubbed evt typed b =
    let (out, log, e, masked, logged) = scrub-Redacts (take evt.payload_len evt.payload) in
    let len : length out ≡ evt.payload_len = masked.same_length ∙ length_content evt b in
    let fits = typed.payload_len_fits in
    let wrapped : length out % 2 ^ 32 ≡ evt.payload_len = ap (λ n. n % 2 ^ 32) len ∙ omega arith in
    let evt' : IoEvent = record evt {
      payload_len = length out % 2 ^ 32;
      payload = copy evt.payload out;
    } in
    let room = length-copy evt.payload out in
    let within : IsBounded evt' = omega arith in
    let front : take (length out % 2 ^ 32) (copy evt.payload out) ≡ out =
      ap (λ n. take n (copy evt.payload out)) (wrapped ∙ sym len)
      ∙ take-copy (length out) evt.payload out (omega arith) (omega arith)
      ∙ take_all out in
    (
      evt',
      log,
      scrub_event_eq evt (payload_of_within evt b) e,
      record {
        rest_same =
            ap (λ n. record evt { payload_len = n; payload = copy evt.payload out }) wrapped;
        array = length-copy evt.payload out;
        behind =
            subst (λ n. drop n (copy evt.payload out) ≡ drop n evt.payload) len
              (drop-copy evt.payload out);
        content = out;
        counts = payload_of_within evt' within ∙ ap some front;
        masked = masked;
        logged = logged;
      },
    )

-- The events one by one, with the parts of the log that belong to them.
abbrev pub AreScrubbed : List Event → List Event → List RedactionEntry → Type 0
AreScrubbed [] [] log = log ≡ []
AreScrubbed [] (ev' ∷ evs') log = ⊥
AreScrubbed (ev ∷ evs) [] log = ⊥
AreScrubbed (ev ∷ evs) (ev' ∷ evs') log =
    (own : List RedactionEntry) × (more : List RedactionEntry) × (log ≡ own ++ more)
    × (ev' ≡ record ev { io_event = ev'.io_event })
    × IsScrubbed ev.io_event ev'.io_event own
    × AreScrubbed evs evs' more

-- An event that has the sizes of its Go types, and a length inside its payload.
abbrev pub Fits : IoEvent → Type 0
Fits evt = IsTyped evt × IsBounded evt

abbrev pub IsSound : Event → Type 0
IsSound ev = Fits ev.io_event

IsScrubbed-Fits :
    {evt evt' : IoEvent} {log : List RedactionEntry}
    → Fits evt
    → IsScrubbed evt evt' log
    → Fits evt'
IsScrubbed-Fits {evt} {evt'} (typed, bounded) s =
    let masked : IoEvent = record evt { payload = evt'.payload } in
    let array = s.array in
    let fits : IsTyped masked = record {
      pid_fits = typed.pid_fits;
      timestamp_fits = typed.timestamp_fits;
      fd_fits = typed.fd_fits;
      payload_len_fits = typed.payload_len_fits;
      is_write_fits = typed.is_write_fits;
      comm_array = typed.comm_array;
      payload_array = array ∙ typed.payload_array;
    } in
    let within : IsBounded masked = omega arith in subst Fits (sym s.rest_same) (fits, within)

-- Scrubbed events are as sound as the captured ones.
pub AreScrubbed-IsSound :
    (events events' : List Event) (log : List RedactionEntry)
    → All IsSound events
    → AreScrubbed events events' log
    → All IsSound events'
AreScrubbed-IsSound [] [] log sound h = tt
AreScrubbed-IsSound [] (ev' ∷ events') log sound h = absurd h
AreScrubbed-IsSound (ev ∷ events) [] log sound h = absurd h
AreScrubbed-IsSound (ev ∷ events) (ev' ∷ events') log (one, sound) (own, more, e, same, s, h) =
    (IsScrubbed-Fits one s, AreScrubbed-IsSound events events' more sound h)

scrub_events_eq :
    (ev : Event) (events : List Event) {evt : IoEvent} {rest : List Event}
    {log more : List RedactionEntry}
    → scrub_event ev.io_event ≡ some (evt, log)
    → scrub_events events ≡ some (rest, more)
    → scrub_events (ev ∷ events) ≡ some (record ev { io_event = evt } ∷ rest, log ++ more)
unfolding scrub_events
scrub_events_eq ev events e k = rw e (rw k)

-- Where the buffered events are typed and bounded, the scrubbing of a snapshot does not panic, and changes no event but
-- by stars in the part of its payload that counts: every other field and the bytes behind that part are as they were.
-- The log is the log of the events in their order.
pub scrub_events-AreScrubbed :
    (events : List Event)
    → All IsSound events
    → (events' : List Event) × (log : List RedactionEntry) × (scrub_events events
        ≡ some (events', log))
      × AreScrubbed events events' log
scrub_events-AreScrubbed [] h = ([], [], (unfold scrub_events in refl), refl)
scrub_events-AreScrubbed (ev ∷ events) ((typed, b), h) =
    let (evt, log, e, one) = scrub_event-IsScrubbed ev.io_event typed b in
    let (rest, more, k, others) = scrub_events-AreScrubbed events h in
    (
      record ev { io_event = evt } ∷ rest,
      log ++ more,
      scrub_events_eq ev events e k,
      (log, more, refl, refl, one, others),
    )
