-- ===== src/LocalCapture/Rounds.antt =====
-- What a round of the loop keeps of the failures (incident.go).
use bug_it.Base.{
  ℕ, suc, pos, leb_ℤ, ◌≡◌, ◌≢◌, refl, ap, sym, subst, Bool, true, false, ◌&&◌, ◌||◌, [], ◌∷◌,
  Option, none, some, ◌==◌, ltb, if◌then◌else◌, length, arith, take, Bool-cases, Option-cases, inl,
  inr,
}
use bug_it.Text.{Bytes, codes, crlf, has_prefix}
use bug_it.Text.Search.{cut}
use bug_it.Text.Trim.{trim_nul}
use bug_it.IoEvent.{IoEvent, IsBounded, payload_of_within}
use bug_it.Replay.Summary.{shorten}
use bug_it.LocalCapture.{
  Draft, add_service, add_comm, add_request, title_of, is_blank_text, add_failure, add_response,
  add_event, parse_status, parse_request_line, summarize_payload,
}
use bug_it.LocalCapture.Failure.{Failure, is_server, failure_of, Names, next}

taken :
    (d : Draft) (f : Failure)
    → (is_blank_text d.failed_step || is_server f) ≡ true
    → f.step ≢ []
    → Names (add_failure d f.step f.status f.detail) (some f)
unfolding add_failure
taken d f now full =
    let e : add_failure d f.step f.status f.detail
        ≡ record d { failed_step = f.step; root_cause = f.detail; title = title_of f.status } =
      ground arith in
    subst (λ e'. Names e' (some f)) (sym e) (refl, full, refl, refl)

left_alone :
    (d : Draft) (f : Failure)
    → (is_blank_text d.failed_step || is_server f) ≡ false
    → add_failure d f.step f.status f.detail ≡ d
unfolding add_failure
left_alone d f later = ground arith

not_blank : (s : Bytes) → s ≢ [] → is_blank_text s ≡ false
not_blank [] ne = absurd (ne refl)
not_blank (c ∷ s) ne = refl

-- A failure that is met.
add_failure-Names :
    (d : Draft) (o : Option Failure) (f : Failure)
    → f.step ≢ []
    → Names d o
    → Names (add_failure d f.step f.status f.detail) (next o f)
add_failure-Names d none f full (step, cause, title) =
    let blank_step : is_blank_text d.failed_step ≡ true = ap is_blank_text step in
    taken d f (ground arith) full
add_failure-Names d (some g) f full (step, ne, cause, title) = elim (Bool-cases (is_server f)) [
  | inl server ↦
      subst (λ b. Names (add_failure d f.step f.status f.detail) (if b then some f else some g))
        (sym server) (taken d f (ground arith) full)
  | inr client ↦
      let full_step = not_blank d.failed_step ne in
      subst (λ b. Names (add_failure d f.step f.status f.detail) (if b then some f else some g))
        (sym client)
        (subst (λ e. Names e (some g)) (sym (left_alone d f (ground arith)))
          (step, ne, cause, title))
]

shorten-full : (n : ℕ) (s : Bytes) → s ≢ [] → shorten (suc n) s ≢ []
unfolding shorten
shorten-full n [] ne = absurd (ne refl)
shorten-full n (c ∷ s) ne = elim (Bool-cases (ltb (suc n) (length (c ∷ s)))) [
  | inl over ↦ rw over (λ z. cc)
  | inr fits ↦ rw fits (λ z. cc)
]

prefix-full : (s : Bytes) → has_prefix s (codes "HTTP/") ≡ true → s ≢ []
unfolding has_prefix
prefix-full [] h = cc
prefix-full (c ∷ s) h = λ z. cc

no_status :
    (payload : Bytes)
    → has_prefix (cut payload crlf).0 (codes "HTTP/") ≡ false
    → (parse_status payload).0 ≡ pos 0
unfolding parse_status
no_status payload other = elim (Option-cases (cut payload crlf).1) [
  | inl e ↦ ground arith
  | inr (r, e) ↦ ground arith
]

-- Only a status line has a status, and it is not empty.
status_step :
    (payload : Bytes)
    → leb_ℤ (pos 400) (parse_status payload).0 ≡ true
    → summarize_payload payload ≢ []
unfolding summarize_payload
status_step payload h = elim (Bool-cases (has_prefix (cut payload crlf).0 (codes "HTTP/"))) [
  | inl line ↦ shorten-full 119 (cut payload crlf).0 (prefix-full (cut payload crlf).0 line)
  | inr other ↦
      let none_400 : leb_ℤ (pos 400) (pos 0) ≡ true =
        subst (λ n. leb_ℤ (pos 400) n ≡ true) (no_status payload other) h in
      absurd (ground arith)
]

add_comm-Names : (d : Draft) (o : Option Failure) (s : Bytes) → Names d o → Names (add_comm d s) o
unfolding add_comm add_service
add_comm-Names d none [] h = h
add_comm-Names d (some f) [] h = h
add_comm-Names d none (c ∷ s) h = h
add_comm-Names d (some f) (c ∷ s) h = h

add_request-Names :
    (d : Draft) (o : Option Failure) (r : Bytes × Bytes) → Names d o → Names (add_request d r) o
unfolding add_request add_service
add_request-Names d none ([], path) h = h
add_request-Names d (some f) ([], path) h = h
add_request-Names d none (c ∷ s, path) h = h
add_request-Names d (some f) (c ∷ s, path) h = h

abbrev pub next_maybe : Option Failure → Option Failure → Option Failure
next_maybe o none = o
next_maybe o (some f) = next o f

abbrev response_failure : Bytes → Bool → Option Failure
response_failure payload failed =
    if failed
    then some (record {
      step = summarize_payload payload;
      status = (parse_status payload).0;
      detail = (parse_status payload).1;
    })
    else none

add_response_failed :
    (d : Draft) (payload : Bytes)
    → leb_ℤ (pos 400) (parse_status payload).0 ≡ true
    → add_response d payload
      ≡ add_failure d (summarize_payload payload) (parse_status payload).0 (parse_status payload).1
unfolding add_response
add_response_failed d payload e = ground arith

add_response_fine :
    (d : Draft) (payload : Bytes)
    → leb_ℤ (pos 400) (parse_status payload).0 ≡ false
    → add_response d payload ≡ d
unfolding add_response
add_response_fine d payload e = ground arith

add_event_read :
    (d : Draft) (ev : IoEvent)
    → IsBounded ev
    → (ev.is_write == 0) ≡ true
    → add_event d ev
      ≡ some (add_response (add_comm d (trim_nul ev.comm)) (take ev.payload_len ev.payload))
unfolding add_event
add_event_read d ev b read = rw (payload_of_within ev b) (rw read refl)

add_event_write :
    (d : Draft) (ev : IoEvent)
    → IsBounded ev
    → (ev.is_write == 0) ≡ false
    → add_event d ev
      ≡ some (
          add_request
            (add_comm d (trim_nul ev.comm))
            (parse_request_line (take ev.payload_len ev.payload)))
unfolding add_event
add_event_write d ev b write = rw (payload_of_within ev b) (rw write refl)

add_response-Names :
    (d : Draft) (o : Option Failure) (payload : Bytes)
    → Names d o
    → Names
        (add_response d payload)
        (next_maybe o (response_failure payload (leb_ℤ (pos 400) (parse_status payload).0)))
add_response-Names d o payload h = elim (Bool-cases (leb_ℤ (pos 400) (parse_status payload).0)) [
  | inl failed ↦
      let f : Failure = record {
        step = summarize_payload payload;
        status = (parse_status payload).0;
        detail = (parse_status payload).1;
      } in
      subst (λ b. Names (add_response d payload) (next_maybe o (response_failure payload b)))
        (sym failed)
        (subst (λ e. Names e (next o f)) (sym (add_response_failed d payload failed))
          (add_failure-Names d o f (status_step payload failed) h))
  | inr fine ↦
      subst (λ b. Names (add_response d payload) (next_maybe o (response_failure payload b)))
        (sym fine) (subst (λ e. Names e o) (sym (add_response_fine d payload fine)) h)
]

-- The failure of an event on its payload.
abbrev event_failure : Bool → Bytes → Option Failure
event_failure read payload =
    response_failure payload (read && leb_ℤ (pos 400) (parse_status payload).0)

pub add_event-Names :
    (d : Draft) (o : Option Failure) (ev : IoEvent)
    → IsBounded ev
    → Names d o
    → (d' : Draft) × (add_event d ev ≡ some d') × Names d' (next_maybe o (failure_of ev))
add_event-Names d o ev b h =
    let payload = take ev.payload_len ev.payload in
    let named = add_comm-Names d o (trim_nul ev.comm) h in
    elim (Bool-cases (ev.is_write == 0)) [
      | inl read ↦ (
        add_response (add_comm d (trim_nul ev.comm)) payload,
        add_event_read d ev b read,
        subst
            (λ r.
              Names (add_response (add_comm d (trim_nul ev.comm)) payload)
                (next_maybe o (event_failure r payload)))
            (sym read) (add_response-Names (add_comm d (trim_nul ev.comm)) o payload named),
      )
      | inr write ↦ (
        add_request (add_comm d (trim_nul ev.comm)) (parse_request_line payload),
        add_event_write d ev b write,
        subst
            (λ r.
              Names (add_request (add_comm d (trim_nul ev.comm)) (parse_request_line payload))
                (next_maybe o (event_failure r payload)))
            (sym write)
            (add_request-Names (add_comm d (trim_nul ev.comm)) o (parse_request_line payload)
              named),
      )
    ]
