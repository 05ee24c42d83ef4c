-- ===== src/LocalCapture.antt =====
-- dre-collector/pkg/localcapture/incident.go: what went wrong, in words, from the captured events.
pub mod Services
pub mod Failure
pub mod Rounds
pub mod Shown
pub mod Incident
pub mod Daemon
use bug_it.Base.{
  ℕ, suc, ℤ, pos, negsuc, ◌+◌, ◌-◌, ◌*◌, ◌^◌, Bool, true, false, not, ◌&&◌, ◌||◌, List, [], ◌∷◌,
  ◌++◌, Option, none, some, ltb, leb, ◌==◌, if◌then◌else◌, ◌>>=◌, length, leb_ℤ,
}
use bug_it.Text.{Bytes, codes, crlf, bytes_eq, has_prefix}
use bug_it.Text.Search.{contains, cut}
use bug_it.Text.Trim.{fields, trim_space, trim_nul}
use bug_it.Text.Decimal.{format}
use bug_it.IoEvent.{IoEvent, payload_of}
use bug_it.Replay.Summary.{shorten, or_else}

-- `parseHTTPRequestLine`, on the words of the line.
unfoldable pub request_words : List Bytes → Bytes × Bytes
request_words [] = ([], [])
request_words (method ∷ []) = ([], [])
request_words (method ∷ path ∷ parts) = (method, path)

unfoldable pub parse_request_line : Bytes → Bytes × Bytes
parse_request_line payload = request_words (fields (cut payload crlf).0)

-- The digits at the start, read behind `n`.
unfoldable pub scan_digits : ℕ → Bytes → ℕ
scan_digits n [] = n
scan_digits n (c ∷ s) = if leb b'0' c && leb c b'9' then scan_digits (n * 10 + (c - b'0')) s else n

-- A number that `int` holds; another leaves the zero that was there.
unfoldable pub fit_int : Bool → ℕ → ℤ
fit_int true n = if leb n (2 ^ 63) then (if n == 0 then pos 0 else negsuc (n - 1)) else pos 0
fit_int false n = if ltb n (2 ^ 63) then pos n else pos 0

-- `fmt.Sscanf(s, "%d", &status)` with a status of 0 before.
unfoldable pub scan_int : Bytes → ℤ
scan_int [] = pos 0
scan_int (c ∷ s) =
    if c == b'-'
    then fit_int true (scan_digits 0 s)
    else if c == b'+'
    then fit_int false (scan_digits 0 s)
    else fit_int false (scan_digits 0 (c ∷ s))

-- The status of the words of a status line.
unfoldable pub status_word : List Bytes → Option ℤ
status_word [] = none
status_word (proto ∷ []) = none
status_word (proto ∷ status ∷ parts) = some (scan_int status)

-- `parseHTTPStatus`
unfoldable pub parse_status : Bytes → ℤ × Bytes
parse_status payload = elim ((cut payload crlf).1) [
  | none ↦ (pos 0, [])
  | some rest ↦
      let line = (cut payload crlf).0 in
      if not (has_prefix line (codes "HTTP/"))
      then (pos 0, [])
      else elim (status_word (fields line)) [
        | none ↦ (pos 0, [])
        | some status ↦ (status, trim_space (cut rest (crlf ++ crlf)).0)
      ]
]

-- `summarizePayload`
unfoldable pub summarize_payload : Bytes → Bytes
summarize_payload payload = shorten 120 (cut payload crlf).0

-- What the loop of `BuildIncident` gathers; a name that is missing in the map reads as false.
pub record Draft : Type 0 where
  pub failed_step : Bytes
  pub root_cause : Bytes
  pub title : Bytes
  pub services : Bytes → Bool

unfoldable pub blank : Draft
blank = record { failed_step = []; root_cause = []; title = []; services = λ s. false }

-- `services[name] = true`
unfoldable pub add_service : Draft → Bytes → Draft
add_service d name = record d { services = λ s. if bytes_eq s name then true else d.services s }

unfoldable pub add_comm : Draft → Bytes → Draft
add_comm d [] = d
add_comm d (c ∷ s) = add_service d (c ∷ s)

-- A request line is kept under its method and path.
unfoldable pub add_request : Draft → Bytes × Bytes → Draft
add_request d ([], path) = d
add_request d (c ∷ method, path) = add_service d (c ∷ method ++ b' ' ∷ path)

-- `%d` on an `int`.
unfoldable pub format_int : ℤ → Bytes
format_int (pos n) = format n
format_int (negsuc n) = b'-' ∷ format (suc n)

unfoldable pub title_of : ℤ → Bytes
title_of status =
    if leb_ℤ (pos 500) status
    then codes "Server error: HTTP " ++ format_int status
    else codes "Client error: HTTP " ++ format_int status

abbrev pub is_blank_text : Bytes → Bool
is_blank_text [] = true
is_blank_text (c ∷ s) = false

-- A failure replaces nothing, or anything if it is the server's.
unfoldable pub add_failure : Draft → Bytes → ℤ → Bytes → Draft
add_failure d step status detail =
    if is_blank_text d.failed_step || leb_ℤ (pos 500) status
    then record d { failed_step = step; root_cause = detail; title = title_of status }
    else d

-- A read with the status of an error is a failure.
unfoldable pub add_response : Draft → Bytes → Draft
add_response d payload =
    let (status, detail) = parse_status payload in
    if leb_ℤ (pos 400) status then add_failure d (summarize_payload payload) status detail else d

-- A round of the loop; `none` is a panic.
unfoldable pub add_event : Draft → IoEvent → Option Draft
add_event d ev = do
  payload ← payload_of ev
  let named = add_comm d (trim_nul ev.comm)
  if not (ev.is_write == 0)
      then some (add_request named (parse_request_line payload))
      else some (add_response named payload)

unfoldable pub add_events : Draft → List IoEvent → Option Draft
add_events d [] = some d
add_events d (ev ∷ evs) = add_event d ev >>= λ d'. add_events d' evs

-- The incident; its services are those that are true, in the order of the map, which is not fixed.
pub record Report : Type 0 where
  pub title : Bytes
  pub summary : Bytes
  pub root_cause : Bytes
  pub services : Bytes → Bool
  pub failed_step : Bytes

-- The end of `BuildIncident`, on the number of the events.
unfoldable pub report_of : ℕ → Draft → Report
report_of count d =
    let failed_step = or_else d.failed_step (codes "See highlighted error event in timeline") in
    record {
      title = or_else d.title (codes "Captured incident");
      summary = codes "Local capture with " ++ format count ++ codes " events. " ++ failed_step;
      root_cause = or_else d.root_cause (codes "See event timeline for failing request/response");
      services = λ s. d.services s && not (contains s (b' ' ∷ []));
      failed_step = failed_step;
    }

-- `BuildIncident`; the inner `none` is nil.
unfoldable pub build_incident : List IoEvent → Option (Option Report)
build_incident [] = some none
build_incident (ev ∷ evs) =
    add_events blank (ev ∷ evs) >>= λ d. some (some (report_of (length (ev ∷ evs)) d))
