-- ===== src/LocalCapture/Shown.antt =====
-- Which failures the payloads of the events show, read without the code's own parser (incident.go).
use bug_it.Base.{
  ℤ, pos, leb_ℤ, ◌≡◌, refl, ap, sym, ◌∙◌, Bool, true, false, ◌&&◌, List, [], ◌∷◌, ◌++◌, Option,
  none, some, ◌==◌, if◌then◌else◌, ltb, length, take, arith, Bool-cases, Option-cases, inl, inr,
}
use bug_it.Text.{Bytes, codes, crlf, has_prefix}
use bug_it.Text.Search.{cut}
use bug_it.Text.Trim.{fields, trim_space}
use bug_it.IoEvent.{IoEvent}
use bug_it.Replay.Summary.{shorten}
use bug_it.LocalCapture.{scan_int, status_word, parse_status, summarize_payload}
use bug_it.LocalCapture.Failure.{Failure, keep, failures}

abbrev pub second_word : List Bytes → Option Bytes
second_word [] = none
second_word (proto ∷ []) = none
second_word (proto ∷ word ∷ words) = some word

-- A line in 120 bytes.
abbrev pub in_short : Bytes → Bytes
in_short line = if ltb 120 (length line) then take 120 line ++ codes "..." else line

abbrev pub stated : Bytes → Bytes → Option Bytes → Option Failure
stated line rest none = none
stated line rest (some word) =
    if leb_ℤ (pos 400) (scan_int word)
    then some (record {
      step = in_short line;
      status = scan_int word;
      detail = trim_space (cut rest (crlf ++ crlf)).0;
    })
    else none

abbrev pub with_rest : Bytes → Option Bytes → Option Failure
with_rest line none = none
with_rest line (some rest) =
    stated line rest (if has_prefix line (codes "HTTP/") then second_word (fields line) else none)

-- The failure of a payload: its first line ends, starts with `HTTP/`, and its second word is a number of 400 or more.
abbrev pub shown_failure : Bytes → Option Failure
shown_failure payload = with_rest (cut payload crlf).0 (cut payload crlf).1

abbrev pub shown_failures : List IoEvent → List Failure
shown_failures [] = []
shown_failures (ev ∷ evs) =
    keep (if ev.is_write == 0 then shown_failure (take ev.payload_len ev.payload) else none)
      (shown_failures evs)

abbrev read_failure : Bytes → ℤ × Bytes → Option Failure
read_failure step (status, detail) =
    if leb_ℤ (pos 400) status
    then some (record { step = step; status = status; detail = detail })
    else none

-- The end of the code's parser, on the words of the line.
abbrev parsed : Bytes → Option ℤ → ℤ × Bytes
parsed rest none = (pos 0, [])
parsed rest (some status) = (status, trim_space (cut rest (crlf ++ crlf)).0)

words_same :
    (line rest : Bytes) (words : List Bytes)
    → read_failure (in_short line) (parsed rest (status_word words))
      ≡ stated line rest (second_word words)
unfolding status_word
words_same line rest [] = refl
words_same line rest (proto ∷ []) = refl
words_same line rest (proto ∷ word ∷ words) = refl

parse_status-rest :
    (payload rest : Bytes)
    → (cut payload crlf).1 ≡ some rest
    → has_prefix (cut payload crlf).0 (codes "HTTP/") ≡ true
    → parse_status payload ≡ parsed rest (status_word (fields (cut payload crlf).0))
unfolding parse_status
parse_status-rest payload rest e http =
    elim (Option-cases (status_word (fields (cut payload crlf).0))) [
      | inl k ↦ ground arith
      | inr (status, k) ↦ ground arith
    ]

parse_status-none :
    (payload : Bytes) → (cut payload crlf).1 ≡ none → (parse_status payload).0 ≡ pos 0
unfolding parse_status
parse_status-none payload e = ground arith

parse_status-other :
    (payload rest : Bytes)
    → (cut payload crlf).1 ≡ some rest
    → has_prefix (cut payload crlf).0 (codes "HTTP/") ≡ false
    → (parse_status payload).0 ≡ pos 0
unfolding parse_status
parse_status-other payload rest e other = ground arith

no_failure : (step : Bytes) (r : ℤ × Bytes) → r.0 ≡ pos 0 → read_failure step r ≡ none
no_failure step (status, detail) e = rw e refl

-- What the code's parser makes of a payload is what it shows.
shown_same :
    (payload : Bytes)
    → read_failure (summarize_payload payload) (parse_status payload) ≡ shown_failure payload
unfolding summarize_payload shorten
shown_same payload =
    let line = (cut payload crlf).0 in
    elim (Option-cases (cut payload crlf).1) [
      | inl e ↦
          no_failure _ (parse_status payload) (parse_status-none payload e)
          ∙ sym (ap (with_rest line) e)
      | inr (rest, e) ↦ elim (Bool-cases (has_prefix line (codes "HTTP/"))) [
        | inl http ↦
            ap (read_failure (in_short line)) (parse_status-rest payload rest e http)
            ∙ words_same line rest (fields line)
            ∙ sym (
                ap (with_rest line) e
                ∙ ap (λ b. stated line rest (if b then second_word (fields line) else none)) http)
        | inr other ↦
            no_failure _ (parse_status payload) (parse_status-other payload rest e other)
            ∙ sym (
                ap (with_rest line) e
                ∙ ap (λ b. stated line rest (if b then second_word (fields line) else none)) other)
      ]
    ]

event_same :
    (read : Bool) (payload : Bytes)
    → (if read && leb_ℤ (pos 400) (parse_status payload).0
        then some (record {
          step = summarize_payload payload;
          status = (parse_status payload).0;
          detail = (parse_status payload).1;
        })
        else none)
      ≡ (if read then shown_failure payload else none)
event_same true payload = shown_same payload
event_same false payload = refl

pub failures-shown_failures : (evs : List IoEvent) → failures evs ≡ shown_failures evs
failures-shown_failures [] = refl
failures-shown_failures (ev ∷ evs) =
    ap (λ o. keep o (failures evs)) (event_same (ev.is_write == 0) (take ev.payload_len ev.payload))
    ∙ ap (keep _) (failures-shown_failures evs)
