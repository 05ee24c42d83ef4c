-- ===== src/Replay/Summary.antt =====
-- dre-replay-cli/internal/summary/summary.go and dre-replay-cli/internal/delve/sync.go: what is shown of
-- the recorded events, and of the process of an event.
pub mod Rows
use bug_it.Base.{
  ℕ, suc, ◌+◌, ◌/◌, ◌%◌, ◌^◌, Bool, true, false, not, ◌&&◌, ◌||◌, List, [], ◌∷◌, ◌++◌, Option, none,
  some, ◌==◌, ltb, if◌then◌else◌, length, take, drop,
}
use bug_it.Text.{Bytes, codes, crlf, bytes_eq, has_prefix}
use bug_it.Text.Search.{contains, cut}
use bug_it.Text.Trim.{trim_space, trim_nul, fields}
use bug_it.IoEvent.{IoEvent}

-- `EventSummary`
pub record EventSummary : Type 0 where
  pub index : ℕ
  pub service : Bytes
  pub direction : Bytes
  pub summary : Bytes
  pub payload_preview : Bytes
  pub payload : Bytes
  pub is_error : Bool
  pub timestamp_ns : ℕ
  pub pid : ℕ
  pub tid : ℕ
  pub comm : Bytes

abbrev pub max_payload_bytes : ℕ
max_payload_bytes = 2048

-- The payload; a length past the array counts as the array's.
unfoldable pub shown_payload : IoEvent → Bytes
shown_payload e =
    take (if ltb (length e.payload) e.payload_len then length e.payload else e.payload_len)
      e.payload

-- `strings.TrimSpace(strings.TrimRight(comm, "\x00"))`
unfoldable pub comm_text : IoEvent → Bytes
comm_text e = trim_space (trim_nul e.comm)

-- A text past the limit ends in dots.
unfoldable pub shorten : ℕ → Bytes → Bytes
shorten limit s = if ltb limit (length s) then take limit s ++ codes "..." else s

-- `strings.ReplaceAll(s, "\r\n", " ")`; `skip` is the rest of a pattern that was replaced.
unfoldable pub replace_crlf : Bytes → Bytes
replace_crlf [] = []
replace_crlf (c ∷ []) = c ∷ []
replace_crlf (c ∷ d ∷ s) =
    let behind = replace_crlf s in
    let next = replace_crlf (d ∷ s) in if c == 13 && d == 10 then b' ' ∷ behind else c ∷ next

-- The first line says that the server failed.
unfoldable pub is_error_line : Bytes → Bool
is_error_line first =
    contains first (codes " 500 ")
    || contains first (codes " 502 ")
    || contains first (codes " 503 ")
    || contains first (codes " 5")

-- The methods that a summary shows with their path.
unfoldable pub is_method : Bytes → Bool
is_method word =
    bytes_eq word (codes "GET")
    || bytes_eq word (codes "POST")
    || bytes_eq word (codes "PUT")
    || bytes_eq word (codes "DELETE")

-- The summary of a first line that is no status line.
unfoldable pub line_summary : Bytes → List Bytes → Bytes
line_summary first [] = shorten 60 first
line_summary first (word ∷ []) = shorten 60 first
line_summary first (word ∷ path ∷ parts) =
    if is_method word then word ++ b' ' ∷ path else shorten 60 first

-- `httpSummary`; `strings.Split` gives one line at least, so the second split is never made.
unfoldable pub http_summary : Bytes → Bytes × Bool
http_summary [] = (codes "(empty)", false)
http_summary (c ∷ s) =
    let first = (cut (c ∷ s) crlf).0 in
    let shown =
      if has_prefix first (codes "HTTP/1.") then first else line_summary first (fields first) in
    (shown, is_error_line first)

unfoldable pub or_else : Bytes → Bytes → Bytes
or_else [] other = other
or_else (c ∷ s) other = c ∷ s

-- A row of `SummarizeEvents`.
unfoldable pub summarize_event : ℕ → IoEvent → EventSummary
summarize_event i e =
    let payload = shown_payload e in
    let svc = or_else (comm_text e) (codes "unknown") in
    let (sum, is_err) = http_summary payload in
    record {
      index = i;
      service = svc;
      direction = if e.is_write == 0 then codes "in" else codes "out";
      summary = sum;
      payload_preview = replace_crlf (shorten 120 payload);
      payload = shorten max_payload_bytes payload;
      is_error = is_err;
      timestamp_ns = e.timestamp_ns;
      pid = e.pid_tgid / 2 ^ 32 % 2 ^ 32;
      tid = e.pid_tgid % 2 ^ 32;
      comm = svc;
    }

-- The loop of `SummarizeEvents`, from the index `i` on: a scheduler marker has no row.
unfoldable pub summarize_from : ℕ → List IoEvent → List EventSummary
summarize_from i [] = []
summarize_from i (e ∷ es) =
    let rest = summarize_from (suc i) es in
    if e.is_write == 2 then rest else summarize_event i e ∷ rest

-- `SummarizeEvents`
unfoldable pub summarize_events : List IoEvent → List EventSummary
summarize_events events = summarize_from 0 events

-- `Correlation`
pub record Correlation : Type 0 where
  pub index : ℕ
  pub pid : ℕ
  pub tid : ℕ
  pub comm : Bytes
  pub service : Bytes
  pub timestamp_ns : ℕ

-- An entry of the map of `BuildCorrelations`.
unfoldable pub correlation_of : EventSummary → Correlation
correlation_of e = record {
  index = e.index;
  pid = e.pid;
  tid = e.tid;
  comm = e.comm;
  service = e.service;
  timestamp_ns = e.timestamp_ns;
}

-- The loop of `BuildCorrelations`, on the map `out`: a later row of an index replaces an earlier one.
unfoldable pub add_correlations :
    (ℕ → Option Correlation) → List EventSummary → ℕ → Option Correlation
add_correlations out [] = out
add_correlations out (e ∷ es) =
    add_correlations (λ i. if i == e.index then some (correlation_of e) else out i) es

-- `BuildCorrelations`
unfoldable pub build_correlations : List EventSummary → ℕ → Option Correlation
build_correlations events = add_correlations (λ i. none) events

-- An event's part of `FlowDescription`, where it has one.
unfoldable pub flow_label : IoEvent → Option Bytes
flow_label e =
    let payload = shown_payload e in
    let (sum, is_err) = http_summary payload in
    let label = comm_text e ++ b' ' ∷ sum in
    if e.is_write == 2 || length payload == 0
    then none
    else some (if is_err then label ++ codes " [ERROR]" else label)

-- The labels that `FlowDescription` joins with arrows.
unfoldable pub flow_labels : List IoEvent → List Bytes
flow_labels [] = []
flow_labels (e ∷ es) = elim (flow_label e) [
  | none ↦ flow_labels es
  | some label ↦ label ∷ flow_labels es
]
