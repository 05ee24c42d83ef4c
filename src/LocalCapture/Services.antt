-- ===== src/LocalCapture/Services.antt =====
-- dre-collector/pkg/localcapture/replayconfig.go: the services that a replay listens for, from the hosts of
-- the captured events.
pub mod Ports
use bug_it.Base.{
  ℕ, suc, ℤ, pos, negsuc, eq_ℤ, ◌+◌, ◌-◌, ◌*◌, ◌^◌, Bool, true, false, not, ◌&&◌, ◌||◌, List, [],
  ◌∷◌, ◌++◌, map, Option, none, some, ltb, leb, ◌==◌, if◌then◌else◌, ◌>>=◌, take, drop,
}
use bug_it.Text.{Bytes, codes, bytes_eq, has_prefix, to_lower}
use bug_it.Text.Search.{last_index_byte}
use bug_it.Text.Trim.{trim_space, trim_left}
use bug_it.IoEvent.{IoEvent, payload_of}
use bug_it.LocalCapture.{scan_digits, format_int}

-- `bytes.Split(payload, "\r\n")`, with the line that is being read.
abbrev pub first_line_to : Bytes → List Bytes → List Bytes
first_line_to c [] = c ∷ []
first_line_to c (line ∷ lines) = (c ++ line) ∷ lines

unfoldable pub split_lines : Bytes → List Bytes
split_lines [] = [] ∷ []
split_lines (c ∷ []) = (c ∷ []) ∷ []
split_lines (c ∷ d ∷ s) =
    let behind = split_lines s in
    let next = split_lines (d ∷ s) in
    if c == 13 && d == 10 then [] ∷ behind else first_line_to (c ∷ []) next

-- The loop of `parseHTTPHost`.
unfoldable pub host_of_lines : List Bytes → Bytes
host_of_lines [] = []
host_of_lines (line ∷ lines) =
    if has_prefix (to_lower line) (codes "host:")
    then trim_space (drop 5 line)
    else host_of_lines lines

unfoldable pub parse_http_host : Bytes → Bytes
parse_http_host payload = host_of_lines (split_lines payload)

-- `fmt.Sscanf(s, "%d", &port)` with a port before, which stays where no number stands that `int` holds.
unfoldable pub scan_unsigned : ℤ → Bool → Bytes → ℤ
scan_unsigned before minus [] = before
scan_unsigned before minus (c ∷ s) =
    let n = scan_digits 0 (c ∷ s) in
    if not (leb b'0' c && leb c b'9')
    then before
    else if minus
    then (if not (leb n (2 ^ 63)) then before else if n == 0 then pos 0 else negsuc (n - 1))
    else if ltb n (2 ^ 63)
    then pos n
    else before

unfoldable pub scan_port : ℤ → Bytes → ℤ
scan_port before [] = before
scan_port before (c ∷ s) =
    if c == b'-'
    then scan_unsigned before true s
    else if c == b'+'
    then scan_unsigned before false s
    else scan_unsigned before false (c ∷ s)

-- `splitServiceHost`: the text before the last colon, and the number behind it.
unfoldable pub split_service_host : Bytes → Bytes × ℤ
split_service_host host = elim (last_index_byte host b':') [
  | none ↦ (host, pos 80)
  | some i ↦ (take i host, scan_port (pos 80) (trim_left (drop (suc i) host)))
]

-- `fmtHostPort`
unfoldable pub fmt_host_port : Bytes → ℤ → Bytes
fmt_host_port host port = if eq_ℤ port (pos 80) then host else host ++ b':' ∷ format_int port

-- `sanitizeServiceName`
unfoldable pub sanitize_service_name : Bytes → Bytes
sanitize_service_name [] = codes "service"
sanitize_service_name (c ∷ s) = map (λ d. if d == b'.' || d == b':' then b'-' else d) (c ∷ s)

-- `replayService`; the protocol is always `http`.
pub record ReplayService : Type 0 where
  pub name : Bytes
  pub local_port : ℕ
  pub remote_host : Bytes
  pub protocol : Bytes

-- `svcKey`, and `==` on it.
abbrev pub Key : Type 0
Key = Bytes × ℤ

abbrev pub key_eq : Key → Key → Bool
key_eq a b = bytes_eq a.0 b.0 && eq_ℤ a.1 b.1

-- `seen[key] = true`
abbrev pub see : (Key → Bool) → Key → Key → Bool
see seen key k = if key_eq k key then true else seen k

-- The service that a key is given.
unfoldable pub service_of : Key → ℕ → ReplayService
service_of key port = record {
  name = sanitize_service_name key.0;
  local_port = port;
  remote_host = fmt_host_port key.0 key.1;
  protocol = codes "http";
}

-- The loop over the hosts of the events, where an event without a host has the empty one: the keys in the
-- order of the services, with their ports.
unfoldable pub keyed_services : (Key → Bool) → ℕ → List Bytes → List (Key × ReplayService)
keyed_services seen port [] = []
keyed_services seen port ([] ∷ hosts) = keyed_services seen port hosts
keyed_services seen port ((c ∷ host) ∷ hosts) =
    let key = split_service_host (c ∷ host) in
    let known = keyed_services seen port hosts in
    let fresh = (key, service_of key port) ∷ keyed_services (see seen key) (suc port) hosts in
    if seen key then known else fresh

-- The hosts of the events; `none` is a panic.
unfoldable pub hosts_of : List IoEvent → Option (List Bytes)
hosts_of [] = some []
hosts_of (ev ∷ evs) = do
  payload ← payload_of ev
  hosts ← hosts_of evs
  some (parse_http_host payload ∷ hosts)

-- The services of `WriteReplayConfig`, before they are sorted by their names.
unfoldable pub services : List IoEvent → Option (List (Key × ReplayService))
services events = do hosts ← hosts_of events; some (keyed_services (λ k. false) 18081 hosts)
