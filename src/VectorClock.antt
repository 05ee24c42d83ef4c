-- ===== src/VectorClock.antt =====
-- pkg/vectorclock/clock.go: one counter for each node, and the header that carries it.
pub mod Inject
use bug_it.Base.{
  ℕ, ◌+◌, ◌%◌, ◌^◌, Bool, true, false, not, ◌&&◌, ◌||◌, List, [], ◌∷◌, ◌++◌, Option, none, some,
  ltb, ◌==◌, if◌then◌else◌, length, take, drop,
}
use bug_it.Text.{Bytes, codes, crlf, bytes_eq}
use bug_it.Text.Search.{index}
use bug_it.Text.Decimal.{format}

-- `HeaderName`
abbrev pub header_name : Bytes
header_name = codes "X-DRE-Vector-Clock"

-- A `map[string]uint64`: a key that is missing reads as 0.
abbrev pub Counters : Type 0
Counters = Bytes → ℕ

-- `seq[node]++`, in `uint64`.
unfoldable pub increment : Counters → Bytes → Counters
unfolding bytes_eq
increment seq node other = if bytes_eq other node then (seq node + 1) % 2 ^ 64 else seq other

pub record Clock : Type 0 where
  pub seq : Counters

-- `New`
unfoldable pub new : Clock
new = record { seq = λ _. 0 }

-- The text `node:seq`.
unfoldable pub clock_text : Bytes → ℕ → Bytes
clock_text node n = node ++ b':' ∷ format n

-- `InjectHeader` returns the header's value and the counted clock.
unfoldable pub inject_header : Clock → Bytes → Bytes × Clock
inject_header e node =
    let seq = increment e.seq node in (clock_text node (seq node), record { seq = seq })

-- `payload[0] != 'G' && payload[0] != 'P' && payload[0] != 'H'`, of a payload that is not empty.
unfoldable pub is_http_start : Bytes → Bool
is_http_start [] = false
is_http_start (c ∷ s) = c == b'G' || c == b'P' || c == b'H'

-- The header line with its end.
unfoldable pub header_line : Bytes → Bytes
header_line value = header_name ++ b':' ∷ b' ' ∷ [] ++ value ++ crlf

-- The counter has moved before the end of the first line is looked for.
unfoldable pub splice : Bytes → Bytes → Bytes
splice payload header = elim (index payload crlf) [
  | none ↦ payload
  | some i ↦ take (i + 2) payload ++ header ++ drop (i + 2) payload
]

-- `MaybeInjectHTTP`; `none` is the nil engine.
unfoldable pub maybe_inject_http : Bytes → Bytes → Option Clock → Bytes × Option Clock
maybe_inject_http payload node none = (payload, none)
maybe_inject_http payload node (some e) =
    if ltb (length payload) 12
    then (payload, some e)
    else if not (is_http_start payload)
    then (payload, some e)
    else let (value, e') = inject_header e node in (splice payload (header_line value), some e')
