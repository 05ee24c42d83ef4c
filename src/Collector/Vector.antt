-- ===== src/Collector/Vector.antt =====
-- dre-collector/internal/vector/vector.go: the causal graph of the observed events.
pub mod Header
pub mod Graph
pub mod Dangling
use bug_it.Base.{
  ℕ, ◌+◌, ◌-◌, ◌*◌, ◌%◌, ◌^◌, Bool, true, false, ◌||◌, List, [], ◌∷◌, ◌++◌, Option, none, some, ltb,
  if◌then◌else◌, take, drop, ◌>>=◌,
}
use bug_it.Text.{Bytes}
use bug_it.Text.Search.{last_index_byte}
use bug_it.IoEvent.{IoEvent}
use bug_it.VectorClock.{Counters, increment, clock_text, Clock, inject_header, maybe_inject_http}
use bug_it.VectorClock

-- `manifest.VectorNode`
pub record VectorNode : Type 0 where
  pub id : Bytes
  pub node_id : Bytes
  pub sequence : ℕ
  pub timestamp : ℕ

-- `manifest.VectorEdge`
pub record VectorEdge : Type 0 where
  pub source : Bytes
  pub target : Bytes

pub record Engine : Type 0 where
  pub clock : Clock
  pub seq : Counters
  pub nodes : List VectorNode
  pub edges : List VectorEdge

-- `New`
unfoldable pub new : Engine
unfolding VectorClock.new
new = record { clock = VectorClock.new; seq = λ _. 0; nodes = []; edges = [] }

-- `nodes[len(nodes)-1]` before the new node is appended, if there was one.
unfoldable pub last : List VectorNode → Option VectorNode
last [] = none
last (n ∷ ns) = elim (last ns) [ none ↦ some n | some m ↦ some m ]

-- The edge from the node observed before, if there is one.
unfoldable pub link : Option VectorNode → Bytes → List VectorEdge
link none id = []
link (some prev) id = record { source = prev.id; target = id } ∷ []

-- `Observe`
unfoldable pub observe : Engine → Bytes → IoEvent → Engine
observe e node evt =
    let seq = increment e.seq node in
    let id = clock_text node (seq node) in
    record e {
      seq = seq;
      nodes =
          e.nodes
          ++ record { id = id; node_id = node; sequence = seq node; timestamp = evt.timestamp_ns }
            ∷ [];
      edges = e.edges ++ link (last e.nodes) id;
    }

-- `InjectHeader` of the engine's own clock.
unfoldable pub inject : Engine → Bytes → Bytes × Engine
inject e node =
    let (value, clock) = inject_header e.clock node in (value, record e { clock = clock })

-- `splitClock`: the parts before and after the last colon, if there is one.
unfoldable pub split_clock : Bytes → Option (Bytes × Bytes)
split_clock v = elim (last_index_byte v b':') [
  | none ↦ none
  | some i ↦ some (take i v, drop (i + 1) v)
]

-- The digits are added up in `uint64`, which wraps.
unfoldable pub parse_digits : Bytes → ℕ → Option ℕ
parse_digits [] s = some s
parse_digits (c ∷ digits) s =
    let rest = parse_digits digits ((s * 10 + (c - b'0')) % 2 ^ 64) in
    if ltb c b'0' || ltb b'9' c then none else rest

-- `ParseHeader`; `none` is `ok == false`.
unfoldable pub parse_header : Bytes → Option (Bytes × ℕ)
parse_header value = do
  (node, digits) ← split_clock value
  s ← parse_digits digits 0
  some (node, s)

-- `MergeRemote`
unfoldable pub merge_remote : Engine → Bytes → ℕ → Bytes → Engine
merge_remote e remote_node seq local_node =
    let remote_id = clock_text remote_node seq in
    let local_id = clock_text local_node (e.seq local_node) in
    record e {
      nodes =
          e.nodes
          ++ record { id = remote_id; node_id = remote_node; sequence = seq; timestamp = 0 } ∷ [];
      edges = e.edges ++ record { source = remote_id; target = local_id } ∷ [];
    }

-- `Graph` copies both lists.
unfoldable pub graph : Engine → List VectorNode × List VectorEdge
graph e = (e.nodes, e.edges)
