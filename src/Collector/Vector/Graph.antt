-- ===== src/Collector/Vector/Graph.antt =====
-- The shape of the causal graph (vector.go): every edge leaves a node of the graph.
use mathlib.Core.List.{
  Mem, mem-append_left, mem-append_right, mem-cons_self, mem-cons_of_mem, map-append,
}
use bug_it.Base.{
  ℕ, ◌≡◌, ap, ◌∙◌, inl, inr, subst, List, [], ◌∷◌, ◌++◌, map, some, arith, All, All-append,
  Option-cases,
}
use bug_it.Text.{Bytes}
use bug_it.IoEvent.{IoEvent}
use bug_it.VectorClock.{clock_text, increment}
use bug_it.Collector.Vector.{VectorNode, VectorEdge, Engine, last, link, observe, merge_remote}

-- The identifiers of a graph's nodes.
abbrev pub ids : List VectorNode → List Bytes
ids = map λ n. n.id

-- Every edge leaves a node of the graph.
abbrev pub IsRooted : Engine → Type 0
IsRooted e = All (λ d. Mem d.source (ids e.nodes)) e.edges

All-mono :
    {P Q : VectorEdge → Type 0} (es : List VectorEdge)
    → ((d : VectorEdge) → P d → Q d)
    → All P es
    → All Q es
All-mono [] f h = tt
All-mono (d ∷ es) f (p, h) = (f d p, All-mono es f h)

last-Mem : (ns : List VectorNode) (n : VectorNode) → last ns ≡ some n → Mem n.id (ids ns)
unfolding last
last-Mem [] n e = cc
last-Mem (m ∷ ns) n e = elim (Option-cases (last ns)) [
  | inl h ↦
      let same : m ≡ n = ground arith in subst (λ k. Mem k.id (ids (m ∷ ns))) same mem-cons_self
  | inr (k, h) ↦
      let same : k ≡ n = ground arith in mem-cons_of_mem m.id (last-Mem ns n (h ∙ ap some same))
]

-- A new node at the end keeps the edges rooted.
grow-IsRooted :
    (ns : List VectorNode) (n : VectorNode) (es : List VectorEdge)
    → All (λ d. Mem d.source (ids ns)) es
    → All (λ d. Mem d.source (ids (ns ++ n ∷ []))) es
grow-IsRooted ns n es h =
    All-mono es
      (λ d m. rw (map-append (λ (k : VectorNode). k.id) ns (n ∷ [])) (mem-append_left _ m)) h

link-IsRooted :
    (ns : List VectorNode) (n : VectorNode)
    → All (λ d. Mem d.source (ids (ns ++ n ∷ []))) (link (last ns) n.id)
unfolding link
link-IsRooted ns n = elim (Option-cases (last ns)) [
  | inl h ↦ rw h tt
  | inr (k, h) ↦
      rw (h, link)
        (
          rw (map-append (λ (k : VectorNode). k.id) ns (n ∷ []))
              (mem-append_left _ (last-Mem ns k h)),
          tt,
        )
]

-- Observing an event keeps every edge rooted.
pub observe-IsRooted :
    (e : Engine) (node : Bytes) (evt : IoEvent) → IsRooted e → IsRooted (observe e node evt)
unfolding observe
observe-IsRooted e node evt h =
    let n : VectorNode = record {
      id = clock_text node (increment e.seq node node);
      node_id = node;
      sequence = increment e.seq node node;
      timestamp = evt.timestamp_ns;
    } in
    All-append _ e.edges (link (last e.nodes) n.id) (grow-IsRooted e.nodes n e.edges h)
      (link-IsRooted e.nodes n)

-- Merging a remote clock keeps every edge rooted: each leaves a node of the graph.
pub merge_remote-IsRooted :
    (e : Engine) (remote : Bytes) (seq : ℕ) (local : Bytes)
    → IsRooted e
    → IsRooted (merge_remote e remote seq local)
unfolding merge_remote
merge_remote-IsRooted e remote seq local h =
    let n : VectorNode = record {
      id = clock_text remote seq;
      node_id = remote;
      sequence = seq;
      timestamp = 0;
    } in
    All-append _ e.edges _ (grow-IsRooted e.nodes n e.edges h) (
      rw (map-append (λ (k : VectorNode). k.id) e.nodes (n ∷ []))
          (mem-append_right (ids e.nodes) mem-cons_self),
      tt,
    )
