-- ===== src/Collector/Snapshot/Nodes.antt =====
-- The nodes that a manifest names (snapshot.go).
use bug_it.Base.{
  ℕ, suc, ◌≡◌, refl, ap, ◌∙◌, Bool, false, not, ◌&&◌, ◌||◌, List, [], ◌∷◌, if◌then◌else◌, arith,
  Bool-cases, inl, inr,
}
use bug_it.Text.{Bytes, bytes_eq, bytes_eq_sound}
use bug_it.Collector.Buffer.{Event}
use bug_it.Collector.Snapshot.{unseen_nodes, unique_nodes, is_empty, mark}

-- How often a list has a name.
abbrev pub count : Bytes → List Bytes → ℕ
count n [] = 0
count n (m ∷ ms) = let rest = count n ms in if bytes_eq n m then suc rest else rest

-- Some event was captured on the node.
abbrev pub has_event : Bytes → List Event → Bool
has_event n [] = false
has_event n (ev ∷ events) = bytes_eq n ev.node_id || has_event n events

count_unseen :
    (n : Bytes) (seen : Bytes → Bool) (events : List Event)
    → count n (unseen_nodes seen events)
      ≡ (if has_event n events && not (is_empty n) && not (seen n) then 1 else 0)
unfolding unseen_nodes
count_unseen n seen [] = refl
count_unseen n seen (ev ∷ events) = elim (Bool-cases (bytes_eq n ev.node_id)) [
  | inl same ↦
      let e = bytes_eq_sound n ev.node_id same in
      let empty = ap is_empty e in
      let known = ap seen e in
      let skipped = count_unseen n seen events in
      let added = count_unseen n (mark seen ev.node_id) events in ground arith
  | inr other ↦
      let skipped = count_unseen n seen events in
      let added = count_unseen n (mark seen ev.node_id) events in ground arith
]

-- The manifest names each node that has an event once, and no other; the empty name is left out.
pub unique_nodes-count :
    (n : Bytes) (events : List Event)
    → count n (unique_nodes events) ≡ (if has_event n events && not (is_empty n) then 1 else 0)
unfolding unique_nodes
unique_nodes-count n events = count_unseen n (λ m. false) events ∙ ground arith
