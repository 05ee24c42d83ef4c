-- ===== src/Collector/Vector/Dangling.antt =====
-- A remote clock is merged before the local event is counted (ingestEvent in ingest.go, MergeRemote and
-- Observe in vector.go).
use mathlib.Core.HLevel.{⊥_prop}
use mathlib.Core.Logic.Or
use mathlib.Core.List.{
  Mem, mem-append, mem-append_left, mem-append_right, mem-cons, mem-cons_self, not-mem-nil,
  map-append,
}
use bug_it.Base.{ℕ, ◌≡◌, ◌≢◌, List, [], ◌∷◌, ◌++◌, arith}
use bug_it.Text.{Bytes}
use bug_it.IoEvent.{IoEvent}
use bug_it.VectorClock.{clock_text, increment}
use bug_it.VectorClock.Inject.{increment_self}
use bug_it.Collector.Vector.{VectorNode, Engine, observe, merge_remote}
use bug_it.Collector.Vector.Header.{parse_header-clock_text}
use bug_it.Collector.Vector.Graph.{ids}

grow-not-Mem :
    {a : Bytes} (ns : List VectorNode) (n : VectorNode)
    → ¬ Mem a (ids ns)
    → a ≢ n.id
    → ¬ Mem a (ids (ns ++ n ∷ []))
grow-not-Mem {a} ns n h ne m =
    let split : Mem a (ids ns ++ n.id ∷ []) =
      rw (map-append (λ (k : VectorNode). k.id) ns (n ∷ [])) at m in
    Or.elim ⊥_prop (mem-append.0 split) h
      (λ k. Or.elim ⊥_prop (mem-cons.0 k) ne (λ z. not-mem-nil z))

-- A merge in front of the local node's first event: its edge leads to `local:0`.
pub merge_remote-dangles :
    (e : Engine) (remote local : Bytes) (seq : ℕ) (evt : IoEvent)
    → e.seq local ≡ 0
    → ¬ Mem (clock_text local 0) (ids e.nodes)
    → clock_text local 0 ≢ clock_text remote seq
    → let e' = observe (merge_remote e remote seq local) local evt in
      Mem (record { source = clock_text remote seq; target = clock_text local 0 }) e'.edges
      × ¬ Mem (clock_text local 0) (ids e'.nodes)
unfolding observe merge_remote
merge_remote-dangles e remote local seq evt zero_seq fresh ne =
    let first : increment e.seq local local ≡ 1 = omega (arith, increment_self e.seq local) in
    let counted : clock_text local 0 ≢ clock_text local (increment e.seq local local) = λ same. cc (
      parse_header-clock_text local 0 (omega arith),
      parse_header-clock_text local 1 (omega arith),
      same,
      first,
    ) in
    (
      rw zero_seq (mem-append_left _ (mem-append_right e.edges mem-cons_self)),
      grow-not-Mem _ _ (grow-not-Mem e.nodes _ fresh ne) counted,
    )
