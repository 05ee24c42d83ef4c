-- ===== src/Collector/Ingest/Dangling.antt =====
-- Where the edge of a merged header leads (ingestEvent in ingest.go).
use mathlib.Core.List.{Mem}
use bug_it.Base.{ℕ, ◌≡◌, ◌≢◌, ap, sym, subst, ◌∙◌, Option, some, take}
use bug_it.Text.{Bytes}
use bug_it.IoEvent.{IoEvent, IsBounded}
use bug_it.VectorClock.{clock_text}
use bug_it.Collector.Trigger.{Trigger}
use bug_it.Collector.Vector.{Engine, observe, merge_remote}
use bug_it.Collector.Vector.Graph.{ids}
use bug_it.Collector.Vector.Dangling.{merge_remote-dangles}
use bug_it.Collector.Ingest.{Service, merge_read, read_header, merge_header, ingest_event}
use bug_it.Collector.Ingest.Total.{ingest_event-read}

-- The graph has the edge, and no node where it leads.
abbrev pub HasDangling : Bytes → Bytes → ℕ → Engine → Type 0
HasDangling remote local seq e =
    Mem (record { source = clock_text remote seq; target = clock_text local 0 }) e.edges
    × ¬ Mem (clock_text local 0) (ids e.nodes)

merge_header-some :
    (v : Engine) (payload remote local : Bytes) (seq : ℕ)
    → read_header payload ≡ some (remote, seq)
    → merge_header v payload local ≡ merge_remote v remote seq local
unfolding merge_header
merge_header-some v payload remote local seq h = ap (merge_read v local) h

-- Where the first event of a local node is a read with a length inside its payload and the header of a remote node,
-- `ingestEvent` does not panic, and the edge that is meant to lead to that event leads to `local:0`, which is no
-- node of the graph unless it was one before or is the remote clock itself.
pub ingest_event-HasDangling :
    (s : Service) (evt : IoEvent) (remote local : Bytes) (seq now later : ℕ)
    → IsBounded evt
    → evt.is_write ≡ 0
    → read_header (take evt.payload_len evt.payload) ≡ some (remote, seq)
    → s.vector.seq local ≡ 0
    → ¬ Mem (clock_text local 0) (ids s.vector.nodes)
    → clock_text local 0 ≢ clock_text remote seq
    → (r : Service × Option Trigger) × (ingest_event s evt local now later ≡ some r)
      × HasDangling remote local seq r.0.vector
ingest_event-HasDangling s evt remote local seq now later b read h zero_seq fresh ne =
    let (r, e, vector) = ingest_event-read s evt local now later b read in
    let merged = merge_header-some s.vector (take evt.payload_len evt.payload) remote local seq h in
    (
      r,
      e,
      subst (HasDangling remote local seq) (sym (vector ∙ ap (λ v. observe v local evt) merged))
          (merge_remote-dangles s.vector remote local seq evt zero_seq fresh ne),
    )
