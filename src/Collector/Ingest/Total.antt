-- ===== src/Collector/Ingest/Total.antt =====
-- No client can make the collector panic (ingest.go, events.go).
use bug_it.Base.{
  ℕ, ◌≡◌, refl, inl, inr, List, [], ◌∷◌, ◌++◌, Option, none, some, arith, ◌==◌, take, Bool-cases,
}
use bug_it.Text.{Bytes}
use bug_it.IoEvent.{IoEvent, IsBounded, payload_of_within}
use bug_it.IoEvent.Wire.{to_native, to_native-IsBounded}
use bug_it.Collector.Vector.{observe}
use bug_it.Collector.Buffer.{add}
use bug_it.Collector.Trigger.{Trigger}
use bug_it.Collector.Trigger.Rules.{evaluate-total}
use bug_it.Collector.Ingest.{
  Service, merge_header, parse_vector_header, ingest_event, Received, message, eof, failure,
  StreamEnd, closed, failed, pending, stream_events,
}

-- A full event is merged, buffered and judged.
pub ingest_event-total :
    (s : Service) (evt : IoEvent) (node : Bytes) (now later : ℕ)
    → IsBounded evt
    → (r : Service × Option Trigger) × (ingest_event s evt node now later ≡ some r)
      × (r.0.buf ≡ add s.buf evt node now)
unfolding ingest_event parse_vector_header
ingest_event-total s evt node now later b =
    let (t, judged) = evaluate-total s.triggers evt node later b in
    elim (Bool-cases (evt.is_write == 0)) [
      | inl read ↦ (
        (
          record {
            buf = add s.buf evt node now;
            triggers = t.0;
            vector =
                observe (merge_header s.vector (take evt.payload_len evt.payload) node) node evt;
          },
          t.1,
        ),
        ground (arith, payload_of_within evt b),
        refl,
      )
      | inr other ↦ (
        (
          record {
            buf = add s.buf evt node now;
            triggers = t.0;
            vector = observe s.vector node evt;
          },
          t.1,
        ),
        ground arith,
        refl,
      )
    ]

-- A read is merged with its header before it is counted.
pub ingest_event-read :
    (s : Service) (evt : IoEvent) (node : Bytes) (now later : ℕ)
    → IsBounded evt
    → evt.is_write ≡ 0
    → (r : Service × Option Trigger) × (ingest_event s evt node now later ≡ some r)
      × (r.0.vector
          ≡ observe (merge_header s.vector (take evt.payload_len evt.payload) node) node evt)
unfolding ingest_event parse_vector_header
ingest_event-read s evt node now later b read =
    let (t, judged) = evaluate-total s.triggers evt node later b in
    (
      (
        record {
          buf = add s.buf evt node now;
          triggers = t.0;
          vector = observe (merge_header s.vector (take evt.payload_len evt.payload) node) node evt;
        },
        t.1,
      ),
      ground (arith, payload_of_within evt b),
      refl,
    )

-- Whatever messages arrive, in whatever state the service is, the handler of a stream does not panic.
pub stream_events-total :
    (s : Service) (msgs : List Received) (fired : List Trigger)
    → (r : Service × List Trigger × StreamEnd) × (stream_events s msgs fired ≡ some r)
unfolding stream_events
stream_events-total s [] fired = ((s, fired, pending), refl)
stream_events-total s (eof ∷ rest) fired = ((s, fired, closed), refl)
stream_events-total s (failure ∷ rest) fired = ((s, fired, failed), refl)
stream_events-total s (message m now later ∷ rest) fired =
    let (r, e, _) =
      ingest_event-total s (to_native (some m)) m.node_id now later (to_native-IsBounded m) in
    let (q, f) =
      stream_events-total r.0 rest (elim r.1 [ none ↦ fired | some t ↦ fired ++ t ∷ [] ]) in
    (q, rw e f)
