-- ===== src/Examples/Collecting.antt =====
-- The collector on concrete inputs.
use mathlib.Core.List.{not-mem-nil}
use bug_it.Base.{
  ℕ, ◌≡◌, ◌≤◌, ap, ◌∙◌, Option, length, refl, List, [], ◌∷◌, ◌++◌, some, arith, replicate, copy,
  slice_to, true,
}
use bug_it.Text.{Bytes, bytes_eq, codes, crlf, has_prefix}
use bug_it.Text.Search.{index, contains}
use bug_it.IoEvent.{payload_of, zeros, max_payload_len}
use bug_it.Text.Decimal.{format}
use bug_it.Capture.{fill_event}
use bug_it.VectorClock.{splice, header_line, clock_text}
use bug_it.Collector.Vector
use bug_it.Collector.Vector.{parse_header, observe, merge_remote, VectorEdge}
use bug_it.Collector.Ingest.Dangling.{HasDangling, ingest_event-HasDangling}
use bug_it.Collector.Buffer
use bug_it.Collector.Buffer.{Event, RollingBuffer}
use bug_it.Collector.Buffer.Window.{add_all, end_time, recent, add_all-recent}
use bug_it.Collector.Trigger
use bug_it.Collector.Trigger.{
  Trigger, TriggerType, http_5xx, evaluate, manual, fire_manual, fire, evaluate_payload,
  first_match, is_automatic, is_cooling, match_detail,
}
use bug_it.Collector.Trigger.Cooldown.{Call, step, evaluates, fires_manual, run, Spaced, run-Spaced}
use bug_it.Collector.Ingest.{Service, read_header, ingest_event}
use bug_it.Collector.Ingest.Header.{read_header-splice}
use bug_it.Collector.Redact.{scrub}
use bug_it.Collector.Redact.Scrub.{Redacts, scrub-Redacts}
use bug_it.Examples.{
  differ, sample, sample_content, sample-IsBounded, get_request, server_failure, avoids-Lacks,
}

abbrev line : Bytes
line = codes "GET /items HTTP/1.1"

abbrev rest : Bytes
rest = codes "Host: shop" ++ crlf ++ crlf

read_header-splice_example :
    read_header (splice (line ++ crlf ++ rest) (header_line (clock_text (codes "node-a") 7)))
    ≡ some (codes "node-a", 7)
read_header-splice_example =
    read_header-splice line rest (codes "node-a") 7 (unfold index has_prefix in refl)
      (unfold index has_prefix in refl) (avoids-Lacks 13 (codes "node-a") refl) (omega arith)

scrub-Redacts_example : Redacts (codes "Cookie: id=7") (scrub (codes "Cookie: id=7"))
scrub-Redacts_example = scrub-Redacts (codes "Cookie: id=7")

abbrev arrival : ℕ → Bytes → Bytes → Event
arrival at node payload = record { io_event = sample 0 payload; node_id = node; at = at }

abbrev arrivals : List Event
arrivals = arrival 5 (codes "a") get_request ∷ arrival 9 (codes "b") server_failure ∷ []

add_all-recent_example :
    (add_all Buffer.new arrivals).events ≡ recent (end_time 0 arrivals) arrivals
add_all-recent_example =
    add_all-recent arrivals (unfold end_time in (omega arith, (omega arith, omega arith)))

abbrev empty_service : Service
empty_service = record { buf = Buffer.new; triggers = Trigger.new true; vector = Vector.new }

-- A read that carries the header of another node.
abbrev carried : Bytes
carried = splice (line ++ crlf ++ rest) (header_line (clock_text (codes "a") 4))

carried-header : read_header carried ≡ some (codes "a", 4)
carried-header =
    read_header-splice line rest (codes "a") 4 (unfold index has_prefix in refl)
      (unfold index has_prefix in refl) (avoids-Lacks 13 (codes "a") refl) (omega arith)

carried-small : length carried ≤ max_payload_len
unfolding splice header_line clock_text index has_prefix format
carried-small = omega arith

ingest_event-HasDangling_example :
    (r : Service × Option Trigger) × (ingest_event empty_service
        (sample 0 carried)
        (codes "b")
        10
        11
      ≡ some r)
    × HasDangling (codes "a") (codes "b") 4 r.0.vector
ingest_event-HasDangling_example =
    ingest_event-HasDangling empty_service (sample 0 carried) (codes "a") (codes "b") 4 10 11
      (sample-IsBounded 0 carried (omega arith) carried-small) (unfold fill_event in refl)
      (ap read_header (sample_content 0 carried (omega arith) carried-small) ∙ carried-header)
      (unfold Vector.new in refl) (unfold Vector.new in λ m. not-mem-nil m)
      (differ _ _ (unfold clock_text bytes_eq format in refl))

abbrev calls : List (ℕ × Call)
calls =
    (10, fires_manual (codes "by hand"))
    ∷ (20, evaluates (sample 0 server_failure) (codes "a"))
    ∷ []

abbrev by_hand : List (ℕ × Trigger)
by_hand = (10, record { kind = manual; detail = codes "by hand" }) ∷ []

calls-run :
    run (Trigger.new true) calls ≡ some (record (Trigger.new true) { last_fire = some 10 }, by_hand)
unfolding run step fire_manual fire evaluate evaluate_payload first_match is_automatic is_cooling
    Trigger.new payload_of fill_event zeros replicate copy slice_to contains index has_prefix
    match_detail
calls-run = refl

run-Spaced_example : Spaced (Trigger.new true).cooldown (Trigger.new true).last_fire by_hand
run-Spaced_example =
    run-Spaced calls (Trigger.new true) (record (Trigger.new true) { last_fire = some 10 }) by_hand
      calls-run
