-- ===== src/Collector/Snapshot/Timeline.antt =====
-- Which times the timeline of an archive has (snapshot.go).
use bug_it.Base.{
  ℕ, zero, suc, pos, eq_ℤ, ◌+◌, ◌<◌, ◌≡◌, refl, ap, sym, ◌∙◌, Bool, List, [], ◌∷◌, Option, none,
  some, if◌then◌else◌, ◌>>=◌, get_elem?, arith, inl, inr, ◌⊎◌,
}
use bug_it.IoEvent.{IoEvent}
use bug_it.Replay.TimeFreeze.{ClockEntry}
use bug_it.Collector.Buffer.{Event}
use bug_it.Collector.Snapshot.{clock_entries, is_clock, is_io, build_clock_timeline}

-- The time that a timeline has for an index: that of the first entry with this index.
abbrev pub time_at : List ClockEntry → ℕ → Option ℕ
time_at [] n = none
time_at (e ∷ es) n = if eq_ℤ e.index (pos n) then some e.timestamp_ns else time_at es n

-- The time of the event `n`, if the event passes the test.
abbrev pub tested_time : (IoEvent → Bool) → List Event → ℕ → Option ℕ
tested_time test events n =
    get_elem? events n >>= λ ev. if test ev.io_event then some ev.io_event.timestamp_ns else none

-- The entries from the index `i` on have no index before it.
time_before :
    (test : IoEvent → Bool) (events : List Event) (i n : ℕ)
    → n < i
    → time_at (clock_entries test i events) n ≡ none
unfolding clock_entries
time_before test [] i n lt = refl
time_before test (ev ∷ events) i n lt = ground (arith, time_before test events (suc i) n)

time_here :
    (test : IoEvent → Bool) (ev : Event) (events : List Event) (i n : ℕ)
    → n ≡ i
    → time_at (clock_entries test i (ev ∷ events)) n
      ≡ (if test ev.io_event then some ev.io_event.timestamp_ns else none)
unfolding clock_entries
time_here test ev events i n e =
    let past : n < suc i = omega arith in ground (arith, time_before test events (suc i) n past)

time_behind :
    (test : IoEvent → Bool) (ev : Event) (events : List Event) (i n : ℕ)
    → i < n
    → time_at (clock_entries test i (ev ∷ events)) n ≡ time_at (clock_entries test (suc i) events) n
unfolding clock_entries
time_behind test ev events i n lt = ground arith

clock_entries-time_at :
    (test : IoEvent → Bool) (events : List Event) (i n m : ℕ)
    → i + n ≡ m
    → time_at (clock_entries test i events) m ≡ tested_time test events n
clock_entries-time_at test [] i n m e = unfold clock_entries in refl
clock_entries-time_at test (ev ∷ events) i zero m e = time_here test ev events i m (omega arith)
clock_entries-time_at test (ev ∷ events) i (suc n) m e =
    time_behind test ev events i m (omega arith)
    ∙ clock_entries-time_at test events (suc i) n m (omega arith)

timeline-cases :
    (events : List Event)
    → ((clock_entries is_clock 0 events ≡ [])
        × (build_clock_timeline events ≡ clock_entries is_io 0 events))
      ⊎ (build_clock_timeline events ≡ clock_entries is_clock 0 events)
unfolding build_clock_timeline
timeline-cases events = ground arith

-- The timeline has the times of the clock readings, each at the place of its event; where no event is a
-- clock reading, it has the times of all events that are no scheduler marker.
pub build_clock_timeline-time_at :
    (events : List Event)
    → (((n : ℕ) → tested_time is_clock events n ≡ none)
        × ((n : ℕ) → time_at (build_clock_timeline events) n ≡ tested_time is_io events n))
      ⊎ ((n : ℕ) → time_at (build_clock_timeline events) n ≡ tested_time is_clock events n)
build_clock_timeline-time_at events =
    let clocks : (n : ℕ)
        → time_at (clock_entries is_clock 0 events) n ≡ tested_time is_clock events n =
      λ n. clock_entries-time_at is_clock events 0 n n (omega arith) in
    elim (timeline-cases events) [
      | inl (empty, e) ↦ inl (
        λ n. sym (clocks n) ∙ ap (λ es. time_at es n) empty,
        λ n. ap (λ es. time_at es n) e ∙ clock_entries-time_at is_io events 0 n n (omega arith),
      )
      | inr e ↦ inr (λ n. ap (λ es. time_at es n) e ∙ clocks n)
    ]
