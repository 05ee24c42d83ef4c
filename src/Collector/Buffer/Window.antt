-- ===== src/Collector/Buffer/Window.antt =====
-- The buffer holds exactly the events of the window, oldest first (buffer.go).
use bug_it.Base.{
  ℕ, ◌+◌, ◌≤◌, ◌<◌, ◌≡◌, refl, sym, ap, ◌∙◌, List, [], ◌∷◌, ◌++◌, arith, if◌then◌else◌, Bool-cases,
  inl, inr, append-nil, append_assoc,
}
use bug_it.Collector.Buffer.{window_duration, Event, RollingBuffer, new, is_recent, drop_old, add}

-- The calls of `Add`, in order, each at its time.
unfoldable pub add_all : RollingBuffer → List Event → RollingBuffer
add_all b [] = b
add_all b (ev ∷ evs) = add_all (add b ev.io_event ev.node_id ev.at) evs

-- The time of the last call.
unfoldable pub end_time : ℕ → List Event → ℕ
end_time now [] = now
end_time now (ev ∷ evs) = end_time ev.at evs

-- The specification: keep what is recent.
unfoldable pub recent : ℕ → List Event → List Event
recent now [] = []
recent now (ev ∷ events) = if is_recent now ev then ev ∷ recent now events else recent now events

-- The times of the events rise from `from` and end at `now` at the latest.
abbrev pub Ordered : ℕ → List Event → ℕ → Type 0
Ordered from [] now = from ≤ now
Ordered from (ev ∷ events) now = (from ≤ ev.at) × Ordered ev.at events now

Ordered-le : (from : ℕ) (events : List Event) (now : ℕ) → Ordered from events now → from ≤ now
Ordered-le from [] now h = h
Ordered-le from (ev ∷ events) now (h, k) = omega (arith, Ordered-le ev.at events now k)

Ordered-from :
    {from mid : ℕ} (events : List Event) (end : ℕ)
    → from ≤ mid
    → Ordered mid events end
    → Ordered from events end
Ordered-from [] end h o = omega arith
Ordered-from (ev ∷ events) end h (o, os) = (omega arith, os)

-- Behind a recent event all are recent.
recent_all :
    (from now : ℕ) (events : List Event) (end : ℕ)
    → now < from + window_duration
    → Ordered from events end
    → recent now events ≡ events
unfolding recent
recent_all from now [] end h o = refl
recent_all from now (ev ∷ events) end h (o, os) =
    ground (arith, recent_all ev.at now events end (omega arith) os)

-- On events in order the loop, which stops early, keeps what the specification keeps.
pub drop_old-recent :
    (from now : ℕ) (events : List Event) (end : ℕ)
    → Ordered from events end
    → drop_old now events ≡ recent now events
unfolding drop_old recent
drop_old-recent from now [] end o = refl
drop_old-recent from now (ev ∷ events) end (o, os) = elim (Bool-cases (is_recent now ev)) [
  | inl r ↦ ground (arith, recent_all ev.at now events end (ground arith) os)
  | inr r ↦ ground (arith, drop_old-recent ev.at now events end os)
]

Ordered-append :
    (from : ℕ) (events : List Event) (end : ℕ) (ev : Event)
    → Ordered from events end
    → end ≤ ev.at
    → Ordered from (events ++ ev ∷ []) ev.at
Ordered-append from [] end ev o h = (omega arith, omega arith)
Ordered-append from (e ∷ events) end ev (o, os) h = (o, Ordered-append e.at events end ev os h)

recent-append :
    (now : ℕ) (xs ys : List Event) → recent now (xs ++ ys) ≡ recent now xs ++ recent now ys
unfolding recent
recent-append now [] ys = refl
recent-append now (ev ∷ xs) ys = ground (arith, recent-append now xs ys)

-- What is old stays old.
recent-recent :
    (now later : ℕ) (xs : List Event) → now ≤ later → recent later (recent now xs) ≡ recent later xs
unfolding recent
recent-recent now later [] h = refl
recent-recent now later (ev ∷ xs) h = ground (arith, recent-recent now later xs h)

recent-Ordered :
    (from now : ℕ) (xs : List Event) (end : ℕ)
    → Ordered from xs end
    → Ordered from (recent now xs) end
unfolding recent
recent-Ordered from now [] end o = o
recent-Ordered from now (ev ∷ xs) end (o, os) = elim (Bool-cases (is_recent now ev)) [
  | inl r ↦ rw r (o, recent-Ordered ev.at now xs end os)
  | inr r ↦ rw r (recent-Ordered from now xs end (Ordered-from xs end o os))
]

-- One call, on a buffer that holds the window of what came before.
add-recent :
    (b : RollingBuffer) (done : List Event) (now : ℕ) (ev : Event)
    → Ordered 0 done now
    → now ≤ ev.at
    → b.events ≡ recent now done
    → (add b ev.io_event ev.node_id ev.at).events ≡ recent ev.at (done ++ ev ∷ [])
unfolding add
add-recent b done now ev o h e =
    let start = recent now done in
    ap (λ xs. drop_old ev.at (xs ++ ev ∷ [])) e
    ∙ drop_old-recent 0 ev.at (start ++ ev ∷ []) ev.at
        (Ordered-append 0 start now ev (recent-Ordered 0 now done now o) h)
    ∙ recent-append ev.at start (ev ∷ [])
    ∙ ap (λ xs. xs ++ recent ev.at (ev ∷ [])) (recent-recent now ev.at done h)
    ∙ sym (recent-append ev.at done (ev ∷ []))

add_all-run :
    (evs done : List Event) (b : RollingBuffer) (now : ℕ)
    → Ordered 0 done now
    → b.events ≡ recent now done
    → Ordered now evs (end_time now evs)
    → (add_all b evs).events ≡ recent (end_time now evs) (done ++ evs)
unfolding add_all end_time
add_all-run [] done b now o e s = e ∙ rw append-nil
add_all-run (ev ∷ evs) done b now o e (h, s) =
    add_all-run evs (done ++ ev ∷ []) (add b ev.io_event ev.node_id ev.at) ev.at
      (Ordered-append 0 done now ev o h) (add-recent b done now ev o h e) s
    ∙ rw append_assoc

-- After calls at times that do not fall, a new buffer holds the arrivals of the last thirty seconds.
pub add_all-recent :
    (evs : List Event)
    → Ordered 0 evs (end_time 0 evs)
    → (add_all new evs).events ≡ recent (end_time 0 evs) evs
unfolding new
add_all-recent evs s = add_all-run evs [] new 0 (omega arith) (unfold recent in refl) s
