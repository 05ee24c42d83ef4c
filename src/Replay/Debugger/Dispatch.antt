-- ===== src/Replay/Debugger/Dispatch.antt =====
-- What the requests of a debugger do to the session (debugger.go, session.go).
use bug_it.Base.{
  ℕ, zero, suc, ℤ, pos, ◌≤◌, ◌<◌, ◌≡◌, refl, ap, sym, ◌∙◌, ◌⊎◌, subst, inl, inr, Bool, true, false,
  ◌||◌, List, [], ◌∷◌, Option, none, some, arith, leb, length, drop, get_elem?, Bool-cases,
  Option-cases,
}
use bug_it.IoEvent.{IoEvent}
use bug_it.Replay.Multi.Found.{get_elem?-drop}
use bug_it.Replay.Session.{
  Session, new, start, seek, step, set_breakpoint, clear_breakpoints, is_stopped,
}
use bug_it.Replay.Session.Cursor.{IsSynced, seek-IsSynced, seek-cursor, start-IsSynced}
use bug_it.Replay.TimeFreeze.{ClockEntry}
use bug_it.Replay.Debugger.{
  Method, step_forward, step_backward, seek_to, get_state, run_to_event, breakpoint, clear_all,
  other, find_stop, run_to_io_event, handle,
}

run_none :
    (s : Session) (from : ℕ)
    → find_stop s (suc from) (drop (suc from) s.events) ≡ none
    → run_to_io_event s from ≡ s
unfolding run_to_io_event
run_none s from e = rw (run_to_io_event, e)

run_some :
    (s : Session) (from i : ℕ)
    → find_stop s (suc from) (drop (suc from) s.events) ≡ some i
    → run_to_io_event s from ≡ seek s (pos i)
unfolding run_to_io_event
run_some s from i e = rw (run_to_io_event, e)

run-IsSynced : (s : Session) (from : ℕ) → IsSynced s → IsSynced (run_to_io_event s from)
run-IsSynced s from h = elim (Option-cases (find_stop s (suc from) (drop (suc from) s.events))) [
  | inl e ↦ subst IsSynced (sym (run_none s from e)) h
  | inr (i, e) ↦ subst IsSynced (sym (run_some s from i e)) (seek-IsSynced s (pos i) h)
]

-- Every request of the debugger keeps the session synchronised: the cursor stays in the recording, and
-- the proxy serves the session's events from the cursor on.
pub handle-IsSynced :
    (s : Session) (m : Method) (index : ℤ) (enabled : Bool)
    → IsSynced s
    → IsSynced (handle s m index enabled)
unfolding handle step
handle-IsSynced s step_forward index enabled h = seek-IsSynced s _ h
handle-IsSynced s step_backward index enabled h = seek-IsSynced s _ h
handle-IsSynced s seek_to index enabled h = seek-IsSynced s index h
handle-IsSynced s get_state index enabled h = h
handle-IsSynced s run_to_event index enabled h = run-IsSynced s s.cursor h
handle-IsSynced s breakpoint index enabled h =
    unfold set_breakpoint in record { in_range = h.in_range; followed = h.followed }
handle-IsSynced s clear_all index enabled h =
    unfold clear_breakpoints in record { in_range = h.in_range; followed = h.followed }
handle-IsSynced s other index enabled h = h

-- A place where `RunToEvent` stops: an event that has a breakpoint, or that has I/O.
abbrev pub IsStop : Session → ℕ → Type 0
IsStop s k =
    (evt : IoEvent) × (get_elem? s.events k ≡ some evt)
    × ((is_stopped s (pos k) || leb evt.is_write 1) ≡ true)

-- The first stop from `i` on, or that there is none.
abbrev pub IsFirstStop : Session → ℕ → Option ℕ → Type 0
IsFirstStop s i none = (k : ℕ) → i ≤ k → ¬ IsStop s k
IsFirstStop s i (some j) = (i ≤ j) × IsStop s j × ((k : ℕ) → i ≤ k → k < j → ¬ IsStop s k)

find_stop_here :
    (s : Session) (i : ℕ) (evt : IoEvent) (evts : List IoEvent)
    → (is_stopped s (pos i) || leb evt.is_write 1) ≡ true
    → find_stop s i (evt ∷ evts) ≡ some i
unfolding find_stop
find_stop_here s i evt evts h = ground arith

find_stop_behind :
    (s : Session) (i : ℕ) (evt : IoEvent) (evts : List IoEvent)
    → (is_stopped s (pos i) || leb evt.is_write 1) ≡ false
    → find_stop s i (evt ∷ evts) ≡ find_stop s (suc i) evts
unfolding find_stop
find_stop_behind s i evt evts h = ground arith

past_end :
    {A : Type 0} (xs : List A) (i k : ℕ) {x : A}
    → drop i xs ≡ []
    → i ≤ k
    → get_elem? xs k ≡ some x
    → ⊥
past_end [] i k d le e = cc
past_end (x ∷ xs) zero k d le e = cc
past_end (x ∷ xs) (suc i) zero d le e = omega arith
past_end (x ∷ xs) (suc i) (suc k) d le e = past_end xs i k d (omega arith) e

not-IsStop :
    (s : Session) (i k : ℕ) (evt : IoEvent)
    → get_elem? s.events i ≡ some evt
    → (is_stopped s (pos i) || leb evt.is_write 1) ≡ false
    → i ≤ k
    → ¬ (suc i ≤ k)
    → ¬ IsStop s k
not-IsStop s i k evt at passed le near (evt', at', stop) =
    let here : i ≡ k = omega arith in
    let at₂ = subst (λ x. get_elem? s.events x ≡ some evt') (sym here) at' in
    let same : evt ≡ evt' = cc in
    let stop₂ = subst (λ x. (is_stopped s (pos x) || leb evt'.is_write 1) ≡ true) (sym here) stop in
    let stop₃ = subst (λ x. (is_stopped s (pos i) || leb x.is_write 1) ≡ true) (sym same) stop₂ in
    cc

-- No stop at `i` itself.
IsFirstStop-suc :
    (s : Session) (i : ℕ) (evt : IoEvent) (r : Option ℕ)
    → get_elem? s.events i ≡ some evt
    → (is_stopped s (pos i) || leb evt.is_write 1) ≡ false
    → IsFirstStop s (suc i) r
    → IsFirstStop s i r
IsFirstStop-suc s i evt none at passed h =
    λ k le stop. not-IsStop s i k evt at passed le (λ lt. h k lt stop) stop
IsFirstStop-suc s i evt (some j) at passed (lt, at_stop, before) = (
  omega arith,
  at_stop,
  λ k le lt' stop. not-IsStop s i k evt at passed le (λ lo. before k lo lt' stop) stop,
)

-- The loop finds the first stop.
find_stop-IsFirstStop :
    (s : Session) (i : ℕ) (evts : List IoEvent)
    → drop i s.events ≡ evts
    → IsFirstStop s i (find_stop s i evts)
find_stop-IsFirstStop s i [] d =
    unfold find_stop in λ k le (evt, at, stop). past_end s.events i k d le at
find_stop-IsFirstStop s i (evt ∷ evts) d =
    let (at, behind) = get_elem?-drop s.events i d in
    elim (Bool-cases (is_stopped s (pos i) || leb evt.is_write 1)) [
      | inl stop ↦
          subst (IsFirstStop s i) (sym (find_stop_here s i evt evts stop))
            (omega arith, (evt, at, stop), λ k le lt. absurd (omega arith))
      | inr passed ↦ subst (IsFirstStop s i) (sym (find_stop_behind s i evt evts passed)) (
          IsFirstStop-suc s i evt (find_stop s (suc i) evts) at passed
            (find_stop-IsFirstStop s (suc i) evts behind))
    ]

get_elem?-lt : {A : Type 0} (xs : List A) (i : ℕ) {x : A} → get_elem? xs i ≡ some x → i < length xs
get_elem?-lt [] i e = absurd (cc)
get_elem?-lt (x ∷ xs) zero e = omega arith
get_elem?-lt (x ∷ xs) (suc i) e = let rest = get_elem?-lt xs i e in omega arith

stop_in_range : (s : Session) (j : ℕ) → IsStop s j → j < length s.events
stop_in_range s j (evt, at, stop) = get_elem?-lt s.events j at

-- `RunToEvent` moves the cursor to the first stop behind it, and leaves the session as it is where there
-- is none.
pub run_to_event_first :
    (s : Session) (index : ℤ) (enabled : Bool)
    → ((handle s run_to_event index enabled ≡ s) × ((k : ℕ) → s.cursor < k → ¬ IsStop s k))
      ⊎ ((j : ℕ) × ((handle s run_to_event index enabled).cursor ≡ j)
          × (s.cursor < j)
          × IsStop s j
          × ((k : ℕ) → s.cursor < k → k < j → ¬ IsStop s k))
unfolding handle
run_to_event_first s index enabled =
    let first = find_stop-IsFirstStop s (suc s.cursor) (drop (suc s.cursor) s.events) refl in
    elim (Option-cases (find_stop s (suc s.cursor) (drop (suc s.cursor) s.events))) [
      | inl e ↦ inl (run_none s s.cursor e, subst (IsFirstStop s (suc s.cursor)) e first)
      | inr (j, e) ↦
          let (lt, stop, before) = subst (IsFirstStop s (suc s.cursor)) e first in
          let le = stop_in_range s j stop in
          inr (
            j,
            ap Session.cursor (run_some s s.cursor j e)
                ∙ (seek-cursor s (pos j)).0 j refl
                ∙ omega arith,
            lt,
            stop,
            before,
          )
    ]

-- The session after a debugger's requests.
abbrev pub after : Session → List (Method × ℤ × Bool) → Session
after s [] = s
after s ((m, index, enabled) ∷ requests) = after (handle s m index enabled) requests

after-IsSynced :
    (s : Session) (requests : List (Method × ℤ × Bool)) → IsSynced s → IsSynced (after s requests)
after-IsSynced s [] h = h
after-IsSynced s ((m, index, enabled) ∷ requests) h =
    after-IsSynced (handle s m index enabled) requests (handle-IsSynced s m index enabled h)

-- Whatever a debugger asks of a session that was started, the cursor stays in the recording, and the proxy
-- serves the session's events from the cursor on.
pub requests-IsSynced :
    (events : List IoEvent) (timeline : List ClockEntry) (frozen : Bool) (frozen_ns : ℕ)
    (requests : List (Method × ℤ × Bool))
    → IsSynced (after (start (new events) timeline frozen frozen_ns) requests)
requests-IsSynced events timeline frozen frozen_ns requests =
    after-IsSynced (start (new events) timeline frozen frozen_ns) requests
      (start-IsSynced events timeline frozen frozen_ns)
