-- ===== src/Collector/Buffer.antt =====
-- dre-collector/internal/buffer/buffer.go: the events of the last thirty seconds. A time is a number of
-- nanoseconds; the call of `time.Now` is an argument.
pub mod Window
use bug_it.Base.{ℕ, ◌+◌, ◌*◌, ◌≤◌, Bool, List, [], ◌∷◌, ◌++◌, ltb, if◌then◌else◌, length}
use bug_it.Text.{Bytes}
use bug_it.IoEvent.{IoEvent}

-- `WindowDuration`, 30 seconds.
abbrev pub window_duration : ℕ
window_duration = 30 * 1000000000

pub record Event : Type 0 where
  pub io_event : IoEvent
  pub node_id : Bytes
  pub at : ℕ

pub record RollingBuffer : Type 0 where
  pub events : List Event

-- `New`
unfoldable pub new : RollingBuffer
new = record { events = [] }

-- `At.After(now.Add(-WindowDuration))`
abbrev pub is_recent : ℕ → Event → Bool
is_recent now ev = ltb now (ev.at + window_duration)

-- The loop stops at the first recent event; what stands before it is cut off.
unfoldable pub drop_old : ℕ → List Event → List Event
drop_old now [] = []
drop_old now (ev ∷ events) = if is_recent now ev then ev ∷ events else drop_old now events

-- `Add`, called at the time `now`.
unfoldable pub add : RollingBuffer → IoEvent → Bytes → ℕ → RollingBuffer
add b evt node now = record {
  events = drop_old now (b.events ++ record { io_event = evt; node_id = node; at = now } ∷ []);
}

-- `Snapshot` copies the events.
unfoldable pub snapshot : RollingBuffer → List Event
snapshot b = b.events

-- `Len`
unfoldable pub len : RollingBuffer → ℕ
len b = length b.events
