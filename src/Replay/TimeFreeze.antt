-- ===== src/Replay/TimeFreeze.antt =====
-- dre-replay-cli/internal/timefreeze/engine.go: the frozen time that belongs to a cursor.
pub mod Latest
use bug_it.Base.{
  ℕ, suc, ℤ, pos, negsuc, leb_ℤ, ◌+◌, Bool, true, false, not, ◌&&◌, List, [], ◌∷◌, Option, none,
  some, ltb, leb, ◌==◌, if◌then◌else◌, get_elem?,
}
use bug_it.Text.{Bytes}
use bug_it.IoEvent.{IoEvent}

-- `manifest.ClockEntry`; an index is a Go `int`, which an archive may give a sign.
pub record ClockEntry : Type 0 where
  pub index : ℤ
  pub timestamp_ns : ℕ

-- `frozen_ns` is what `FrozenTimestampNs` reads from `DRE_FROZEN_TIME_NS`: 0 where that is not set.
pub record Engine : Type 0 where
  pub timeline : List ClockEntry
  pub enabled : Bool
  pub frozen_ns : ℕ

-- The loop over the timeline: the greatest time of the entries up to the cursor.
unfoldable pub best_at : ℤ → List ClockEntry → ℕ → ℕ
best_at cursor [] best = best
best_at cursor (ent ∷ entries) best =
    best_at cursor entries
      (if leb_ℤ ent.index cursor && leb best ent.timestamp_ns then ent.timestamp_ns else best)

-- `events[cursor]`, if the cursor is in range.
unfoldable pub event_at : List IoEvent → ℤ → Option IoEvent
event_at events (pos n) = get_elem? events n
event_at events (negsuc n) = none

unfoldable pub first_timestamp : List IoEvent → ℕ
first_timestamp [] = 0
first_timestamp (e ∷ events) = e.timestamp_ns

-- `timestampForCursor`
unfoldable pub timestamp_for_cursor : List ClockEntry → ℤ → List IoEvent → ℕ
timestamp_for_cursor [] cursor events = elim (event_at events cursor) [
  | some e ↦ e.timestamp_ns
  | none ↦ first_timestamp events
]
timestamp_for_cursor (ent ∷ entries) cursor events =
    let best = best_at cursor (ent ∷ entries) 0 in if ltb 0 best then best else ent.timestamp_ns

-- `SyncToCursor`; the state file holds the same number.
unfoldable pub sync_to_cursor : Engine → ℤ → List IoEvent → Engine
sync_to_cursor e cursor events =
    if not e.enabled
    then e
    else if timestamp_for_cursor e.timeline cursor events == 0
    then e
    else record e { frozen_ns = timestamp_for_cursor e.timeline cursor events }

-- The loop of `ClockIndex`: the last entry up to the cursor, `idx` if there is none from `i` on.
unfoldable pub last_index_at : ℤ → ℕ → List ClockEntry → ℕ → ℕ
last_index_at cursor i [] idx = idx
last_index_at cursor i (ent ∷ entries) idx =
    last_index_at cursor (suc i) entries (if leb_ℤ ent.index cursor then i else idx)

-- `ClockIndex`; an empty timeline gives 0.
unfoldable pub clock_index : Engine → ℤ → ℕ
clock_index e cursor = last_index_at cursor 0 e.timeline 0
