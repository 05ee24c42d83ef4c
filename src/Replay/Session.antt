-- ===== src/Replay/Session.antt =====
-- dre-replay-cli/internal/orchestrator/session.go: the replay cursor, and what follows it.
pub mod Cursor
use bug_it.Base.{
  ℕ, suc, ℤ, pos, negsuc, eq_ℤ, leb_ℤ, ltb_ℤ, ◌+ℤ◌, ◌+◌, Bool, true, false, not, ◌&&◌, List, [],
  ◌∷◌, Option, none, some, ltb, leb, ◌==◌, if◌then◌else◌, length,
}
use bug_it.Text.{Bytes}
use bug_it.IoEvent.{IoEvent}
use bug_it.Replay.Multi.{MultiServer, set_cursor, new_multi}
use bug_it.Replay.TimeFreeze
use bug_it.Replay.TimeFreeze.{ClockEntry, sync_to_cursor}

-- `map[int]bool`: a key that is missing reads as false.
abbrev pub Breakpoints : Type 0
Breakpoints = ℤ → Bool

-- The fields that the debugger drives; `none` is a nil proxy or a nil time engine.
pub record Session : Type 0 where
  pub events : List IoEvent
  pub cursor : ℕ
  pub breakpoints : Breakpoints
  pub proxy_srv : Option MultiServer
  pub time_eng : Option TimeFreeze.Engine

-- `New`
unfoldable pub new : List IoEvent → Session
new events = record {
  events = events;
  cursor = 0;
  breakpoints = λ _. false;
  proxy_srv = none;
  time_eng = none;
}

-- The part of `Start` that sets up the proxy and the time engine, on a session before its first seek.
unfoldable pub start : Session → List ClockEntry → Bool → ℕ → Session
start s timeline enabled frozen_ns =
    let eng : TimeFreeze.Engine = record {
      timeline = timeline;
      enabled = enabled;
      frozen_ns = frozen_ns;
    } in
    record s {
      proxy_srv = some (new_multi s.events);
      time_eng = some (if enabled then sync_to_cursor eng (pos 0) s.events else eng);
    }

-- `if index < 0 { index = 0 }; if index > len(events) { index = len(events) }`
unfoldable pub clamp_index : ℤ → ℕ → ℕ
clamp_index (negsuc n) len = 0
clamp_index (pos n) len = if ltb len n then len else n

unfoldable pub move_proxy : Option MultiServer → ℕ → Option MultiServer
move_proxy none cursor = none
move_proxy (some m) cursor = some (set_cursor m cursor)

unfoldable pub move_time : Option TimeFreeze.Engine → ℕ → List IoEvent → Option TimeFreeze.Engine
move_time none cursor events = none
move_time (some e) cursor events = some (sync_to_cursor e (pos cursor) events)

-- `onCursorChange`
unfoldable pub on_cursor_change : Session → Session
on_cursor_change s = record s {
  proxy_srv = move_proxy s.proxy_srv s.cursor;
  time_eng = move_time s.time_eng s.cursor s.events;
}

-- `Seek`; its result is the new cursor.
unfoldable pub seek : Session → ℤ → Session
seek s index = on_cursor_change (record s { cursor = clamp_index index (length s.events) })

-- `Step`
unfoldable pub step : Session → ℤ → Session
step s delta = seek s (pos s.cursor +ℤ delta)

-- `SetBreakpoint`
unfoldable pub set_breakpoint : Session → ℤ → Bool → Session
set_breakpoint s index enabled = record s {
  breakpoints = λ i. if eq_ℤ i index then enabled else s.breakpoints i;
}

-- `ClearBreakpoints`
unfoldable pub clear_breakpoints : Session → Session
clear_breakpoints s = record s { breakpoints = λ _. false }

-- `StoppedReason`: the reason `breakpoint`, or none.
unfoldable pub is_stopped : Session → ℤ → Bool
is_stopped s idx = s.breakpoints idx
