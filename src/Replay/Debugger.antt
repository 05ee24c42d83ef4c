-- ===== src/Replay/Debugger.antt =====
-- dre-replay-cli/internal/debugger/debugger.go: the requests of a debugger, over the session that
-- implements its `Controller`.
pub mod Dispatch
use bug_it.Base.{
  ℕ, suc, ℤ, pos, negsuc, ◌+◌, ◌/◌, ◌%◌, ◌^◌, Bool, true, false, not, ◌&&◌, ◌||◌, List, [], ◌∷◌,
  Option, none, some, ltb, leb, ◌==◌, if◌then◌else◌, length, drop, get_elem?, ◌>>=◌,
}
use bug_it.Text.{Bytes}
use bug_it.Text.Trim.{trim_space, trim_nul}
use bug_it.IoEvent.{IoEvent}
use bug_it.Replay.TimeFreeze
use bug_it.Replay.TimeFreeze.{clock_index}
use bug_it.Replay.Session.{Session, seek, step, set_breakpoint, clear_breakpoints, is_stopped}

-- The methods; any other name is answered like `GetState`.
pub data Method : Type 0 where
  step_forward step_backward seek_to get_state run_to_event breakpoint clear_all other : Method

-- The loop of `runToIOEvent`, from the event `i` on: the first with a breakpoint or with I/O.
unfoldable pub find_stop : Session → ℕ → List IoEvent → Option ℕ
find_stop s i [] = none
find_stop s i (evt ∷ evts) =
    if is_stopped s (pos i)
    then some i
    else if leb evt.is_write 1
    then some i
    else find_stop s (suc i) evts

-- `runToIOEvent`; without a stop the cursor stays.
unfoldable pub run_to_io_event : Session → ℕ → Session
run_to_io_event s from = elim (find_stop s (suc from) (drop (suc from) s.events)) [
  | none ↦ s
  | some i ↦ seek s (pos i)
]

-- The state after a request; the index of the answer is the cursor of that state.
unfoldable pub handle : Session → Method → ℤ → Bool → Session
handle s step_forward seek_index enabled = step s (pos 1)
handle s step_backward seek_index enabled = step s (negsuc 0)
handle s seek_to seek_index enabled = seek s seek_index
handle s get_state seek_index enabled = s
handle s run_to_event seek_index enabled = run_to_io_event s s.cursor
handle s breakpoint seek_index enabled = set_breakpoint s seek_index enabled
handle s clear_all seek_index enabled = clear_breakpoints s
handle s other seek_index enabled = s

-- The answer; `none` stands for a key that the JSON object lacks.
pub record Answer : Type 0 where
  pub index : ℕ
  pub total : ℕ
  pub event : Option IoEvent
  pub timestamp_ns : Option ℕ
  pub pid : Option ℕ
  pub tid : Option ℕ
  pub comm : Option Bytes
  pub is_breakpoint : Bool
  pub clock : Option ℕ
  pub frozen_timestamp_ns : Option ℕ

unfoldable pub comm_of : IoEvent → Option Bytes
comm_of evt = elim (trim_space (trim_nul evt.comm)) [ [] ↦ none | c ∷ s ↦ some (c ∷ s) ]

-- `dispatch`
unfoldable pub answer : Session → Answer
answer s =
    let evt = get_elem? s.events s.cursor in
    record {
      index = s.cursor;
      total = length s.events;
      event = evt;
      timestamp_ns = evt >>= λ e. some e.timestamp_ns;
      pid = evt >>= λ e. some (e.pid_tgid / 2 ^ 32 % 2 ^ 32);
      tid = evt >>= λ e. some (e.pid_tgid % 2 ^ 32);
      comm = evt >>= comm_of;
      is_breakpoint = is_stopped s (pos s.cursor);
      clock = s.time_eng >>= λ t. some (clock_index t (pos s.cursor));
      frozen_timestamp_ns = s.time_eng >>= λ t. some t.frozen_ns;
    }

unfoldable pub dispatch : Session → Method → ℤ → Bool → Session × Answer
dispatch s method seek_index enabled =
    let s' = handle s method seek_index enabled in (s', answer s')
