-- ===== src/DebugBridge.antt =====
-- pkg/debugbridge/node.go: the bridge to a Node inspector, which asks for the place where the process stands.
pub mod Location
pub mod Connect
pub mod Frames
pub mod Calls
use bug_it.Base.{
  ℕ, zero, suc, ℤ, pos, ◌+◌, ◌-◌, Bool, true, false, ◌&&◌, ◌||◌, List, [], ◌∷◌, ◌++◌, Option, none,
  some, ltb, leb, ◌==◌, if◌then◌else◌, eq_ℤ, take, drop,
}
use bug_it.Text.{Bytes, codes, has_prefix, trim_prefix}
use bug_it.Text.Search.{contains, index_byte, last_index_byte}
use bug_it.Text.Trim.{trim_left, trim_space}
use bug_it.Text.Split.{split_byte, atoi}
use bug_it.LocalCapture.{scan_int}
use bug_it.SourceMap.{SourceRef}
use bug_it.Inspector.{
  InspectTarget, TargetPickOptions, inspector_port_min, inspector_port_max, is_empty_text,
}
use bug_it.Inspector.Pick.{pick_inspect_target, resolve_backend_inspector}
use bug_it.Inspector.Json.{Fields, get_text, get_number, get_object, no_fields}

-- `fmt.Sscanf(s, "%d", &n)` on a part of a line, which skips white space at the front.
unfoldable pub scan_number : Bytes → ℤ
scan_number s = scan_int (trim_left s)

-- The place of the last colon of `loc`, and that of the last one before it, as far as they are there.
unfoldable pub with_line : Bytes → ℕ → Option ℕ → Bytes × ℤ × ℤ
with_line loc last_colon none = (loc, pos 0, pos 0)
with_line loc last_colon (some line_colon) = (
  take line_colon (take last_colon loc),
  scan_number (drop (line_colon + 1) (take last_colon loc)),
  scan_number (drop (last_colon + 1) loc),
)

unfoldable pub with_column : Bytes → Option ℕ → Bytes × ℤ × ℤ
with_column loc none = (loc, pos 0, pos 0)
with_column loc (some last_colon) =
    with_line loc last_colon (last_index_byte (take last_colon loc) b':')

-- `parseStackLocation`: the file, the line and the column.
unfoldable pub parse_stack_location : Bytes → Bytes × ℤ × ℤ
parse_stack_location loc = with_column loc (last_index_byte loc b':')

-- A line without the two brackets in their order has no function.
unfoldable pub plain_frame : Bytes → Bytes × Bytes
plain_frame line = ([], trim_space (trim_prefix line (codes "at ")))

-- The places of the first `(` and of the last `)`, as far as they are there.
unfoldable pub with_brackets : Bytes → Option ℕ → Option ℕ → Bytes × Bytes
with_brackets line none end = plain_frame line
with_brackets line (some start) none = plain_frame line
with_brackets line (some start) (some end) =
    if ltb start end
    then (
      trim_space (take (start - 3) (drop 3 line)),
      take (end - (start + 1)) (drop (start + 1) line),
    )
    else plain_frame line

-- The function and the location of a line that starts with `at `.
unfoldable pub frame_parts : Bytes → Bytes × Bytes
frame_parts line = with_brackets line (index_byte line b'(') (last_index_byte line b')')

unfoldable pub source_ref : Bytes → Bytes × ℤ × ℤ → Option SourceRef
source_ref fn (file, line, column) =
    if is_empty_text file
    then none
    else some (record { index = pos 0; file = file; line = line; column = column; function = fn })

-- The body of the loop of `parseNodeStack`; `none` goes on to the next line.
unfoldable pub frame_ref : Bytes → Option SourceRef
frame_ref line =
    if has_prefix line (codes "at ") && contains line (b':' ∷ [])
    then source_ref (frame_parts line).0 (parse_stack_location (frame_parts line).1)
    else none

abbrev pub or_next : Option SourceRef → Option SourceRef → Option SourceRef
or_next none next = next
or_next (some ref) next = some ref

unfoldable pub first_ref : List Bytes → Option SourceRef
first_ref [] = none
first_ref (line ∷ lines) = or_next (frame_ref (trim_space line)) (first_ref lines)

-- `parseNodeStack`
unfoldable pub parse_node_stack : Bytes → Option SourceRef
parse_node_stack stack = first_ref (split_byte 10 stack)

-- `NodeBridge`; of the connection the code asks only whether it is nil.
pub record NodeBridge : Type 0 where
  pub port : ℕ
  pub ws_url : Bytes
  pub pick : TargetPickOptions
  pub is_connected : Bool
  pub next_id : ℕ

abbrev default_port : ℕ → ℕ
default_port zero = 9229
default_port (suc port) = suc port

-- `NewNodeBridge`
unfoldable pub new_node_bridge : ℕ → TargetPickOptions → NodeBridge
new_node_bridge port pick = record {
  port = default_port port;
  ws_url = [];
  pick = pick;
  is_connected = false;
  next_id = 0;
}

pub data CallError : Type 0 where
  not_connected : CallError
  send_failed : CallError
  context_ended : CallError
  timed_out : CallError
  receive_failed : CallError
  cdp_error : Fields → CallError
  dial_failed : CallError
  not_available : CallError

-- `waiting` is a call that stands in `Receive`.
pub data Answered : Type 0 where
  waiting : Answered
  failed : CallError → Answered
  returned : Fields → Answered

-- One round of the loop of `callLocked`: what the two tests see, and what is received, where `none` is an error.
pub record ReplyRound : Type 0 where
  pub has_ended : Bool
  pub is_late : Bool
  pub received : Option Fields

abbrev is_number : Option ℤ → ℕ → Bool
is_number none id = false
is_number (some n) id = eq_ℤ n (pos id)

-- `respID, ok := resp["id"].(float64); ok && int(respID) == id`
unfoldable pub is_reply : ℕ → Fields → Bool
is_reply id resp = is_number (get_number resp (codes "id")) id

abbrev returned_of : Option Fields → Answered
returned_of none = returned no_fields
returned_of (some result) = returned result

unfoldable pub reply_of : Fields → Answered
reply_of resp = elim (get_object resp (codes "error")) [
  | some err ↦ failed (cdp_error err)
  | none ↦ returned_of (get_object resp (codes "result"))
]

-- What a received message does; `next` is the rest of the loop.
unfoldable pub read_message : ℕ → Option Fields → Answered → Answered
read_message id none next = failed receive_failed
read_message id (some resp) next = if is_reply id resp then reply_of resp else next

unfoldable pub wait_reply : ℕ → List ReplyRound → Answered
wait_reply id [] = waiting
wait_reply id (r ∷ rounds) =
    let next = wait_reply id rounds in
    if r.has_ended
    then failed context_ended
    else if r.is_late
    then failed timed_out
    else read_message id r.received next

-- `callLocked`; `sends` is that the request is sent without an error.
unfoldable pub call_locked : NodeBridge → Bool → List ReplyRound → NodeBridge × Answered
call_locked n sends rounds =
    if n.is_connected
    then (
      record n { next_id = n.next_id + 1 },
      if sends then wait_reply (n.next_id + 1) rounds else failed send_failed,
    )
    else (n, failed not_connected)

-- What `TopFrame` returns.
pub data Top : Type 0 where
  unanswered : Top
  no_top : CallError → Top
  top : Option SourceRef → Top

abbrev of_stack : Option Bytes → Option SourceRef
of_stack none = none
of_stack (some stack) = if is_empty_text stack then none else parse_node_stack stack

unfoldable pub top_of : Answered → Top
top_of waiting = unanswered
top_of (failed err) = no_top err
top_of (returned resp) = top (of_stack (get_text resp (codes "value")))

-- `TopFrame`
unfoldable pub top_frame : NodeBridge → Bool → List ReplyRound → NodeBridge × Top
top_frame n sends rounds = let (m, answer) = call_locked n sends rounds in (m, top_of answer)

-- `Close`
unfoldable pub close_bridge : NodeBridge → NodeBridge
close_bridge n = record n { is_connected = false }
