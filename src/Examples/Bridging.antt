-- ===== src/Examples/Bridging.antt =====
-- A bridge to a Node inspector, and what it reads.
use bug_it.Base.{pos, ◌≡◌, refl, true, [], ◌∷◌, ◌++◌, none, some, arith}
use bug_it.Text.{codes, has_prefix, bytes_eq}
use bug_it.Text.Trim.{trim_space, trim_left, trim_right}
use bug_it.Inspector.Json.{Json, Fields, field, no_fields, text, get_number, lookup}
use bug_it.DebugBridge.{
  NodeBridge, ReplyRound, call_locked, top_frame, top, is_reply, parse_node_stack,
}
use bug_it.DebugBridge.Calls.{
  IsAnswered, IsSkipped, call_locked-IsAnswered, arrives, evaluated, top_frame-evaluated,
}
use bug_it.DebugBridge.Frames.{frame_line, parse_node_stack-frame_line}
use bug_it.DebugBridge.Location.{location}
use bug_it.Examples.{avoids-Lacks}

parse_node_stack-frame_line_example :
    parse_node_stack (
      codes "Error"
      ++ 10 ∷ frame_line (codes "handler") (location (codes "/srv/api/server.js") 42 5)
      ++ 10 ∷ codes "    at listen (node:net:1:1)")
    ≡ some (record {
      index = pos 0;
      file = codes "/srv/api/server.js";
      line = pos 42;
      column = pos 5;
      function = trim_space (codes "handler");
    })
unfolding trim_space trim_left trim_right has_prefix bytes_eq
parse_node_stack-frame_line_example =
    parse_node_stack-frame_line (codes "Error") (codes "handler") (codes "/srv/api/server.js")
      (codes "    at listen (node:net:1:1)") 42 5 (avoids-Lacks 10 (codes "Error") refl) refl
      (avoids-Lacks 10 (codes "handler") refl) (avoids-Lacks b'(' (codes "handler") refl)
      (avoids-Lacks 10 (codes "/srv/api/server.js") refl) refl (omega arith) (omega arith)

abbrev bridge : NodeBridge
bridge = record {
  port = 9229;
  ws_url = [];
  pick = record { backend_port = pos 4000; backend_pid = pos 0; capture_root = [] };
  is_connected = true;
  next_id = 1;
}

-- The message of another number.
abbrev other : ReplyRound
other = arrives (field (codes "id") (Json.number (pos 7)) no_fields)

abbrev remote : Fields
remote = field (codes "value") (text (codes "Error")) no_fields

other-IsSkipped : IsSkipped 2 other
unfolding is_reply get_number lookup bytes_eq
other-IsSkipped = (refl, refl, _, refl, refl)

call_locked-IsAnswered_example :
    IsAnswered 2
      (other ∷ arrives (evaluated 2 remote) ∷ [])
      (call_locked bridge true (other ∷ arrives (evaluated 2 remote) ∷ [])).1
call_locked-IsAnswered_example =
    call_locked-IsAnswered bridge (other ∷ arrives (evaluated 2 remote) ∷ []) refl

top_frame-evaluated_example :
    (top_frame bridge true (other ∷ [] ++ arrives (evaluated 2 remote) ∷ [])).1 ≡ top none
top_frame-evaluated_example =
    top_frame-evaluated bridge (other ∷ []) [] remote refl (other-IsSkipped, tt)
