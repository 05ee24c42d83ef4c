-- ===== src/Examples/Inspecting.antt =====
-- A debug session with one call, and the targets of one inspector.
use bug_it.Base.{
  inl, ℕ, ℤ, pos, ◌≡◌, ◌⊎◌, ◌↔◌, refl, true, false, List, [], ◌∷◌, Option, none, some, All, arith,
  ◌==◌, if◌then◌else◌,
}
use bug_it.Text.{Bytes, codes, bytes_eq}
use bug_it.Inspector.{InspectTarget, TargetPickOptions}
use bug_it.Inspector.Pick.{
  snapshot_port_targets, resolve_backend_inspector, resolve_backend_inspector_with_diff,
  diff_new_targets, new_backend_targets,
}
use bug_it.Inspector.Pick.Best.Chosen.{Choice, resolve_backend_inspector-Choice}
use bug_it.Inspector.Pick.Fresh.{IsFresh, NewChoice, resolve_backend_inspector_with_diff-NewChoice}
use bug_it.Inspector.Json.{Json, Fields, field, no_fields, object, text, lookup, get_number}
use bug_it.Inspector.Session.{
  update, stored, waiting, leaving, returned, crashed, failed, context_done, ended, panicked,
  message_id, result_of, dispatch_by, dispatch, Move, see_open, store, send, receive, go_on, load,
  read, route, deliver, call, turn, drop_conn, System, Step, Reach, start, later, init,
  fresh_session, register, on, as_id,
}
use bug_it.Inspector.Session.{CallResult, result, error, send_failed}
use bug_it.Inspector.Pick.{no_inspector}
use bug_it.Inspector.Json.{boolean, get_bool}
use bug_it.Inspector.Tap.{AttachTap, BindingMessage, handle_methods}
use bug_it.Inspector.Tap.Events.{IsRun, marks_of, handle_methods-IsRun}
use bug_it.Inspector.Tap.Setup.{AttachOptions, Answers, new_tap, setup, wait_ping, eval_remote_bool}
use bug_it.Inspector.Tap.Setup.Success.{IsSetUp, setup-succeeds}
use bug_it.Inspector.Session.Places.{id_at}
use bug_it.Inspector.Session.Safety.{Reach-own_answer, Reach-crash}
use bug_it.Inspector.Session.Progress.{Reach-returns, IsStranded, Step-IsStranded}

-- The answer to the first call.
abbrev answer : Fields
answer =
    field (codes "id") (Json.number (pos 1)) (field (codes "result") (object no_fields) no_fields)

-- A call has stored its channel.
abbrev stored_run : (s : System) × Reach init s
unfolding update
stored_run = (
  _,
  later
      (later (later start (call 0 (see_open (codes "Runtime.enable") none refl)))
        (call 0 (Move.number (omega arith))))
      (call 0 store),
)

-- The pump holds the answer, and the call waits for it.
abbrev holding_run : (s : System) × Reach init s
unfolding update
holding_run = (
  _,
  later
      (later
        (later (later (later (stored_run.1) (call 0 (send refl))) (turn (go_on refl)))
          (turn (load refl)))
        (turn (read answer)))
      (register (codes "Network.requestWillBeSent")),
)

-- The call leaves with its answer.
abbrev answered_run : (s : System) × Reach init s
unfolding update dispatch dispatch_by get_number lookup bytes_eq on
answered_run = (
  _,
  later (later (later holding_run.1 (turn route)) (turn (deliver refl)))
      (call 0 (receive answer refl)),
)

Reach-own_answer_example :
    (message_id answer ≡ some 1)
    × ((j : ℕ) → id_at (answered_run.0.callers j) ≡ some 1 → ◌≡◌ {A = ℕ} 0 j)
unfolding update dispatch dispatch_by get_number lookup bytes_eq on
Reach-own_answer_example = Reach-own_answer answered_run.1 0 1 answer refl

Reach-crash_example :
    ((i : ℕ) → stored_run.0.callers i ≡ crashed → stored_run.0.shared.closed ≡ true)
    × (stored_run.0.pump ≡ panicked → stored_run.0.shared.closed ≡ true)
    × ((i id : ℕ) (method : Bytes) (params : Option Fields)
        → stored_run.0.callers i ≡ stored id method params
        → stored_run.0.shared.closed ≡ false
        → (t : System) × Reach stored_run.0 t × (t.callers i ≡ crashed))
unfolding update
Reach-crash_example = Reach-crash stored_run.1

-- The last part of the theorem applies there.
stored_crashes : (t : System) × Reach stored_run.0 t × (t.callers 0 ≡ crashed)
unfolding update
stored_crashes = Reach-crash_example.2 0 1 (codes "Runtime.enable") none refl refl

Reach-returns_example :
    (t : System) × (m : Fields) × Reach holding_run.0 t
    × (t.callers 0 ≡ returned (result_of m))
    × (message_id m ≡ some 1)
unfolding update message_id as_id get_number lookup bytes_eq on
Reach-returns_example = Reach-returns holding_run.1 0 1 answer refl refl refl

-- The pump has ended while a call waits.
abbrev stranded : System
stranded = record {
  shared = record fresh_session {
    closed = true;
    closing = true;
    next_id = 1;
    pending = λ id. true;
  };
  callers = λ i. waiting 1;
  pump = ended;
}

abbrev dropped : System
dropped = record stranded { shared = record stranded.shared { has_conn = false; closing = false } }

dropping : Step stranded dropped
dropping = drop_conn refl

Step-IsStranded_example :
    IsStranded dropped 0 1 ⊎ (dropped.callers 0 ≡ leaving 1 (failed context_done))
Step-IsStranded_example = Step-IsStranded dropping 0 1 (refl, refl, refl)

abbrev backend : InspectTarget
backend = record {
  id = codes "a1";
  kind = codes "node";
  title = codes "/srv/api/server.js";
  url = codes "file:///srv/api/server.js";
  description = codes "node.js instance";
  web_socket_debugger_url = codes "ws://127.0.0.1:9230/a1";
}

abbrev pick : TargetPickOptions
pick = record { backend_port = pos 4000; backend_pid = pos 0; capture_root = codes "/srv/api" }

-- One inspector answers, on port 9230.
abbrev one_inspector : ℕ → Option (List InspectTarget)
one_inspector port = if port == 9230 then some (backend ∷ []) else none

resolve_backend_inspector-Choice_example :
    Choice pick (snapshot_port_targets one_inspector) (resolve_backend_inspector one_inspector pick)
resolve_backend_inspector-Choice_example = resolve_backend_inspector-Choice one_inspector pick

resolve_backend_inspector_with_diff-NewChoice_example :
    All
      (IsFresh pick [])
      (new_backend_targets pick (diff_new_targets [] (snapshot_port_targets one_inspector)))
    × NewChoice pick
        (new_backend_targets pick (diff_new_targets [] (snapshot_port_targets one_inspector)))
        (resolve_backend_inspector one_inspector pick)
        (resolve_backend_inspector_with_diff one_inspector [] pick)
resolve_backend_inspector_with_diff-NewChoice_example =
    resolve_backend_inspector_with_diff-NewChoice one_inspector [] pick

abbrev options : AttachOptions
options = record {
  inspect_port = pos 9230;
  inspector_ws_url = codes "ws://127.0.0.1:9230/a1";
  inspector_target = no_inspector;
  pick = pick;
  comm = [];
  has_sink = true;
  disable_preload = false;
}

abbrev tap : AttachTap
tap = new_tap options

-- A decoder that takes every text for the payload of a request, and a table with one status text.
abbrev unmarshal : Bytes → Option BindingMessage
unmarshal s = some (record { dir = pos 0; payload = s; ping = false })

abbrev status_text : ℤ → Bytes
status_text code = codes "OK"

abbrev binding_called : Bytes × Fields × ℕ
binding_called = (
  codes "Runtime.bindingCalled",
  field (codes "payload") (text (codes "GET / HTTP/1.1")) no_fields,
  7000,
)

handle_methods-IsRun_example :
    IsRun tap
      (marks_of unmarshal (binding_called ∷ binding_called ∷ []))
      (handle_methods unmarshal status_text tap (binding_called ∷ binding_called ∷ []))
handle_methods-IsRun_example =
    handle_methods-IsRun unmarshal status_text tap (binding_called ∷ binding_called ∷ [])

abbrev yes : CallResult
yes = result (field (codes "value") (boolean true) no_fields)

abbrev all_answers : Answers
all_answers = record {
  runtime_enable = yes;
  add_binding = yes;
  network_enable = yes;
  inject = yes;
  ready = yes;
  ping = yes;
  ping_rounds = (false, false) ∷ (true, false) ∷ [];
  disable = error send_failed;
}

setup-succeeds_example : (setup options all_answers ≡ none) ↔ IsSetUp options all_answers
setup-succeeds_example = setup-succeeds options all_answers

-- The setup does succeed on these answers.
setup_runs : setup options all_answers ≡ none
unfolding wait_ping eval_remote_bool get_bool lookup bytes_eq
setup_runs = (setup-succeeds options all_answers).1 (
  tt,
  (
    tt,
    (tt, (inl refl, (inl refl, (tt, (((false, false) ∷ [], false, [], refl, (refl, tt)), tt))))),
  ),
)
