-- ===== src/DebugBridge/Connect.antt =====
-- How the bridge to a Node inspector connects (pkg/debugbridge/node.go).
use bug_it.Base.{
  ℕ, zero, suc, ◌+◌, ◌-◌, Bool, true, List, [], ◌∷◌, Option, none, some, if◌then◌else◌,
}
use bug_it.Text.{Bytes}
use bug_it.Inspector.{
  InspectTarget, TargetPickOptions, inspector_port_min, inspector_port_max, is_empty_text,
}
use bug_it.Inspector.Pick.{pick_inspect_target, resolve_backend_inspector}
use bug_it.DebugBridge.{
  NodeBridge, Answered, ReplyRound, call_locked, context_ended, dial_failed, not_available, failed,
}

-- What happens while `connectWS` runs.
pub record Dial : Type 0 where
  pub has_ended : Bool
  pub dials : Bool
  pub sends : Bool
  pub rounds : List ReplyRound

-- `connectWS`, which ends with a call of `Runtime.enable`.
unfoldable pub connect_ws : NodeBridge → Dial → NodeBridge × Answered
connect_ws n d =
    if d.has_ended
    then (n, failed context_ended)
    else if d.dials
    then call_locked (record n { is_connected = true }) d.sends d.rounds
    else (n, failed dial_failed)

-- One look at the inspectors before the deadline; what they answer may change from the search by
-- `ResolveBackendInspector` to the search port by port.
pub record Look : Type 0 where
  pub has_ended : Bool
  pub list_targets : ℕ → Option (List InspectTarget)
  pub list_again : ℕ → Option (List InspectTarget)

abbrev picked_of : Option (List InspectTarget) → TargetPickOptions → Bytes
picked_of none pick = []
picked_of (some targets) pick = pick_inspect_target targets pick

-- The first port of `count` ports with a target that fits; the empty text where there is none.
unfoldable pub picked_from : (ℕ → Option (List InspectTarget)) → TargetPickOptions → ℕ → ℕ → Bytes
picked_from list_targets pick zero port = []
picked_from list_targets pick (suc count) port =
    let next = picked_from list_targets pick count (suc port) in
    let url = picked_of (list_targets port) pick in if is_empty_text url then next else url

-- The address to which a round of `Connect` connects, or the empty text.
unfoldable pub look_url : TargetPickOptions → Look → Bytes
look_url pick l =
    let by_port =
      picked_from l.list_again pick (inspector_port_max + 1 - inspector_port_min)
        inspector_port_min in
    elim (resolve_backend_inspector l.list_targets pick) [
      | none ↦ by_port
      | some insp ↦ if is_empty_text insp.web_socket_url then by_port else insp.web_socket_url
    ]

-- The loop of `Connect` over the looks that start before the deadline; `dial url` is what happens on the way.
unfoldable pub connect_loop : (Bytes → Dial) → NodeBridge → List Look → NodeBridge × Answered
connect_loop dial n [] = (n, failed not_available)
connect_loop dial n (l ∷ looks) =
    let next = connect_loop dial n looks in
    let url = look_url n.pick l in
    if l.has_ended
    then (n, failed context_ended)
    else if is_empty_text url
    then next
    else connect_ws n (dial url)

-- `Connect`
unfoldable pub connect_bridge : (Bytes → Dial) → NodeBridge → List Look → NodeBridge × Answered
connect_bridge dial n looks =
    if is_empty_text n.ws_url then connect_loop dial n looks else connect_ws n (dial n.ws_url)
