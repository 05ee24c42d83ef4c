-- ===== src/Inspector/Tap/Setup.antt =====
-- How a tap is started: the connection, the calls of `setup` and the ping (attach_tap.go and cdp_session.go).
pub mod Success
use bug_it.Base.{
  ℤ, pos, ◌≡◌, refl, ap, ◌↔◌, ◌⊎◌, Bool, true, false, not, ◌&&◌, ◌||◌, List, [], ◌∷◌, Option, none,
  some, leb_ℤ, if◌then◌else◌, arith, Bool-cases, inl, inr,
}
use bug_it.Text.{Bytes, codes}
use bug_it.Inspector.{InspectTarget, TargetPickOptions, BackendInspector, is_empty_text}
use bug_it.Inspector.Pick.{pick_inspect_target}
use bug_it.Inspector.Json.{Fields, get_bool, get_object}
use bug_it.Inspector.Session.{CdpError, CallResult, result, error}
use bug_it.Inspector.Tap.{AttachTap}

pub record AttachOptions : Type 0 where
  pub inspect_port : ℤ
  pub inspector_ws_url : Bytes
  pub inspector_target : BackendInspector
  pub pick : TargetPickOptions
  pub comm : Bytes
  pub has_sink : Bool
  pub disable_preload : Bool

-- One round of the loop of `ConnectCDP`: the context is done, or the inspector answers or fails.
pub data Round : Type 0 where
  done : Round
  listed : Option (List InspectTarget) → Round

pub data Connected : Type 0 where
  dial : Bytes → Connected
  context_error : Connected
  not_available : Connected

-- The address that an answer yields, which is empty where there is none.
abbrev pub listed_url : Option (List InspectTarget) → TargetPickOptions → Bytes
listed_url none opts = []
listed_url (some targets) opts = pick_inspect_target targets opts

-- `ConnectCDP`, over the rounds that begin before the deadline.
unfoldable pub connect_cdp : List Round → TargetPickOptions → Connected
connect_cdp [] opts = not_available
connect_cdp (done ∷ rounds) opts = context_error
connect_cdp (listed answer ∷ rounds) opts =
    let rest = connect_cdp rounds opts in
    let url = listed_url answer opts in if is_empty_text url then rest else dial url

-- `evalRemoteBool`
abbrev pub or_false : Option Bool → Bool
or_false none = false
or_false (some b) = b

abbrev pub nested_bool : Option Fields → Bool
nested_bool none = false
nested_bool (some m) = or_false (get_bool m (codes "value"))

abbrev pub first_bool : Option Bool → Bool → Bool
first_bool (some b) later = b
first_bool none later = later

unfoldable pub eval_remote_bool : Fields → Bool
eval_remote_bool m =
    first_bool (get_bool m (codes "value")) (nested_bool (get_object m (codes "result")))

-- One round of the loop of `waitPing`: whether the ping has been seen, and whether the context is done.
unfoldable pub wait_ping : List (Bool × Bool) → Bool
wait_ping [] = false
wait_ping ((seen, cancelled) ∷ rounds) =
    let rest = wait_ping rounds in if seen then true else if cancelled then false else rest

-- What the calls of `setup` return, in the order in which it makes them, and the rounds of `waitPing`.
pub record Answers : Type 0 where
  pub runtime_enable : CallResult
  pub add_binding : CallResult
  pub network_enable : CallResult
  pub inject : CallResult
  pub ready : CallResult
  pub ping : CallResult
  pub ping_rounds : List (Bool × Bool)
  pub disable : CallResult

pub data SetupError : Type 0 where
  runtime_enable_error : CdpError → SetupError
  add_binding_error : CdpError → SetupError
  network_enable_error : CdpError → SetupError
  inject_error : CdpError → SetupError
  inject_false : SetupError
  ready_error : CdpError → SetupError
  wrong_process : SetupError
  ping_error : CdpError → SetupError
  ping_unreachable : SetupError
  disable_error : CdpError → SetupError

-- `if _, err := ...; err != nil { return ... }` in front of what follows.
abbrev pub then_call : CallResult → (CdpError → SetupError) → Option SetupError → Option SetupError
then_call (result m) wrap next = next
then_call (error e) wrap next = some (wrap e)

-- The same for a call whose result must be the value true.
abbrev pub then_true :
    CallResult → (CdpError → SetupError) → SetupError → Option SetupError → Option SetupError
then_true (result m) wrap refused next = if eval_remote_bool m then next else some refused
then_true (error e) wrap refused next = some (wrap e)

-- `setup`; `none` is success.
unfoldable pub setup : AttachOptions → Answers → Option SetupError
setup opts a = then_call a.runtime_enable runtime_enable_error (
    then_call a.add_binding add_binding_error (
      then_call a.network_enable network_enable_error (
        then_true a.inject inject_error inject_false (
          then_true a.ready ready_error wrong_process (
            then_call a.ping ping_error (
              if not (wait_ping a.ping_rounds)
              then some ping_unreachable
              else if opts.disable_preload
              then then_call a.disable disable_error none
              else none))))))

pub data StartError : Type 0 where
  sink_required : StartError
  connect_error : Connected → StartError
  dial_error : StartError
  setup_error : SetupError → StartError

-- The tap or the error, and whether a session that was opened has been closed again.
pub data Started : Type 0 where
  started : AttachTap → Started
  refused : StartError → Started
  closed_again : StartError → Started

-- The tap before any message.
unfoldable pub new_tap : AttachOptions → AttachTap
new_tap opts = record {
  comm = if is_empty_text opts.comm then codes "node" else opts.comm;
  target = opts.inspector_target;
  next_fd = 0;
  inbound_count = 0;
  ping_seen = false;
}

-- What the outside does: whether a dial succeeds, the rounds of `ConnectCDP` on a port, what the calls of `setup`
-- return, and what the handlers do to the tap while `setup` runs.
pub record Outside : Type 0 where
  pub dials : Bytes → Bool
  pub rounds : ℤ → List Round
  pub answers : Answers
  pub meanwhile : AttachTap → AttachTap

-- `ConnectCDPURL`, which dials no empty address, and what follows it.
unfoldable pub start_session : Outside → AttachOptions → Bytes → Started
start_session env opts url =
    if is_empty_text url
    then refused dial_error
    else if not (env.dials url)
    then refused dial_error
    else elim (setup opts env.answers) [
      | some e ↦ closed_again (setup_error e)
      | none ↦ started (env.meanwhile (new_tap opts))
    ]

abbrev with_url : Connected → (Bytes → Started) → Started
with_url (dial url) next = next url
with_url context_error next = refused (connect_error context_error)
with_url not_available next = refused (connect_error not_available)

-- The port that is asked for the targets.
unfoldable pub inspect_port_of : AttachOptions → ℤ
inspect_port_of opts = if leb_ℤ opts.inspect_port (pos 0) then pos 9229 else opts.inspect_port

-- `StartAttachTap`
unfoldable pub start_attach_tap : Outside → AttachOptions → Started
start_attach_tap env opts =
    if not opts.has_sink
    then refused sink_required
    else if not (is_empty_text opts.inspector_ws_url)
    then start_session env opts opts.inspector_ws_url
    else with_url (connect_cdp (env.rounds (inspect_port_of opts)) opts.pick)
        (start_session env opts)
