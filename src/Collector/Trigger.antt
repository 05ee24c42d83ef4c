-- ===== src/Collector/Trigger.antt =====
-- dre-collector/internal/trigger/trigger.go and config.go: which events take a snapshot. The call of
-- `time.Now` is an argument, and the call of `onSnap` is a result.
pub mod Rules
pub mod Cooldown
use bug_it.Base.{
  ℕ, ◌+◌, ◌-◌, ◌*◌, Bool, true, false, not, ◌&&◌, ◌||◌, List, [], ◌∷◌, ◌++◌, Option, none, some,
  ltb, ◌==◌, if◌then◌else◌, ◌>>=◌,
}
use bug_it.Text.{Bytes, codes}
use bug_it.Text.Search.{contains}
use bug_it.IoEvent.{IoEvent, payload_of}

-- `manifest.TriggerType`
pub data TriggerType : Type 0 where
  manual http_5xx http_4xx process_exit sigsegv : TriggerType

-- `manifest.Trigger`
pub record Trigger : Type 0 where
  pub kind : TriggerType
  pub detail : Bytes

-- `has_on_snap` says that the callback is not nil; `last_fire` is `none` for the zero time, which lies
-- further back than any cooldown.
pub record Engine : Type 0 where
  pub has_on_snap : Bool
  pub rules5xx : List Bytes
  pub rules4xx : List Bytes
  pub trigger4xx : Bool
  pub cooldown : ℕ
  pub last_fire : Option ℕ

-- `New`, with a cooldown of 60 seconds.
unfoldable pub new : Bool → Engine
new has_on_snap = record {
  has_on_snap = has_on_snap;
  rules5xx = codes "HTTP/1.1 5" ∷ codes "HTTP/1.0 5" ∷ [];
  rules4xx = codes "HTTP/1.1 4" ∷ codes "HTTP/1.0 4" ∷ [];
  trigger4xx = false;
  cooldown = 60 * 1000000000;
  last_fire = none;
}

-- `SetTrigger4xx`
unfoldable pub set_trigger4xx : Engine → Bool → Engine
set_trigger4xx e enabled = record e { trigger4xx = enabled }

-- `SetRules5xx`
unfoldable pub set_rules5xx : Engine → List Bytes → Engine
set_rules5xx e [] = e
set_rules5xx e (rule ∷ rules) = record e { rules5xx = rule ∷ rules }

-- `t == TriggerHTTP5xx || t == TriggerHTTP4xx`
unfoldable pub is_automatic : TriggerType → Bool
is_automatic http_5xx = true
is_automatic http_4xx = true
is_automatic _ = false

-- `time.Since(e.lastFire) < e.cooldown`
unfoldable pub is_cooling : Engine → ℕ → Bool
is_cooling e now = elim e.last_fire [ none ↦ false | some t ↦ ltb now (t + e.cooldown) ]

-- `fire`: the engine afterwards, and the trigger that is handed to the callback, if it is called.
unfoldable pub fire : Engine → TriggerType → Bytes → ℕ → Engine × Option Trigger
fire e t detail now =
    if not e.has_on_snap
    then (e, none)
    else if is_automatic t && is_cooling e now
    then (e, none)
    else (record e { last_fire = some now }, some (record { kind = t; detail = detail }))

-- The first rule that the payload contains.
unfoldable pub first_match : List Bytes → Bytes → Option Bytes
first_match [] payload = none
first_match (rule ∷ rules) payload =
    if contains payload rule then some rule else first_match rules payload

-- `"matched " + rule + " from " + nodeID`
unfoldable pub match_detail : Bytes → Bytes → Bytes
match_detail rule node = codes "matched " ++ rule ++ codes " from " ++ node

-- What `Evaluate` does with the payload of a read.
unfoldable pub evaluate_payload : Engine → Bytes → Bytes → ℕ → Engine × Option Trigger
evaluate_payload e payload node now = elim (first_match e.rules5xx payload) [
  | some rule ↦ fire e http_5xx (match_detail rule node) now
  | none ↦ if not e.trigger4xx then (e, none) else elim (first_match e.rules4xx payload) [
    | some rule ↦ fire e http_4xx (match_detail rule node) now
    | none ↦ (e, none)
  ]
]

-- `Evaluate`; `none` is the panic of a payload length past the array.
unfoldable pub evaluate : Engine → IoEvent → Bytes → ℕ → Option (Engine × Option Trigger)
evaluate e evt node now =
    if evt.is_write == 2
    then some (e, none)
    else if not (evt.is_write == 0)
    then some (e, none)
    else do payload ← payload_of evt; some (evaluate_payload e payload node now)

-- `Manual`, `ProcessExit` and `SIGSEGV`
unfoldable pub fire_manual : Engine → Bytes → ℕ → Engine × Option Trigger
fire_manual e detail now = fire e manual detail now

unfoldable pub fire_process_exit : Engine → Bytes → ℕ → Engine × Option Trigger
fire_process_exit e detail now = fire e process_exit detail now

unfoldable pub fire_sigsegv : Engine → Bytes → ℕ → Engine × Option Trigger
fire_sigsegv e detail now = fire e sigsegv detail now
