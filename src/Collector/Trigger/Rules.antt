-- ===== src/Collector/Trigger/Rules.antt =====
-- Which reads match which rules (Evaluate in trigger.go).
use bug_it.Base.{
  ℕ, ◌≡◌, refl, ◌⊎◌, inl, inr, true, false, not, ◌&&◌, List, [], ◌∷◌, Option, none, some, arith,
  if◌then◌else◌, All, Bool-cases, ◌≢◌, take,
}
use native.Mathlib.Decide.{ℕ_discrete}
use bug_it.Text.{Bytes}
use bug_it.Text.Search.{contains}
use bug_it.IoEvent.{IoEvent, IsBounded, payload_of_within}
use bug_it.Collector.Trigger.{
  Trigger, TriggerType, http_5xx, http_4xx, Engine, is_automatic, is_cooling, fire, first_match,
  match_detail, evaluate_payload, evaluate,
}

-- The rules before the first match do not match, and that one does.
pub data Matches (payload : Bytes) : List Bytes → Bytes → Type 0 where
  here :
      {rule : Bytes} {rules : List Bytes}
      → contains payload rule ≡ true
      → Matches payload (rule ∷ rules) rule
  later :
      {other rule : Bytes} {rules : List Bytes}
      → contains payload other ≡ false
      → Matches payload rules rule
      → Matches payload (other ∷ rules) rule

-- The loop over the rules finds the first match, or none of them matches.
pub first_match-cases :
    (rules : List Bytes) (payload : Bytes)
    → ((rule : Bytes) × (first_match rules payload ≡ some rule) × Matches payload rules rule)
      ⊎ ((first_match rules payload ≡ none) × All (λ rule. contains payload rule ≡ false) rules)
unfolding first_match
first_match-cases [] payload = inr (refl, tt)
first_match-cases (rule ∷ rules) payload = elim (Bool-cases (contains payload rule)) [
  | inl hit ↦ inl (rule, rw hit, here hit)
  | inr miss ↦ elim (first_match-cases rules payload) [
    | inl (r, e, m) ↦ inl (r, rw miss e, later miss m)
    | inr (e, all) ↦ inr (rw miss e, (miss, all))
  ]
]

-- What an event asks for, by the payload of a read: the rule of a server error, else, if that is enabled,
-- the rule of a client error.
pub data Asks (e : Engine) (payload : Bytes) : Option (TriggerType × Bytes) → Type 0 where
  server_error :
      {rule : Bytes} → Matches payload e.rules5xx rule → Asks e payload (some (http_5xx, rule))
  client_error :
      {rule : Bytes}
      → All (λ r. contains payload r ≡ false) e.rules5xx
      → e.trigger4xx ≡ true
      → Matches payload e.rules4xx rule
      → Asks e payload (some (http_4xx, rule))
  disabled :
      All (λ r. contains payload r ≡ false) e.rules5xx → e.trigger4xx ≡ false → Asks e payload none
  quiet :
      All (λ r. contains payload r ≡ false) e.rules5xx
      → All (λ r. contains payload r ≡ false) e.rules4xx
      → Asks e payload none

-- The outcome of what is asked for: nothing while the engine cools down or has no callback.
abbrev pub answer : Engine → Option (TriggerType × Bytes) → Bytes → ℕ → Engine × Option Trigger
answer e none node now = (e, none)
answer e (some (kind, rule)) node now =
    if e.has_on_snap && not (is_cooling e now)
    then (
      record e { last_fire = some now },
      some (record { kind = kind; detail = match_detail rule node }),
    )
    else (e, none)

fire_automatic :
    (e : Engine) (kind : TriggerType) (rule node : Bytes) (now : ℕ)
    → is_automatic kind ≡ true
    → fire e kind (match_detail rule node) now ≡ answer e (some (kind, rule)) node now
unfolding fire
fire_automatic e kind rule node now h = ground arith

-- The answer is the one for what the payload asks for.
pub evaluate_payload-Asks :
    (e : Engine) (payload node : Bytes) (now : ℕ)
    → (asked : Option (TriggerType × Bytes)) × Asks e payload asked
      × (evaluate_payload e payload node now ≡ answer e asked node now)
unfolding evaluate_payload
evaluate_payload-Asks e payload node now = elim (first_match-cases e.rules5xx payload) [
  | inl (rule, eq, m) ↦ (
    some (http_5xx, rule),
    server_error m,
    rw (eq, evaluate_payload)
        (fire_automatic e http_5xx rule node now (unfold is_automatic in refl)),
  )
  | inr (eq, all) ↦ elim (Bool-cases e.trigger4xx) [
    | inr off ↦ (none, disabled all off, rw (eq, evaluate_payload) (rw off))
    | inl on ↦ elim (first_match-cases e.rules4xx payload) [
      | inl (rule, eq4, m) ↦ (
        some (http_4xx, rule),
        client_error all on m,
        ground (arith, fire_automatic e http_4xx rule node now (unfold is_automatic in refl)),
      )
      | inr (eq4, all4) ↦ (none, quiet all all4, ground arith)
    ]
  ]
]

-- A read with a length inside its payload is answered by what its payload asks for; any other event changes nothing.
pub evaluate-Asks :
    (e : Engine) (evt : IoEvent) (node : Bytes) (now : ℕ)
    → IsBounded evt
    → ((evt.is_write ≡ 0)
        × (asked : Option (TriggerType × Bytes)) × Asks e (take evt.payload_len evt.payload) asked
        × (evaluate e evt node now ≡ some (answer e asked node now)))
      ⊎ ((evt.is_write ≢ 0) × (evaluate e evt node now ≡ some (e, none)))
unfolding evaluate
evaluate-Asks e evt node now b = elim (ℕ_discrete evt.is_write 0) [
  | no other ↦ inr (other, ground arith)
  | yes read ↦
      let (asked, asks, eq) = evaluate_payload-Asks e (take evt.payload_len evt.payload) node now in
      inl (read, asked, asks, ground (arith, payload_of_within evt b, eq))
]

-- A full event is always judged.
pub evaluate-total :
    (e : Engine) (evt : IoEvent) (node : Bytes) (now : ℕ)
    → IsBounded evt
    → (r : Engine × Option Trigger) × (evaluate e evt node now ≡ some r)
evaluate-total e evt node now b = elim (evaluate-Asks e evt node now b) [
  | inl (_, asked, _, eq) ↦ (answer e asked node now, eq)
  | inr (_, eq) ↦ ((e, none), eq)
]
