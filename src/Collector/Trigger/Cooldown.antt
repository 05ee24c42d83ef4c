-- ===== src/Collector/Trigger/Cooldown.antt =====
-- Automatic snapshots keep their distance, whatever the calls and their times (trigger.go).
use bug_it.Base.{
  ℕ, ◌+◌, ◌≤◌, ◌≡◌, refl, ◌⊎◌, inl, inr, Bool, true, false, ◌&&◌, List, [], ◌∷◌, Option, none, some,
  arith, ◌>>=◌, Bool-cases, Option-cases, >>=-eq-some, ◌==◌, subst, sym,
}
use mathlib.Core.Path.{subst₂}
use bug_it.Text.{Bytes}
use bug_it.IoEvent.{IoEvent, payload_of}
use bug_it.Collector.Trigger.{
  Trigger, TriggerType, manual, http_5xx, http_4xx, process_exit, sigsegv, Engine, set_trigger4xx,
  set_rules5xx, is_automatic, is_cooling, fire, first_match, match_detail, evaluate_payload,
  evaluate, fire_manual, fire_process_exit, fire_sigsegv,
}

-- The calls that other components make.
pub data Call : Type 0 where
  evaluates : IoEvent → Bytes → Call
  enables4xx : Bool → Call
  sets_rules : List Bytes → Call
  fires_manual fires_process_exit fires_sigsegv : Bytes → Call

unfoldable pub step : Engine → Call → ℕ → Option (Engine × Option Trigger)
step e (evaluates evt node) now = evaluate e evt node now
step e (enables4xx enabled) now = some (set_trigger4xx e enabled, none)
step e (sets_rules rules) now = some (set_rules5xx e rules, none)
step e (fires_manual detail) now = some (fire_manual e detail now)
step e (fires_process_exit detail) now = some (fire_process_exit e detail now)
step e (fires_sigsegv detail) now = some (fire_sigsegv e detail now)

-- The snapshots of a history of calls, oldest first, each with its time.
abbrev pub record_snapshot : Option Trigger → ℕ → List (ℕ × Trigger) → List (ℕ × Trigger)
record_snapshot none now log = log
record_snapshot (some t) now log = (now, t) ∷ log

unfoldable pub run : Engine → List (ℕ × Call) → Option (Engine × List (ℕ × Trigger))
run e [] = some (e, [])
run e ((now, call) ∷ calls) = do
  (e', fired) ← step e call now
  (e'', log) ← run e' calls
  some (e'', record_snapshot fired now log)

abbrev Since : ℕ → Option ℕ → ℕ → Type 0
Since cooldown none now = Unit
Since cooldown (some t) now = t + cooldown ≤ now

-- Each automatic snapshot comes at least a cooldown after the snapshot before it, of any kind.
abbrev pub Spaced : ℕ → Option ℕ → List (ℕ × Trigger) → Type 0
Spaced cooldown last [] = Unit
Spaced cooldown last ((now, t) ∷ log) =
    (is_automatic t.kind ≡ true → Since cooldown last now) × Spaced cooldown (some now) log

-- What one call does to the cooldown.
abbrev Stepped : Engine → ℕ → Engine → Option Trigger → Type 0
Stepped e now e' none = (e'.cooldown ≡ e.cooldown) × (e'.last_fire ≡ e.last_fire)
Stepped e now e' (some t) =
    (e'.cooldown ≡ e.cooldown)
    × (e'.last_fire ≡ some now)
    × (is_automatic t.kind ≡ true → Since e.cooldown e.last_fire now)

cooled : (e : Engine) (now : ℕ) → is_cooling e now ≡ false → Since e.cooldown e.last_fire now
unfolding is_cooling
cooled e now h = elim (Option-cases e.last_fire) [
  | inl eq ↦ rw eq tt
  | inr (t, eq) ↦ rw eq (ground arith)
]

-- `fire` does nothing, or it fires and was not cooling down.
fire-cases :
    (e : Engine) (kind : TriggerType) (detail : Bytes) (now : ℕ)
    → (fire e kind detail now ≡ (e, none))
      ⊎ ((fire e kind detail now
            ≡ (record e { last_fire = some now }, some (record { kind = kind; detail = detail })))
          × ((is_automatic kind && is_cooling e now) ≡ false))
unfolding fire
fire-cases e kind detail now = elim (Bool-cases e.has_on_snap) [
  | inr off ↦ inl (ground arith)
  | inl on ↦ elim (Bool-cases (is_automatic kind && is_cooling e now)) [
    | inl wait ↦ inl (ground arith)
    | inr go ↦ inr (ground arith, go)
  ]
]

abbrev Outcome : Engine → ℕ → Engine × Option Trigger → Type 0
Outcome e now r = Stepped e now r.0 r.1

moved :
    (e : Engine) (now : ℕ) (q r : Engine × Option Trigger)
    → r ≡ q
    → Outcome e now q
    → Outcome e now r
moved e now q r eq = subst (Outcome e now) (sym eq)

fire-Outcome :
    (e : Engine) (kind : TriggerType) (detail : Bytes) (now : ℕ)
    → Outcome e now (fire e kind detail now)
fire-Outcome e kind detail now = elim (fire-cases e kind detail now) [
  | inl eq ↦ subst (Outcome e now) (sym eq) (refl, refl)
  | inr (eq, go) ↦ subst (Outcome e now) (sym eq) (refl, refl, λ a. cooled e now (ground arith))
]

evaluate_payload-Outcome :
    (e : Engine) (payload node : Bytes) (now : ℕ)
    → Outcome e now (evaluate_payload e payload node now)
unfolding evaluate_payload
evaluate_payload-Outcome e payload node now = elim (Option-cases (first_match e.rules5xx payload)) [
  | inr (rule, eq) ↦
      moved e now (fire e http_5xx (match_detail rule node) now)
        (evaluate_payload e payload node now) (ground arith)
        (fire-Outcome e http_5xx (match_detail rule node) now)
  | inl eq ↦ elim (Bool-cases e.trigger4xx) [
    | inr off ↦
        moved e now (e, none) (evaluate_payload e payload node now) (ground arith) (refl, refl)
    | inl on ↦ elim (Option-cases (first_match e.rules4xx payload)) [
      | inr (rule, eq4) ↦
          moved e now (fire e http_4xx (match_detail rule node) now)
            (evaluate_payload e payload node now) (ground arith)
            (fire-Outcome e http_4xx (match_detail rule node) now)
      | inl eq4 ↦
          moved e now (e, none) (evaluate_payload e payload node now) (ground arith) (refl, refl)
    ]
  ]
]

evaluate-Outcome :
    (e : Engine) (evt : IoEvent) (node : Bytes) (now : ℕ) {r : Engine × Option Trigger}
    → evaluate e evt node now ≡ some r
    → Outcome e now r
unfolding evaluate
evaluate-Outcome e evt node now {r} h = elim (Option-cases (payload_of evt)) [
  | inl eq ↦ moved e now (e, none) r (ground arith) (refl, refl)
  | inr (payload, eq) ↦ elim (Bool-cases (evt.is_write == 0)) [
    | inl read ↦
        moved e now (evaluate_payload e payload node now) r (ground arith)
          (evaluate_payload-Outcome e payload node now)
    | inr other ↦ moved e now (e, none) r (ground arith) (refl, refl)
  ]
]

step-Outcome :
    (e : Engine) (c : Call) (now : ℕ) {r : Engine × Option Trigger}
    → step e c now ≡ some r
    → Outcome e now r
unfolding step set_trigger4xx set_rules5xx fire_manual fire_process_exit fire_sigsegv
step-Outcome e (evaluates evt node) now {r} h = evaluate-Outcome e evt node now h
step-Outcome e (enables4xx enabled) now {r} h =
    moved e now (set_trigger4xx e enabled, none) r (ground arith) (refl, refl)
step-Outcome e (sets_rules []) now {r} h = moved e now (e, none) r (ground arith) (refl, refl)
step-Outcome e (sets_rules (rule ∷ rules)) now {r} h =
    moved e now (set_rules5xx e (rule ∷ rules), none) r (ground arith) (refl, refl)
step-Outcome e (fires_manual detail) now {r} h =
    moved e now (fire e manual detail now) r (ground arith) (fire-Outcome e manual detail now)
step-Outcome e (fires_process_exit detail) now {r} h =
    moved e now (fire e process_exit detail now) r (ground arith)
      (fire-Outcome e process_exit detail now)
step-Outcome e (fires_sigsegv detail) now {r} h =
    moved e now (fire e sigsegv detail now) r (ground arith) (fire-Outcome e sigsegv detail now)

extend-Spaced :
    (e e' : Engine) (now : ℕ) (fired : Option Trigger) (log : List (ℕ × Trigger))
    → Stepped e now e' fired
    → Spaced e'.cooldown e'.last_fire log
    → Spaced e.cooldown e.last_fire (record_snapshot fired now log)
extend-Spaced e e' now none log (c, l) h = subst₂ (λ k t. Spaced k t log) c l h
extend-Spaced e e' now (some t) log (c, l, since) h = (since, subst₂ (λ k t. Spaced k t log) c l h)

-- In every history that runs without a panic, the automatic snapshots keep the cooldown's distance from the snapshot before them.
pub run-Spaced :
    (calls : List (ℕ × Call)) (e e' : Engine) (log : List (ℕ × Trigger))
    → run e calls ≡ some (e', log)
    → Spaced e.cooldown e.last_fire log
unfolding run
run-Spaced [] e e' log h =
    let no_log : [] ≡ log = ground arith in subst (Spaced e.cooldown e.last_fire) no_log tt
run-Spaced ((now, c) ∷ calls) e e' log h =
    let (r, first, h1) = >>=-eq-some (step e c now) _ h in
    let (q, second, h2) = >>=-eq-some (run r.0 calls) _ h1 in
    let full_log : record_snapshot r.1 now q.1 ≡ log = ground arith in
    subst (Spaced e.cooldown e.last_fire) full_log (
      extend-Spaced e r.0 now r.1 q.1 (step-Outcome e c now {r = r} first)
        (run-Spaced calls r.0 q.0 q.1 second))
