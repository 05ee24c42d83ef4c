-- ===== src/Inspector/Tap/Setup/Success.antt =====
-- When the setup of a tap succeeds (pkg/captureattach/attach_tap.go).
use bug_it.Base.{
  ◌≡◌, refl, ap, ◌↔◌, ◌⊎◌, Bool, true, false, not, List, [], ◌∷◌, ◌++◌, ◌∙◌, All, Option, none,
  some, if◌then◌else◌, arith, Bool-cases, inl, inr,
}
use bug_it.Text.{Bytes, codes}
use bug_it.Inspector.Json.{Fields, get_bool, get_object}
use bug_it.Inspector.{TargetPickOptions, is_empty_text}
use bug_it.Inspector.Session.{CdpError, CallResult, result, error}
use bug_it.Inspector.Tap.Setup.{
  AttachOptions, Round, listed_url, connect_cdp, eval_remote_bool, wait_ping, Answers, SetupError,
  then_call, then_true, setup, or_false, nested_bool, first_bool, done, listed, dial,
  ping_unreachable, disable_error,
}

-- A call that succeeds, and a result that is the value true: by itself, or in a nested result where it has no value.
abbrev pub Succeeds : CallResult → Type 0
Succeeds (result m) = Unit
Succeeds (error e) = ⊥

abbrev pub IsTrueValue : Fields → Type 0
IsTrueValue m =
    (get_bool m (codes "value") ≡ some true)
    ⊎ ((get_bool m (codes "value") ≡ none)
        × ((nested : Fields) × (get_object m (codes "result") ≡ some nested)
            × (get_bool nested (codes "value") ≡ some true)))

abbrev pub ReturnsTrue : CallResult → Type 0
ReturnsTrue (result m) = IsTrueValue m
ReturnsTrue (error e) = ⊥

-- In one of the rounds the ping has been seen, and in no round before it the context was done.
abbrev pub HasPing : List (Bool × Bool) → Type 0
HasPing rounds =
    (before : List (Bool × Bool)) × (cancelled : Bool) × (after : List (Bool × Bool)) × (rounds
      ≡ before ++ (true, cancelled) ∷ after)
    × All (λ round. round ≡ (false, false)) before

first_bool_iff :
    (own : Option Bool) (nested : Option Fields)
    → (first_bool own (nested_bool nested) ≡ true) ↔ (
        (own ≡ some true)
        ⊎ ((own ≡ none)
            × ((m : Fields) × (nested ≡ some m) × (get_bool m (codes "value") ≡ some true))))
first_bool_iff (some b) nested =
    (λ e. inl (ap some e), λ h. elim h [ inl e ↦ cc | inr (e, k) ↦ cc ])
first_bool_iff none none = (λ e. cc, λ h. elim h [ inl e ↦ cc | inr (e, (m, k, v)) ↦ cc ])
first_bool_iff none (some m) = (
  λ e. inr (refl, (m, refl, own_true (get_bool m (codes "value")) e)),
  λ h. elim h [ inl e ↦ cc | inr (e, (m', k, v)) ↦ cc ],
)
  where
    own_true : (o : Option Bool) → or_false o ≡ true → o ≡ some true
    own_true none e = cc
    own_true (some b) e = ap some e

eval_remote_bool_iff : (m : Fields) → (eval_remote_bool m ≡ true) ↔ IsTrueValue m
unfolding eval_remote_bool
eval_remote_bool_iff m = first_bool_iff (get_bool m (codes "value")) (get_object m (codes "result"))

wait_ping-HasPing : (rounds : List (Bool × Bool)) → wait_ping rounds ≡ true → HasPing rounds
unfolding wait_ping
wait_ping-HasPing [] e = cc
wait_ping-HasPing ((true, cancelled) ∷ rounds) e = ([], cancelled, rounds, refl, tt)
wait_ping-HasPing ((false, true) ∷ rounds) e = cc
wait_ping-HasPing ((false, false) ∷ rounds) e =
    let (before, cancelled, after, same, quiet) = wait_ping-HasPing rounds e in
    ((false, false) ∷ before, cancelled, after, ap (λ l. (false, false) ∷ l) same, (refl, quiet))

ping_seen :
    (before after : List (Bool × Bool)) (cancelled : Bool)
    → All (λ round. round ≡ (false, false)) before
    → wait_ping (before ++ (true, cancelled) ∷ after) ≡ true
unfolding wait_ping
ping_seen [] after cancelled h = refl
ping_seen (round ∷ before) after cancelled (quiet, h) =
    rw quiet (ping_seen before after cancelled h)

wait_ping_iff : (rounds : List (Bool × Bool)) → (wait_ping rounds ≡ true) ↔ HasPing rounds
wait_ping_iff rounds = (
  wait_ping-HasPing rounds,
  λ (before, cancelled, after, same, quiet).
      ap wait_ping same ∙ ping_seen before after cancelled quiet,
)

then_call_iff :
    (r : CallResult) (wrap : CdpError → SetupError) (next : Option SetupError) (P : Type 0)
    → (next ≡ none) ↔ P
    → (then_call r wrap next ≡ none) ↔ (Succeeds r × P)
then_call_iff (result m) wrap next P h = (λ k. (tt, h.0 k), λ k. h.1 k.1)
then_call_iff (error e) wrap next P h = (λ k. absurd (ground arith), λ k. absurd k.0)

then_true_iff :
    (r : CallResult) (wrap : CdpError → SetupError) (refused' : SetupError)
    (next : Option SetupError) (P : Type 0)
    → (next ≡ none) ↔ P
    → (then_true r wrap refused' next ≡ none) ↔ (ReturnsTrue r × P)
then_true_iff (result m) wrap refused' next P h = elim (Bool-cases (eval_remote_bool m)) [
  | inl e ↦ rw e (λ k. ((eval_remote_bool_iff m).0 e, h.0 k), λ k. h.1 k.1)
  | inr e ↦ rw e (
    λ k. absurd (ground arith),
    λ k. let yes = (eval_remote_bool_iff m).1 k.0 in absurd (ground arith),
  )
]
then_true_iff (error e) wrap refused' next P h = (λ k. absurd (ground arith), λ k. absurd k.0)

-- Where the preload is to be disabled, the call that disables it succeeds.
abbrev pub IsDisabled : Bool → CallResult → Type 0
IsDisabled true r = Succeeds r
IsDisabled false r = Unit

disable_iff :
    (wanted : Bool) (r : CallResult)
    → ((if wanted then then_call r disable_error none else none) ≡ none) ↔ IsDisabled wanted r
disable_iff false r = (λ k. tt, λ k. refl)
disable_iff true (result m) = (λ k. tt, λ k. refl)
disable_iff true (error e) = (λ k. absurd (ground arith), λ k. absurd k)

last_iff :
    (opts : AttachOptions) (a : Answers)
    → ((if not (wait_ping a.ping_rounds)
          then some ping_unreachable
          else if opts.disable_preload
          then then_call a.disable disable_error none
          else none)
        ≡ none)
      ↔ (HasPing a.ping_rounds × IsDisabled opts.disable_preload a.disable)
last_iff opts a =
    let disabled = disable_iff opts.disable_preload a.disable in
    let ping = wait_ping_iff a.ping_rounds in
    elim (Bool-cases (wait_ping a.ping_rounds)) [
      | inr e ↦
          rw e (λ k. absurd (ground arith), λ k. let seen = ping.1 k.0 in absurd (ground arith))
      | inl e ↦ rw e (λ k. (ping.0 e, disabled.0 k), λ k. disabled.1 k.1)
    ]

-- All that must go well for a tap to be set up.
abbrev pub IsSetUp : AttachOptions → Answers → Type 0
IsSetUp opts a =
    Succeeds a.runtime_enable
    × (Succeeds a.add_binding
        × (Succeeds a.network_enable
            × (ReturnsTrue a.inject
                × (ReturnsTrue a.ready
                    × (Succeeds a.ping
                        × (HasPing a.ping_rounds × IsDisabled opts.disable_preload a.disable))))))

-- `setup` succeeds exactly where every call it makes succeeds, the injected hook and the check of the process
-- return true (as the value, or as the value of a nested result where there is no value), the ping has been seen in a
-- round of the wait before which the context was done in none, and, where the preload is to be disabled, that call
-- succeeds too.
pub setup-succeeds : (opts : AttachOptions) (a : Answers) → (setup opts a ≡ none) ↔ IsSetUp opts a
unfolding setup
setup-succeeds opts a = then_call_iff a.runtime_enable _ _ _ (
    then_call_iff a.add_binding _ _ _ (
      then_call_iff a.network_enable _ _ _ (
        then_true_iff a.inject _ _ _ _
          (then_true_iff a.ready _ _ _ _ (then_call_iff a.ping _ _ _ (last_iff opts a))))))

-- The rounds up to the one that yields an address.
abbrev pub IsFirst : List Round → TargetPickOptions → Bytes → Type 0
IsFirst [] opts url = ⊥
IsFirst (done ∷ rounds) opts url = ⊥
IsFirst (listed answer ∷ rounds) opts url =
    ((is_empty_text (listed_url answer opts) ≡ false) × (listed_url answer opts ≡ url))
    ⊎ ((is_empty_text (listed_url answer opts) ≡ true) × IsFirst rounds opts url)

-- `ConnectCDP` dials an address exactly where it is the first that a round yields, before the deadline and before
-- the context is done.
pub connect_cdp-dial :
    (rounds : List Round) (opts : TargetPickOptions) (url : Bytes)
    → (connect_cdp rounds opts ≡ dial url) ↔ IsFirst rounds opts url
unfolding connect_cdp
connect_cdp-dial [] opts url = (λ e. absurd (ground arith), λ h. absurd h)
connect_cdp-dial (done ∷ rounds) opts url = (λ e. absurd (ground arith), λ h. absurd h)
connect_cdp-dial (listed answer ∷ rounds) opts url =
    let rest = connect_cdp-dial rounds opts url in
    elim (Bool-cases (is_empty_text (listed_url answer opts))) [
      | inl e ↦ (
        λ k. inr (e, rest.0 (ground arith)),
        λ h. elim h [ inl p ↦ absurd (ground arith) | inr p ↦ rw e (rest.1 p.1) ],
      )
      | inr e ↦ (
        λ k. inl (e, ground arith),
        λ h. elim h [ inl p ↦ rw e (ap dial p.1) | inr p ↦ absurd (ground arith) ],
      )
    ]
