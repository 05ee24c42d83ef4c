-- ===== src/Inspector/Session/Progress.antt =====
-- How a call gets its answer, and when it cannot (pkg/captureattach/cdp_session.go).
use bug_it.Base.{
  ℕ, ℤ, pos, negsuc, ◌≡◌, refl, subst, sym, ap, ◌∙◌, ◌⊎◌, inl, inr, true, false, Option, none, some,
  arith, Option-cases,
}
use bug_it.Text.{codes}
use bug_it.Inspector.Json.{Fields, get_number}
use bug_it.Inspector.Session.{
  stop, go_on, load, load_nil, read, read_error, close, close_again, message, failed, context_done,
  Shared, update, Caller, waiting, leaving, returned, Pump, checking, holding, delivering, ended,
  message_id, as_id, result_of, call_result, dispatch_by, dispatch, Move, refuse, see_open, number,
  store, send, send_error, send_nil, receive, cancel, delete, again, Turn, route, deliver, System,
  Step, call, turn, register, swap_closed, drop_conn, init, Reach, start, later, on,
}
use bug_it.Inspector.Session.Places.{Local}
use bug_it.Inspector.Session.Invariant.{Reach-Inv}
use bug_it.Inspector.Session.Turns.{update-cases}
use bug_it.Inspector.Session.Safety.{call_at, update_here}

turn_at :
    (s : System) {p : Pump} {t : Shared} {q : Pump}
    → s.pump ≡ p
    → Turn s.shared p t q
    → Step s (record s { shared = t; pump = q })
turn_at s {p} {t} {q} e tn = turn (subst (λ x. Turn s.shared x t q) (sym e) tn)

Reach-trans : {s t u : System} → Reach s t → Reach t u → Reach s u
Reach-trans r start = r
Reach-trans r (later q st) = later (Reach-trans r q) st

-- A caller whose channel holds a message returns with its result.
finish :
    (s : System) (i id : ℕ) (m : Fields)
    → s.callers i ≡ waiting id
    → s.shared.channels id ≡ some m
    → (t : System) × Reach s t × (t.callers i ≡ returned (result_of m))
unfolding call_result
finish s i id m e full =
    let left = record s {
      shared = record s.shared { channels = update s.shared.channels id none };
      callers = update s.callers i (leaving id (message m));
    } in
    (
      record left {
        shared = record left.shared { pending = update left.shared.pending id false };
        callers = update left.callers i (returned (result_of m));
      },
      later (later start (call_at s i e (receive m full)))
          (call_at left i (update_here s.callers i (leaving id (message m))) delete),
      update_here left.callers i (returned (result_of m)),
    )

as_id-pos : (o : Option ℤ) (id : ℕ) → as_id o ≡ some id → o ≡ some (pos id)
as_id-pos (some (pos n)) id e = ap (λ k. some (pos k)) (ground arith)
as_id-pos (some (negsuc n)) id e = absurd (ground arith)
as_id-pos none id e = absurd (ground arith)

dispatch_pending :
    (s : Shared) (msg : Fields) (id : ℕ)
    → message_id msg ≡ some id
    → s.pending id ≡ true
    → dispatch s msg ≡ (s, delivering id msg)
unfolding dispatch dispatch_by message_id
dispatch_pending s msg id e p =
    ap (dispatch_by s msg) (as_id-pos (get_number msg (codes "id")) id e) ∙ rw p refl

-- The pump brings the message to the empty channel of its number.
deliver_to :
    (s : System) (i id : ℕ) (msg : Fields)
    → s.pump ≡ holding msg
    → s.callers i ≡ waiting id
    → message_id msg ≡ some id
    → s.shared.pending id ≡ true
    → s.shared.channels id ≡ none
    → (t : System) × Reach s t × (t.callers i ≡ waiting id) × (t.shared.channels id ≡ some msg)
deliver_to s i id msg e w own p empty =
    let routed = record s { pump = delivering id msg } in
    let same = dispatch_pending s.shared msg id own p in
    let first : Turn s.shared (holding msg) s.shared (delivering id msg) =
      subst (λ d. Turn s.shared (holding msg) d.0 d.1) same route in
    (
      record routed {
        shared = record s.shared { channels = update s.shared.channels id (some msg) };
        pump = checking;
      },
      later (later start (turn_at s e first)) (turn_at routed refl (deliver empty)),
      w,
      update_here s.shared.channels id (some msg),
    )

-- In every reachable session, once the pump holds a message whose number is that of a waiting call, the call can
-- return: some steps lead to a state where it has returned the result of a message with that number.
pub Reach-returns :
    {s : System}
    → Reach init s
    → (i id : ℕ) (msg : Fields) → s.pump ≡ holding msg
    → s.callers i ≡ waiting id
    → message_id msg ≡ some id
    → (t : System) × (m : Fields) × Reach s t
      × (t.callers i ≡ returned (result_of m))
      × (message_id m ≡ some id)
Reach-returns {s} r i id msg e w own =
    let inv = Reach-Inv r in
    let p = (subst (Local s.shared) w (inv.local i)).1 in
    elim (Option-cases (s.shared.channels id)) [
      | inr (m, full) ↦
          let (t, q, done) = finish s i id m w full in
          (t, m, q, done, inv.global.answered id m full)
      | inl empty ↦
          let (u, q, w', full) = deliver_to s i id msg e w own p empty in
          let (t, q', done) = finish u i id msg w' full in (t, msg, Reach-trans q q', done, own)
    ]

-- A call that waits with an empty channel beside a pump that has ended.
abbrev pub IsStranded : System → ℕ → ℕ → Type 0
IsStranded s i id = (s.pump ≡ ended) × (s.callers i ≡ waiting id) × (s.shared.channels id ≡ none)

emptied_at : (f : ℕ → Option Fields) (id n : ℕ) → f n ≡ none → update f id none n ≡ none
emptied_at f id n e = elim (update-cases f id none n) [
  | inl (same, now) ↦ now
  | inr (ne, now) ↦ now ∙ e
]

-- What a move does to an empty channel of another call.
Move-empty :
    {s t : Shared} {c d : Caller}
    → Move s c t d
    → (n : ℕ) → s.channels n ≡ none
    → t.channels n ≡ none
Move-empty (refuse h) n e = e
Move-empty (see_open method params h) n e = e
Move-empty (number h) n e = e
Move-empty {s} (store {id}) n e = emptied_at s.channels id n e
Move-empty (send h) n e = e
Move-empty (send_error h) n e = e
Move-empty (send_nil h) n e = e
Move-empty {s} (receive {id} msg h) n e = emptied_at s.channels id n e
Move-empty cancel n e = e
Move-empty delete n e = e
Move-empty again n e = e

-- The only moves of a caller that waits with an empty channel.
Move-waiting :
    {s t : Shared} {c d : Caller}
    → Move s c t d
    → (id : ℕ) → c ≡ waiting id
    → s.channels id ≡ none
    → d ≡ leaving id (failed context_done)
Move-waiting (refuse h) id e empty = absurd (ground arith)
Move-waiting (see_open method params h) id e empty = absurd (ground arith)
Move-waiting (number h) id e empty = absurd (ground arith)
Move-waiting store id e empty = absurd (ground arith)
Move-waiting (send h) id e empty = absurd (ground arith)
Move-waiting (send_error h) id e empty = absurd (ground arith)
Move-waiting (send_nil h) id e empty = absurd (ground arith)
Move-waiting (receive msg h) id e empty = absurd (ground arith)
Move-waiting cancel id e empty = ground arith
Move-waiting delete id e empty = absurd (ground arith)
Move-waiting again id e empty = absurd (ground arith)

Turn-ended : {s t : Shared} {p q : Pump} → Turn s p t q → p ≡ ended → ⊥
Turn-ended (stop h) e = absurd (ground arith)
Turn-ended (go_on h) e = absurd (ground arith)
Turn-ended (load h) e = absurd (ground arith)
Turn-ended (load_nil h) e = absurd (ground arith)
Turn-ended (read msg) e = absurd (ground arith)
Turn-ended read_error e = absurd (ground arith)
Turn-ended route e = absurd (ground arith)
Turn-ended (deliver h) e = absurd (ground arith)
Turn-ended (close h) e = absurd (ground arith)
Turn-ended (close_again h) e = absurd (ground arith)

-- A call that waits with an empty channel when the pump has ended is not woken: every step, whoever takes it,
-- leaves it waiting with an empty channel, or ends its wait with the error of its context.
pub Step-IsStranded :
    {s t : System}
    → Step s t
    → (i id : ℕ) → IsStranded s i id
    → IsStranded t i id ⊎ (t.callers i ≡ leaving id (failed context_done))
unfolding on
Step-IsStranded {s} (call j {t} {c} mv) i id (p, w, empty) = elim (update-cases s.callers j c i) [
  | inl (e, now) ↦
      inr (now ∙ Move-waiting mv id (subst (λ k. s.callers k ≡ waiting id) (sym e) w) empty)
  | inr (ne, now) ↦ inl (p, now ∙ w, Move-empty mv id empty)
]
Step-IsStranded (turn tn) i id (p, w, empty) = absurd (Turn-ended tn p)
Step-IsStranded (register method) i id h = inl h
Step-IsStranded (swap_closed c) i id h = inl h
Step-IsStranded (drop_conn c) i id h = inl h
