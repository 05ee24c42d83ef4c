-- ===== src/Inspector/Session/Safety.antt =====
-- What the calls of a session may rely on, and what they may not (pkg/captureattach/cdp_session.go).
use bug_it.Base.{ℕ, ◌≡◌, refl, subst, sym, inl, inr, true, false, Option, some, arith}
use bug_it.Text.{Bytes}
use bug_it.Inspector.Json.{Fields}
use bug_it.Inspector.Session.{
  message, Shared, update, Caller, stored, leaving, crashed, panicked, message_id, Move, send_nil,
  System, Step, call, swap_closed, drop_conn, init, Reach, start, later,
}
use bug_it.Inspector.Session.Places.{id_at, Apart, Local, PumpLocal}
use bug_it.Inspector.Session.Invariant.{Reach-Inv}
use bug_it.Inspector.Session.Turns.{update-cases}

-- In every reachable session, a call that leaves with a message leaves with one that carries the number of
-- its own request, and no other call in flight has that number.
pub Reach-own_answer :
    {s : System}
    → Reach init s
    → (i id : ℕ) (msg : Fields) → s.callers i ≡ leaving id (message msg)
    → (message_id msg ≡ some id) × ((j : ℕ) → id_at (s.callers j) ≡ some id → i ≡ j)
Reach-own_answer {s} r i id msg e =
    let inv = Reach-Inv r in
    ((subst (Local s.shared) e (inv.local i)).1, λ j f. inv.unique i j id (rw e refl) f)

-- In every reachable session, no two requests that were written to the connection have the same number.
pub Reach-Apart : {s : System} → Reach init s → Apart s.shared.sent
Reach-Apart r = (Reach-Inv r).global.apart

-- A move of the caller at a known place.
pub call_at :
    (s : System) (i : ℕ) {c : Caller} {t : Shared} {d : Caller}
    → s.callers i ≡ c
    → Move s.shared c t d
    → Step s (record s { shared = t; callers = update s.callers i d })
call_at s i {c} {t} {d} e mv = call i (subst (λ x. Move s.shared x t d) (sym e) mv)

pub update_here {ℓ} : {A : Type ℓ} (f : ℕ → A) (i : ℕ) (a : A) → update f i a i ≡ a
update_here f i a = elim (update-cases f i a i) [
  | inl (e, same) ↦ same
  | inr (ne, same) ↦ absurd (ground arith)
]

-- The nil connection is used only after `Close` has begun: as long as the session is not closed, no call and no
-- pump has crashed on it. It can be used: from every reachable open session in which a call has stored its
-- channel and has yet to write, there are steps after which that call has crashed.
pub Reach-crash :
    {s : System}
    → Reach init s
    → ((i : ℕ) → s.callers i ≡ crashed → s.shared.closed ≡ true)
      × (s.pump ≡ panicked → s.shared.closed ≡ true)
      × ((i id : ℕ) (method : Bytes) (params : Option Fields)
          → s.callers i ≡ stored id method params
          → s.shared.closed ≡ false
          → (t : System) × Reach s t × (t.callers i ≡ crashed))
Reach-crash {s} r = (
  λ i e. subst (Local s.shared) e ((Reach-Inv r).local i),
  λ e. subst (PumpLocal s.shared) e (Reach-Inv r).pump_local,
  λ i id method params e unlocked.
      let shut = record s { shared = record s.shared { closed = true; closing = true } } in
      let gone = record shut {
        shared = record shut.shared { has_conn = false; closing = false };
      } in
      (
        record gone { callers = update s.callers i crashed },
        later (later (later start (swap_closed unlocked)) (drop_conn refl))
            (call_at gone i e (send_nil refl)),
        update_here s.callers i crashed,
      ),
)
