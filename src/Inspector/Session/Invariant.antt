-- ===== src/Inspector/Session/Invariant.antt =====
-- The invariant of the sessions that can be reached, in any order of steps.
use bug_it.Base.{ℕ, ◌≡◌, refl, subst, sym, ◌∙◌, ◌≢◌, inl, inr, true, false, some, ◌==◌, arith}
use bug_it.Inspector.Session.{
  Shared, update, Caller, Pump, checking, delivering, ended, panicked, Move, refuse, see_open,
  number, store, send, send_error, send_nil, receive, cancel, delete, again, passed, reading,
  holding, failing, System, Step, call, turn, register, swap_closed, drop_conn, init, Reach, start,
  later, on,
}
use bug_it.Inspector.Session.Places.{
  id_at, Local, PumpLocal, Global, Local-Later, PumpLocal-Later, Move-Local, Move-others,
  Move-Global, Move-id, Local-id,
}
use bug_it.Inspector.Session.Turns.{
  update-cases, Beside, closed-Beside, drop-Beside, on-Beside, Turn-Beside,
}

pub record Inv (s : System) : Type 0 where
  pub global : Global s.shared
  pub local : (i : ℕ) → Local s.shared (s.callers i)
  pub unique : (i j n : ℕ) → id_at (s.callers i) ≡ some n → id_at (s.callers j) ≡ some n → i ≡ j
  pub pump_local : PumpLocal s.shared s.pump

Inv-init : Inv init
Inv-init = record {
  global = record {
    answered = λ n msg e. absurd (ground arith);
    opened = λ h. (refl, refl);
    counted = tt;
    apart = tt;
  };
  local = λ i. tt;
  unique = λ i j n e f. absurd (ground arith);
  pump_local = tt;
}

call-Local :
    {s : Shared} (cs : ℕ → Caller) (i : ℕ) {t : Shared} {c : Caller}
    → Move s (cs i) t c
    → Global s
    → ((j : ℕ) → Local s (cs j))
    → ((j k n : ℕ) → id_at (cs j) ≡ some n → id_at (cs k) ≡ some n → j ≡ k)
    → (j : ℕ) → Local t (update cs i c j)
call-Local cs i {t} {c} mv g l u j = elim (update-cases cs i c j) [
  | inl (e, same) ↦ subst (Local t) (sym same) (Move-Local mv g (l i))
  | inr (ne, same) ↦
      subst (Local t) (sym same)
        (Move-others (cs j) mv (λ n p q. absurd (let k = u i j n p q in ground arith)) (l j))
]

call_unique :
    {s : Shared} (cs : ℕ → Caller) (i : ℕ) {t : Shared} {c : Caller}
    → Move s (cs i) t c
    → ((j : ℕ) → Local s (cs j))
    → ((j k n : ℕ) → id_at (cs j) ≡ some n → id_at (cs k) ≡ some n → j ≡ k)
    → (k n : ℕ) → id_at c ≡ some n
    → ((i == k) ≡ false)
    → id_at (cs k) ≢ some n
call_unique {s} cs i mv l u k n e ne f = elim (Move-id mv n e) [
  | inl old ↦ absurd (let same = u i k n old f in ground arith)
  | inr new ↦ absurd (let low = Local-id s (cs k) n (l k) f in omega arith)
]

call-apart :
    {s : Shared} (cs : ℕ → Caller) (i : ℕ) {t : Shared} {c : Caller}
    → Move s (cs i) t c
    → ((j : ℕ) → Local s (cs j))
    → ((j k n : ℕ) → id_at (cs j) ≡ some n → id_at (cs k) ≡ some n → j ≡ k)
    → (j k n : ℕ) → id_at (update cs i c j) ≡ some n
    → id_at (update cs i c k) ≡ some n
    → j ≡ k
call-apart cs i {c = c} mv l u j k n e f = elim (update-cases cs i c j) [
  | inl (ij, same_j) ↦ elim (update-cases cs i c k) [
    | inl (ik, same_k) ↦ sym ij ∙ ik
    | inr (ik, same_k) ↦ absurd (
        call_unique cs i mv l u k n (subst (λ x. id_at x ≡ some n) same_j e) ik
          (subst (λ x. id_at x ≡ some n) same_k f))
  ]
  | inr (ij, same_j) ↦ elim (update-cases cs i c k) [
    | inl (ik, same_k) ↦ absurd (
        call_unique cs i mv l u j n (subst (λ x. id_at x ≡ some n) same_k f) ij
          (subst (λ x. id_at x ≡ some n) same_j e))
    | inr (ik, same_k) ↦
        u j k n (subst (λ x. id_at x ≡ some n) same_j e) (subst (λ x. id_at x ≡ some n) same_k f)
  ]
]

Beside-Inv :
    (s : System) (t : Shared) (p : Pump)
    → Inv s
    → Beside s.shared t
    → PumpLocal t p
    → Inv (record s { shared = t; pump = p })
Beside-Inv s t p inv b l = record {
  global = b.global inv.global;
  local = λ i. Local-Later s.shared t (s.callers i) b.forward (λ n p. b.kept n) (inv.local i);
  unique = inv.unique;
  pump_local = l;
}

Move-closed : {s t : Shared} {c d : Caller} → Move s c t d → s.closed ≡ true → t.closed ≡ true
Move-closed (refuse h) e = e
Move-closed (see_open method params h) e = e
Move-closed (number h) e = e
Move-closed store e = e
Move-closed (send h) e = e
Move-closed (send_error h) e = e
Move-closed (send_nil h) e = e
Move-closed (receive msg h) e = e
Move-closed cancel e = e
Move-closed delete e = e
Move-closed again e = e

Move-PumpLocal :
    {s t : Shared} {c d : Caller} → Move s c t d → (p : Pump) → PumpLocal s p → PumpLocal t p
Move-PumpLocal mv (delivering n msg) l = l
Move-PumpLocal mv panicked l = Move-closed mv l
Move-PumpLocal mv checking l = tt
Move-PumpLocal mv passed l = tt
Move-PumpLocal mv reading l = tt
Move-PumpLocal mv (holding msg) l = tt
Move-PumpLocal mv failing l = tt
Move-PumpLocal mv ended l = tt

-- Every step keeps the invariant.
Step-Inv : {s t : System} → Step s t → Inv s → Inv t
Step-Inv {s} (call i {t} {c} mv) inv = record {
  global = Move-Global mv inv.global (inv.local i);
  local = call-Local s.callers i mv inv.global inv.local inv.unique;
  unique = call-apart s.callers i mv inv.local inv.unique;
  pump_local = Move-PumpLocal mv s.pump inv.pump_local;
}
Step-Inv {s} (turn {t} {p} tn) inv =
    let (b, l) = Turn-Beside tn inv.global inv.pump_local in Beside-Inv s t p inv b l
Step-Inv {s} (register method) inv =
    let b = on-Beside s.shared method in
    Beside-Inv s (on s.shared method) s.pump inv b
      (PumpLocal-Later s.shared (on s.shared method) s.pump b.forward inv.pump_local)
Step-Inv {s} (swap_closed h) inv =
    let b = closed-Beside s.shared in
    Beside-Inv s (record s.shared { closed = true; closing = true }) s.pump inv b
      (PumpLocal-Later s.shared _ s.pump b.forward inv.pump_local)
Step-Inv {s} (drop_conn h) inv =
    let b = drop-Beside s.shared h in
    Beside-Inv s (record s.shared { has_conn = false; closing = false }) s.pump inv b
      (PumpLocal-Later s.shared _ s.pump b.forward inv.pump_local)

pub Reach-Inv : {s : System} → Reach init s → Inv s
Reach-Inv start = Inv-init
Reach-Inv (later r st) = Step-Inv st (Reach-Inv r)
