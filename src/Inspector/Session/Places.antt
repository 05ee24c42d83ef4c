-- ===== src/Inspector/Session/Places.antt =====
-- What the place of a goroutine says about the session, and that every move of a call keeps it.
use bug_it.Base.{
  ℕ, suc, ◌≤◌, ◌<◌, ◌≡◌, refl, subst, sym, ◌∙◌, ◌≢◌, ◌⊎◌, inl, inr, true, false, List, [], ◌∷◌,
  Option, none, some, ◌==◌, All, arith, Bool-cases, ==_iff, ap,
}
use bug_it.Inspector.Json.{Fields}
use bug_it.Inspector.Session.{
  Request, Received, message, failed, Shared, update, Caller, idle, open_seen, numbered, stored,
  waiting, leaving, returned, crashed, Pump, checking, passed, reading, holding, delivering,
  failing, ended, panicked, message_id, Move, refuse, see_open, number, store, send, send_error,
  send_nil, receive, cancel, delete, again,
}

-- The number of a call in flight.
abbrev pub id_at : Caller → Option ℕ
id_at (numbered id method params) = some id
id_at (stored id method params) = some id
id_at (waiting id) = some id
id_at (leaving id r) = some id
id_at _ = none

abbrev pub Unsent : ℕ → List Request → Type 0
Unsent n = All (λ r. r.id ≢ n)

abbrev pub AnswerOf : ℕ → Received → Type 0
AnswerOf id (message msg) = message_id msg ≡ some id
AnswerOf id (failed e) = Unit

-- What the place of a caller says about the session.
abbrev pub Local : Shared → Caller → Type 0
Local s (numbered id method params) = (id ≤ s.next_id) × Unsent id s.sent
Local s (stored id method params) = (id ≤ s.next_id) × Unsent id s.sent × (s.pending id ≡ true)
Local s (waiting id) = (id ≤ s.next_id) × (s.pending id ≡ true)
Local s (leaving id r) = (id ≤ s.next_id) × AnswerOf id r × (s.pending id ≡ true)
Local s crashed = s.closed ≡ true
Local s _ = Unit

abbrev pub PumpLocal : Shared → Pump → Type 0
PumpLocal s (delivering n msg) = message_id msg ≡ some n
PumpLocal s panicked = s.closed ≡ true
PumpLocal s _ = Unit

-- No two requests of the list have the same number.
abbrev pub Apart : List Request → Type 0
Apart [] = Unit
Apart (r ∷ rs) = Unsent r.id rs × Apart rs

pub record Global (s : Shared) : Type 0 where
  pub answered : (n : ℕ) (msg : Fields) → s.channels n ≡ some msg → message_id msg ≡ some n
  pub opened : s.closed ≡ false → (s.has_conn ≡ true) × (s.closing ≡ false)
  pub counted : All (λ r. r.id ≤ s.next_id) s.sent
  pub apart : Apart s.sent

-- A session whose counter has not gone down, with the same requests, which is not opened again.
pub record Later (s t : Shared) : Type 0 where
  pub counter : s.next_id ≤ t.next_id
  pub requests : t.sent ≡ s.sent
  pub shut : s.closed ≡ true → t.closed ≡ true

-- The number of a call stays as pending as it was.
abbrev pub IsKept : Shared → Shared → Caller → Type 0
IsKept s t c = (n : ℕ) → id_at c ≡ some n → t.pending n ≡ s.pending n

pub Local-Later : (s t : Shared) (c : Caller) → Later s t → IsKept s t c → Local s c → Local t c
Local-Later s t (numbered id method params) m k (le, un) =
    (let h = m.counter in omega arith, subst (Unsent id) (sym m.requests) un)
Local-Later s t (stored id method params) m k (le, un, p) =
    (let h = m.counter in omega arith, subst (Unsent id) (sym m.requests) un, k id refl ∙ p)
Local-Later s t (waiting id) m k (le, p) = (let h = m.counter in omega arith, k id refl ∙ p)
Local-Later s t (leaving id r) m k (le, a, p) = (let h = m.counter in omega arith, a, k id refl ∙ p)
Local-Later s t crashed m k h = m.shut h
Local-Later s t idle m k h = tt
Local-Later s t (open_seen method params) m k h = tt
Local-Later s t (returned r) m k h = tt

pub PumpLocal-Later : (s t : Shared) (p : Pump) → Later s t → PumpLocal s p → PumpLocal t p
PumpLocal-Later s t (delivering n msg) m h = h
PumpLocal-Later s t panicked m h = m.shut h
PumpLocal-Later s t checking m h = tt
PumpLocal-Later s t passed m h = tt
PumpLocal-Later s t reading m h = tt
PumpLocal-Later s t (holding msg) m h = tt
PumpLocal-Later s t failing m h = tt
PumpLocal-Later s t ended m h = tt

counted-le : (a b : ℕ) (rs : List Request) → a ≤ b → All (λ r. r.id ≤ a) rs → All (λ r. r.id ≤ b) rs
counted-le a b [] le h = tt
counted-le a b (r ∷ rs) le (h, hs) = (omega arith, counted-le a b rs le hs)

counted-Unsent : (a n : ℕ) (rs : List Request) → a < n → All (λ r. r.id ≤ a) rs → Unsent n rs
counted-Unsent a n [] lt h = tt
counted-Unsent a n (r ∷ rs) lt (h, hs) = (λ e. omega arith, counted-Unsent a n rs lt hs)

elsewhere {ℓ} : {A : Type ℓ} (f : ℕ → A) (i : ℕ) (a : A) (n : ℕ) → i ≢ n → update f i a n ≡ f n
unfolding update
elsewhere f i a n h = elim (Bool-cases (i == n)) [
  | inl e ↦ absurd (h ((==_iff i n).0 e))
  | inr e ↦ rw e refl
]

-- The mover's place says what it has to.
pub Move-Local : {s t : Shared} {c d : Caller} → Move s c t d → Global s → Local s c → Local t d
unfolding update
Move-Local (refuse h) g l = tt
Move-Local (see_open method params h) g l = tt
Move-Local {s} (number h) g l =
    (omega arith, counted-Unsent s.next_id (suc s.next_id) s.sent (omega arith) g.counted)
Move-Local store g l = (l.0, l.1, ground arith)
Move-Local (send h) g l = (l.0, l.2)
Move-Local (send_error h) g l = (l.0, tt, l.2)
Move-Local {s} (send_nil h) g l = elim (Bool-cases s.closed) [
  | inl e ↦ e
  | inr e ↦ absurd (let k = (g.opened e).0 in cc)
]
Move-Local (receive {id} msg h) g l = (l.0, g.answered id msg h, l.1)
Move-Local cancel g l = (l.0, tt, l.1)
Move-Local delete g l = tt
Move-Local again g l = tt

-- The places of the others go on to say it.
pub Move-others :
    {s t : Shared} {c d : Caller} (e : Caller)
    → Move s c t d
    → ((n : ℕ) → id_at c ≡ some n → id_at e ≢ some n)
    → Local s e
    → Local t e
unfolding update
Move-others e (refuse h) ne l = l
Move-others e (see_open method params h) ne l = l
Move-others {s} {t} e (number h) ne l =
    Local-Later s t e (record { counter = omega arith; requests = refl; shut = λ k. k })
      (λ n p. refl) l
Move-others {s} {t} e (store {id}) ne l =
    Local-Later s t e (record { counter = omega arith; requests = refl; shut = λ k. k })
      (λ n p. elsewhere s.pending id true n (λ k. ne id refl (p ∙ ap some (sym k)))) l
Move-others (numbered n method params) (send {id} h) ne l =
    (l.0, (λ k. ne id refl (ground arith), l.1))
Move-others (stored n method params) (send {id} h) ne l =
    (l.0, (λ k. ne id refl (ground arith), l.1), l.2)
Move-others (waiting n) (send h) ne l = l
Move-others (leaving n r) (send h) ne l = l
Move-others crashed (send h) ne l = l
Move-others idle (send h) ne l = tt
Move-others (open_seen method params) (send h) ne l = tt
Move-others (returned r) (send h) ne l = tt
Move-others e (send_error h) ne l = l
Move-others e (send_nil h) ne l = l
Move-others {s} {t} e (receive msg h) ne l =
    Local-Later s t e (record { counter = omega arith; requests = refl; shut = λ k. k })
      (λ n p. refl) l
Move-others e cancel ne l = l
Move-others {s} {t} e (delete {id}) ne l =
    Local-Later s t e (record { counter = omega arith; requests = refl; shut = λ k. k })
      (λ n p. elsewhere s.pending id false n (λ k. ne id refl (p ∙ ap some (sym k)))) l
Move-others e again ne l = l

-- A channel that is emptied holds no wrong message.
emptied :
    (f : ℕ → Option Fields) (id : ℕ)
    → ((n : ℕ) (msg : Fields) → f n ≡ some msg → message_id msg ≡ some n)
    → (n : ℕ) (msg : Fields) → update f id none n ≡ some msg
    → message_id msg ≡ some n
unfolding update
emptied f id h n msg e = elim (Bool-cases (id == n)) [
  | inl k ↦ absurd (ground arith)
  | inr k ↦ h n msg (ground arith)
]

pub Move-Global : {s t : Shared} {c d : Caller} → Move s c t d → Global s → Local s c → Global t
Move-Global (refuse h) g l = g
Move-Global (see_open method params h) g l = g
Move-Global {s} (number h) g l = record {
  answered = g.answered;
  opened = g.opened;
  counted = counted-le s.next_id (suc s.next_id) s.sent (omega arith) g.counted;
  apart = g.apart;
}
Move-Global {s} (store {id}) g l = record {
  answered = emptied s.channels id g.answered;
  opened = g.opened;
  counted = g.counted;
  apart = g.apart;
}
Move-Global (send h) g l = record {
  answered = g.answered;
  opened = g.opened;
  counted = (l.0, g.counted);
  apart = (l.1, g.apart);
}
Move-Global (send_error h) g l = g
Move-Global (send_nil h) g l = g
Move-Global {s} (receive {id} msg h) g l = record {
  answered = emptied s.channels id g.answered;
  opened = g.opened;
  counted = g.counted;
  apart = g.apart;
}
Move-Global cancel g l = g
Move-Global delete g l = record {
  answered = g.answered;
  opened = g.opened;
  counted = g.counted;
  apart = g.apart;
}
Move-Global again g l = g

-- The number that a move leaves a caller with: the one it had, none, or the next one.
pub Move-id :
    {s t : Shared} {c d : Caller}
    → Move s c t d
    → (n : ℕ) → id_at d ≡ some n
    → (id_at c ≡ some n) ⊎ (s.next_id < n)
Move-id (refuse h) n e = absurd (ground arith)
Move-id (see_open method params h) n e = absurd (ground arith)
Move-id (number h) n e = inr (ground arith)
Move-id store n e = inl e
Move-id (send h) n e = inl e
Move-id (send_error h) n e = inl e
Move-id (send_nil h) n e = absurd (ground arith)
Move-id (receive msg h) n e = inl e
Move-id cancel n e = inl e
Move-id delete n e = absurd (ground arith)
Move-id again n e = absurd (ground arith)

pub Local-id : (s : Shared) (c : Caller) (n : ℕ) → Local s c → id_at c ≡ some n → n ≤ s.next_id
Local-id s (numbered id method params) n (le, un) e = ground arith
Local-id s (stored id method params) n (le, un, p) e = ground arith
Local-id s (waiting id) n (le, p) e = ground arith
Local-id s (leaving id r) n (le, a, p) e = ground arith
Local-id s crashed n h e = absurd (ground arith)
Local-id s idle n h e = absurd (ground arith)
Local-id s (open_seen method params) n h e = absurd (ground arith)
Local-id s (returned r) n h e = absurd (ground arith)
