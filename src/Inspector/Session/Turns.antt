-- ===== src/Inspector/Session/Turns.antt =====
-- What the pump and `Close` leave to the calls (pkg/captureattach/cdp_session.go).
use bug_it.Base.{
  ℕ, ℤ, pos, negsuc, ◌≡◌, refl, subst, sym, ap, ◌∙◌, ◌⊎◌, inl, inr, true, false, List, [], Option,
  none, some, ◌==◌, arith, Bool-cases, ==_iff,
}
use bug_it.Text.{Bytes, codes, bytes_eq}
use bug_it.Inspector.Json.{Fields, get_number, text_or_empty}
use bug_it.Inspector.Session.{
  Shared, update, Pump, message_id, as_id, dispatch_by, dispatch, Turn, stop, go_on, load, load_nil,
  read, read_error, route, deliver, close, close_again, on,
}
use bug_it.Inspector.Session.Places.{PumpLocal, Global, Later}

-- At one place the new value, at the others the old one.
pub update-cases {ℓ} :
    {A : Type ℓ} (f : ℕ → A) (i : ℕ) (a : A) (j : ℕ)
    → ((i ≡ j) × (update f i a j ≡ a)) ⊎ (((i == j) ≡ false) × (update f i a j ≡ f j))
unfolding update
update-cases f i a j = elim (Bool-cases (i == j)) [
  | inl e ↦ inl ((==_iff i j).0 e, rw e refl)
  | inr e ↦ inr (e, rw e refl)
]

-- A step outside of `Call` is later, keeps what the session says, and leaves the pump at a place that fits.
pub record Beside (s t : Shared) : Type 0 where
  pub forward : Later s t
  pub kept : (n : ℕ) → t.pending n ≡ s.pending n
  pub global : Global s → Global t

Beside-refl : (s : Shared) → Beside s s
Beside-refl s = record {
  forward = record { counter = omega arith; requests = refl; shut = λ h. h };
  kept = λ n. refl;
  global = λ g. g;
}

handled-Beside : (s : Shared) (log : List (Bytes × Fields)) → Beside s (record s { handled = log })
handled-Beside s log = record {
  forward = record { counter = omega arith; requests = refl; shut = λ h. h };
  kept = λ n. refl;
  global = λ g. record {
    answered = g.answered;
    opened = g.opened;
    counted = g.counted;
    apart = g.apart;
  };
}

pub closed-Beside : (s : Shared) → Beside s (record s { closed = true; closing = true })
closed-Beside s = record {
  forward = record { counter = omega arith; requests = refl; shut = λ h. refl };
  kept = λ n. refl;
  global = λ g. record {
    answered = g.answered;
    opened = λ h. absurd (ground arith);
    counted = g.counted;
    apart = g.apart;
  };
}

pub drop-Beside :
    (s : Shared) → s.closing ≡ true → Beside s (record s { has_conn = false; closing = false })
drop-Beside s c = record {
  forward = record { counter = omega arith; requests = refl; shut = λ h. h };
  kept = λ n. refl;
  global = λ g. record {
    answered = g.answered;
    opened = λ h. absurd (let k = (g.opened h).1 in ground arith);
    counted = g.counted;
    apart = g.apart;
  };
}

pub on-Beside : (s : Shared) (method : Bytes) → Beside s (on s method)
unfolding on
on-Beside s method = record {
  forward = record { counter = omega arith; requests = refl; shut = λ h. h };
  kept = λ n. refl;
  global = λ g. record {
    answered = g.answered;
    opened = g.opened;
    counted = g.counted;
    apart = g.apart;
  };
}

filled :
    (f : ℕ → Option Fields) (n : ℕ) (msg : Fields)
    → ((k : ℕ) (m : Fields) → f k ≡ some m → message_id m ≡ some k)
    → message_id msg ≡ some n
    → (k : ℕ) (m : Fields) → update f n (some msg) k ≡ some m
    → message_id m ≡ some k
filled f n msg h own k m e = elim (update-cases f n (some msg) k) [
  | inl (nk, same) ↦
      subst (λ x. message_id x ≡ some k) (ground arith)
        (subst (λ x. message_id msg ≡ some x) nk own)
  | inr (nk, same) ↦ h k m (sym same ∙ e)
]

-- What `pump` does with a message leaves the calls alone, and picks the channel by the message's number.
dispatch_by-Beside :
    (s : Shared) (msg : Fields) (o : Option ℤ)
    → get_number msg (codes "id") ≡ o
    → Beside s (dispatch_by s msg o).0 × PumpLocal (dispatch_by s msg o).0 (dispatch_by s msg o).1
unfolding dispatch_by message_id
dispatch_by-Beside s msg (some (pos n)) e = elim (Bool-cases (s.pending n)) [
  | inl there ↦ rw there (Beside-refl s, ap as_id e)
  | inr gone ↦ rw gone (Beside-refl s, tt)
]
dispatch_by-Beside s msg (some (negsuc n)) e = (Beside-refl s, tt)
dispatch_by-Beside s msg none e =
    let method = text_or_empty msg (codes "method") in
    elim (Bool-cases (bytes_eq method [])) [
      | inl empty ↦ rw empty (Beside-refl s, tt)
      | inr named ↦ elim (Bool-cases (s.handlers method)) [
        | inl known ↦ rw named (rw known (handled-Beside s _, tt))
        | inr unknown ↦ rw named (rw unknown (Beside-refl s, tt))
      ]
    ]

dispatch-Beside :
    (s : Shared) (msg : Fields)
    → Beside s (dispatch s msg).0 × PumpLocal (dispatch s msg).0 (dispatch s msg).1
unfolding dispatch
dispatch-Beside s msg = dispatch_by-Beside s msg (get_number msg (codes "id")) refl

pub Turn-Beside :
    {s t : Shared} {p q : Pump}
    → Turn s p t q
    → Global s
    → PumpLocal s p
    → Beside s t × PumpLocal t q
Turn-Beside {s} (stop h) g l = (Beside-refl s, tt)
Turn-Beside {s} (go_on h) g l = (Beside-refl s, tt)
Turn-Beside {s} (load h) g l = (Beside-refl s, tt)
Turn-Beside {s} (load_nil h) g l = (
  Beside-refl s,
  elim (Bool-cases s.closed) [
    | inl e ↦ e
    | inr e ↦ absurd (let k = (g.opened e).0 in ground arith)
  ],
)
Turn-Beside {s} (read msg) g l = (Beside-refl s, tt)
Turn-Beside {s} read_error g l = (Beside-refl s, tt)
Turn-Beside {s} (route {msg}) g l = dispatch-Beside s msg
Turn-Beside {s} (deliver {n} {msg} h) g l = (
  record {
    forward = record { counter = omega arith; requests = refl; shut = λ k. k };
    kept = λ n. refl;
    global = λ g'. record {
      answered = filled s.channels n msg g'.answered l;
      opened = g'.opened;
      counted = g'.counted;
      apart = g'.apart;
    };
  },
  tt,
)
Turn-Beside {s} (close h) g l = (closed-Beside s, tt)
Turn-Beside {s} (close_again h) g l = (Beside-refl s, tt)
