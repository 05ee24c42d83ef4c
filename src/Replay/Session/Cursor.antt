-- ===== src/Replay/Session/Cursor.antt =====
-- The cursor stays in the recording, and the proxy follows it (session.go).
use bug_it.Base.{
  ℕ, ℤ, pos, negsuc, ◌≤◌, ◌<◌, ◌≡◌, refl, ap, sym, ◌∙◌, subst, Bool, false, List, Option, none,
  some, arith, length, min,
}
use bug_it.IoEvent.{IoEvent}
use bug_it.Replay.Multi.{MultiServer, set_cursor, new_multi}
use bug_it.Replay.TimeFreeze.{ClockEntry}
use bug_it.Replay.Session.{
  Session, new, start, clamp_index, move_proxy, on_cursor_change, seek, step,
}

-- The proxy serves the session's events from the session's cursor on.
abbrev pub ProxyAt : ℕ → List IoEvent → Option MultiServer → Type 0
ProxyAt cursor events none = Unit
ProxyAt cursor events (some m) = (m.cursor ≡ cursor) × (m.events ≡ events)

pub record IsSynced (s : Session) : Type 0 where
  pub in_range : s.cursor ≤ length s.events
  pub followed : ProxyAt s.cursor s.events s.proxy_srv

clamp_index-le : (index : ℤ) (len : ℕ) → clamp_index index len ≤ len
unfolding clamp_index
clamp_index-le (pos n) len = ground arith
clamp_index-le (negsuc n) len = omega arith

move_proxy-ProxyAt :
    (cursor target : ℕ) (events : List IoEvent) (p : Option MultiServer)
    → ProxyAt cursor events p
    → ProxyAt target events (move_proxy p target)
unfolding move_proxy set_cursor
move_proxy-ProxyAt cursor target events none h = tt
move_proxy-ProxyAt cursor target events (some m) h = (ground arith, ground arith)

-- A seek keeps the session synchronised, wherever it goes.
pub seek-IsSynced : (s : Session) (index : ℤ) → IsSynced s → IsSynced (seek s index)
unfolding seek on_cursor_change
seek-IsSynced s index h = record {
  in_range = clamp_index-le index (length s.events);
  followed =
      move_proxy-ProxyAt s.cursor (clamp_index index (length s.events)) s.events s.proxy_srv
        h.followed;
}

-- A seek goes to the index that is asked for, or to the nearer end of the recording.
pub seek-cursor :
    (s : Session) (index : ℤ)
    → ((n : ℕ) → index ≡ pos n → (seek s index).cursor ≡ min n (length s.events))
      × ((n : ℕ) → index ≡ negsuc n → (seek s index).cursor ≡ 0)
unfolding seek on_cursor_change clamp_index
seek-cursor s (pos m) = (λ n e. ground arith, λ n e. ground arith)
seek-cursor s (negsuc m) = (λ n e. ground arith, λ n e. ground arith)

-- Stepping forward and back again returns to the cursor, except at the end of the recording.
pub step_forward_back :
    (s : Session)
    → s.cursor < length s.events
    → (step (step s (pos 1)) (negsuc 0)).cursor ≡ s.cursor
unfolding step seek on_cursor_change clamp_index
step_forward_back s h = ground arith

set_cursor_frees :
    (m : MultiServer) (n i : ℕ)
    → n < m.cursor
    → n ≤ i
    → i < length m.events
    → (set_cursor m n).consumed i ≡ false
unfolding set_cursor
set_cursor_frees m n i lt lo hi = ground arith

set_cursor_keeps : (m : MultiServer) (n i : ℕ) → i < n → (set_cursor m n).consumed i ≡ m.consumed i
unfolding set_cursor
set_cursor_keeps m n i lt = ground arith

-- In a synchronised session, going back frees the responses from the new cursor on, so that they can be served once more, and
-- keeps the others as they are.
pub seek_back_frees :
    (s : Session) (n : ℕ) (m : MultiServer)
    → IsSynced s
    → s.proxy_srv ≡ some m
    → n < s.cursor
    → (m' : MultiServer) × ((seek s (pos n)).proxy_srv ≡ some m')
      × ((i : ℕ) → n ≤ i → i < length s.events → m'.consumed i ≡ false)
      × ((i : ℕ) → i < n → m'.consumed i ≡ m.consumed i)
seek_back_frees s n m h e lt =
    let (same_cursor, same_events) = subst (ProxyAt s.cursor s.events) e h.followed in
    let le = h.in_range in
    let in_range : clamp_index (pos n) (length s.events) ≡ n = unfold clamp_index in ground arith in
    (
      set_cursor m n,
      (unfold seek on_cursor_change in
          ap (λ c. move_proxy s.proxy_srv c) in_range
          ∙ ap (λ p. move_proxy p n) e
          ∙ (unfold move_proxy in refl)),
      (λ i lo hi.
          set_cursor_frees m n i (omega arith) lo
            (subst (λ es. i < length es) (sym same_events) hi)),
      λ i lo. set_cursor_keeps m n i lo,
    )

pub start-IsSynced :
    (events : List IoEvent) (timeline : List ClockEntry) (enabled : Bool) (frozen_ns : ℕ)
    → IsSynced (start (new events) timeline enabled frozen_ns)
unfolding start new new_multi
start-IsSynced events timeline enabled frozen_ns = record {
  in_range = omega arith;
  followed = (refl, refl);
}
