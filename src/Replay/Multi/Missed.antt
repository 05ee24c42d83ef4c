-- ===== src/Replay/Multi/Missed.antt =====
-- When a search finds nothing, there is nothing to find (multi.go).
use bug_it.Base.{
  ℕ, zero, suc, ◌≤◌, ◌<◌, ◌≡◌, ◌≢◌, sym, ◌∙◌, ap, ◌⊎◌, inl, inr, subst, Bool, true, false, List, [],
  ◌∷◌, none, some, arith, Bool-cases, Option-cases, drop, get_elem?,
}
use bug_it.Text.{Bytes, equal_fold, has_prefix}
use bug_it.Text.Search.{before_byte}
use bug_it.IoEvent.{IoEvent, payload_of}
use bug_it.Replay.Multi.{is_free_response, next_response, is_match, find_response, is_refused_host}
use bug_it.Replay.Multi.Found.{IsResponse, IsRequest, get_elem?-drop}

past_end :
    (xs : List IoEvent) (i j : ℕ) {y : IoEvent}
    → drop i xs ≡ []
    → i ≤ j
    → get_elem? xs j ≡ some y
    → ⊥
past_end [] i zero d le at = cc
past_end [] i (suc j) d le at = cc
past_end (x ∷ xs) zero j d le at = cc
past_end (x ∷ xs) (suc i) zero d le at = absurd (omega arith)
past_end (x ∷ xs) (suc i) (suc j) d le at = past_end xs i j d (omega arith) at

le-cases : (i j : ℕ) → i ≤ j → (i ≡ j) ⊎ (suc i ≤ j)
le-cases i j le = ground arith

response-free :
    (consumed : ℕ → Bool) (events : List IoEvent) (i : ℕ) (w : IoEvent) (out : Bytes)
    → get_elem? events i ≡ some w
    → IsResponse consumed events i out
    → is_free_response consumed i w ≡ true
unfolding is_free_response
response-free consumed events i w out at r =
    let same : r.event ≡ w = cc (at, r.at) in
    let write : w.is_write ≡ 1 = ap (λ (e : IoEvent). e.is_write) (sym same) ∙ r.is_write in
    let full : w.payload_len ≢ 0 =
      λ z. r.not_empty (ap (λ (e : IoEvent). e.payload_len) same ∙ z) in
    let free = r.is_free in ground arith

free_found :
    (consumed : ℕ → Bool) (i : ℕ) (w : IoEvent) (ws : List IoEvent)
    → is_free_response consumed i w ≡ true
    → next_response consumed i (w ∷ ws) ≢ some none
unfolding next_response
free_found consumed i w ws free h = elim (Option-cases (payload_of w)) [
  | inl e ↦ ground arith
  | inr (out, e) ↦ ground arith
]

taken_skipped :
    (consumed : ℕ → Bool) (i : ℕ) (w : IoEvent) (ws : List IoEvent)
    → is_free_response consumed i w ≡ false
    → next_response consumed i (w ∷ ws) ≡ some none
    → next_response consumed (suc i) ws ≡ some none
unfolding next_response
taken_skipped consumed i w ws taken h = ground arith

-- Where the inner loop finds nothing, no response stands at its place or behind it.
pub next_response-missed :
    (consumed : ℕ → Bool) (events ws : List IoEvent) (i j : ℕ) (out : Bytes)
    → drop i events ≡ ws
    → next_response consumed i ws ≡ some none
    → i ≤ j
    → ¬ IsResponse consumed events j out
next_response-missed consumed events [] i j out d h le r = past_end events i j d le r.at
next_response-missed consumed events (w ∷ ws) i j out d h le r =
    let (at, behind) = get_elem?-drop events i d in
    elim (Bool-cases (is_free_response consumed i w)) [
      | inl free ↦ free_found consumed i w ws free h
      | inr taken ↦ elim (le-cases i j le) [
        | inr lt ↦
            next_response-missed consumed events ws (suc i) j out behind
              (taken_skipped consumed i w ws taken h) lt r
        | inl same ↦
            let free =
              response-free consumed events i w out at
                (subst (λ k. IsResponse consumed events k out) (sym same) r) in
            cc
      ]
    ]

request-match :
    (consumed : ℕ → Bool) (events : List IoEvent) (key host : Bytes) (i : ℕ) (evt : IoEvent)
    → get_elem? events i ≡ some evt
    → IsRequest consumed events key host i
    → is_match consumed key host i evt ≡ some true
unfolding is_match
request-match consumed events key host i evt at r =
    let same : r.event ≡ evt = cc (at, r.at) in
    let read : evt.is_write ≡ 0 = ap (λ (e : IoEvent). e.is_write) (sym same) ∙ r.is_read in
    let content : payload_of evt ≡ some r.payload = ap payload_of (sym same) ∙ r.content in
    let asked = r.same in let free = r.is_free in ground arith

-- A round of the outer loop that finds nothing.
missed_step :
    (consumed : ℕ → Bool) (key host : Bytes) (i : ℕ) (evt : IoEvent) (evts : List IoEvent)
    → find_response consumed key host i (evt ∷ evts) ≡ some none
    → (find_response consumed key host (suc i) evts ≡ some none)
      × ((is_match consumed key host i evt ≡ some true)
          → next_response consumed (suc i) evts ≡ some none)
unfolding find_response
missed_step consumed key host i evt evts h =
    elim (Option-cases (is_match consumed key host i evt)) [
      | inl e ↦ absurd (ground arith)
      | inr (same, e) ↦ elim (Bool-cases same) [
        | inr other ↦ (ground arith, λ m. absurd (ground arith))
        | inl match ↦ elim (Option-cases (next_response consumed (suc i) evts)) [
          | inl e1 ↦ absurd (ground arith)
          | inr (none, e1) ↦ (ground arith, λ m. e1)
          | inr (some r', e1) ↦ absurd (ground arith)
        ]
      ]
    ]

-- Where the outer loop finds nothing, no response stands behind a recorded request that it looks for.
pub find_response-missed :
    (consumed : ℕ → Bool) (key host : Bytes) (events evts : List IoEvent) (from i j : ℕ)
    (out : Bytes)
    → drop from events ≡ evts
    → find_response consumed key host from evts ≡ some none
    → from ≤ i
    → i < j
    → IsRequest consumed events key host i
    → ¬ IsResponse consumed events j out
find_response-missed consumed key host events [] from i j out d h le lt q r =
    past_end events from i d le q.at
find_response-missed consumed key host events (evt ∷ evts) from i j out d h le lt q r =
    let (at, behind) = get_elem?-drop events from d in
    let (rest, here) = missed_step consumed key host from evt evts h in
    elim (le-cases from i le) [
      | inr later ↦
          find_response-missed consumed key host events evts (suc from) i j out behind rest later lt
            q r
      | inl same ↦
          let own = subst (IsRequest consumed events key host) (sym same) q in
          next_response-missed consumed events evts (suc from) j out behind
            (here (request-match consumed events key host from evt at own)) (omega arith) r
    ]

-- The request names a host, the listener has one, and the request's is neither the listener's nor starts with it.
abbrev pub IsRefused : Bytes → Bytes → Type 0
IsRefused host_filter host =
    (host_filter ≢ [])
    × (host ≢ [])
    × (equal_fold host (before_byte host_filter b':') ≡ false)
    × (has_prefix host (before_byte host_filter b':') ≡ false)

pub is_refused_host-IsRefused :
    (host_filter host : Bytes)
    → is_refused_host host_filter host ≡ true
    → IsRefused host_filter host
unfolding is_refused_host
is_refused_host-IsRefused [] host h = cc
is_refused_host-IsRefused (c ∷ host_filter) [] h = cc
is_refused_host-IsRefused (c ∷ host_filter) (d ∷ host) h =
    ((λ z. cc), (λ z. cc), ground arith, ground arith)
