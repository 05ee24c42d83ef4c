-- ===== src/Replay/Multi/Found.antt =====
-- What the loops of a search find (multi.go).
use bug_it.Base.{
  ℕ, zero, suc, ◌≤◌, ◌<◌, ◌≡◌, sym, ◌∙◌, ◌≢◌, ◌⊎◌, inl, inr, subst, Bool, true, false, List, [],
  ◌∷◌, none, some, arith, Bool-cases, Option-cases, drop, get_elem?,
}
use bug_it.Text.{Bytes}
use bug_it.IoEvent.{IoEvent, payload_of}
use bug_it.Replay.Multi.{is_free_response, next_response, is_match, is_same_request, find_response}

-- A response that may be served: a write with a payload, not served yet, at its place in the recording.
pub record IsResponse (consumed : ℕ → Bool) (events : List IoEvent) (j : ℕ) (out : Bytes)
    : Type 0 where
  pub event : IoEvent
  pub at : get_elem? events j ≡ some event
  pub is_write : event.is_write ≡ 1
  pub not_empty : event.payload_len ≢ 0
  pub is_free : consumed j ≡ false
  pub content : payload_of event ≡ some out

-- A recorded request that a search for `key` and `host` stops at: a read that was not served.
pub record IsRequest (consumed : ℕ → Bool) (events : List IoEvent) (key host : Bytes) (i : ℕ)
    : Type 0 where
  pub event : IoEvent
  pub at : get_elem? events i ≡ some event
  pub is_read : event.is_write ≡ 0
  pub is_free : consumed i ≡ false
  pub payload : Bytes
  pub content : payload_of event ≡ some payload
  pub same : is_same_request key host payload ≡ true

pub get_elem?-drop :
    {A : Type 0} (xs : List A) (i : ℕ) {y : A} {ys : List A}
    → drop i xs ≡ y ∷ ys
    → (get_elem? xs i ≡ some y) × (drop (suc i) xs ≡ ys)
get_elem?-drop [] zero h = absurd (cc)
get_elem?-drop [] (suc i) h = absurd (cc)
get_elem?-drop (x ∷ xs) zero {y} {ys} h = ground arith
get_elem?-drop (x ∷ xs) (suc i) h = get_elem?-drop xs i h

-- A free response at its place.
here-IsResponse :
    (consumed : ℕ → Bool) (events : List IoEvent) (i : ℕ) (w : IoEvent) (out : Bytes)
    → get_elem? events i ≡ some w
    → is_free_response consumed i w ≡ true
    → payload_of w ≡ some out
    → IsResponse consumed events i out
unfolding is_free_response
here-IsResponse consumed events i w out at free content = record {
  event = w;
  at = at;
  is_write = ground arith;
  not_empty = ground arith;
  is_free = ground arith;
  content = content;
}

next_found :
    (consumed : ℕ → Bool) (i : ℕ) (w : IoEvent) (ws : List IoEvent) {j : ℕ} {out : Bytes}
    → is_free_response consumed i w ≡ true
    → next_response consumed i (w ∷ ws) ≡ some (some (j, out))
    → (payload_of w ≡ some out) × (i ≡ j)
unfolding next_response
next_found consumed i w ws {j} {out} free h = elim (Option-cases (payload_of w)) [
  | inl e ↦ ground arith
  | inr (out', e) ↦ ground arith
]

next_skipped :
    (consumed : ℕ → Bool) (i : ℕ) (w : IoEvent) (ws : List IoEvent)
    → is_free_response consumed i w ≡ false
    → next_response consumed i (w ∷ ws) ≡ next_response consumed (suc i) ws
unfolding next_response
next_skipped consumed i w ws taken = rw taken

-- The inner loop finds nothing or a response at its place or behind it.
pub next_response-IsResponse :
    (consumed : ℕ → Bool) (events ws : List IoEvent) (i : ℕ) {j : ℕ} {out : Bytes}
    → drop i events ≡ ws
    → next_response consumed i ws ≡ some (some (j, out))
    → IsResponse consumed events j out × (i ≤ j)
next_response-IsResponse consumed events [] i {j} {out} d h = unfold next_response in ground arith
next_response-IsResponse consumed events (w ∷ ws) i {j} {out} d h =
    elim (Bool-cases (is_free_response consumed i w)) [
      | inl free ↦
          let (content, same) = next_found consumed i w ws free h in
          subst (λ k. IsResponse consumed events k out × (i ≤ k)) same
            (
              here-IsResponse consumed events i w out (get_elem?-drop events i d).0 free content,
              omega arith,
            )
      | inr taken ↦
          let (found, behind) =
            next_response-IsResponse consumed events ws (suc i) (get_elem?-drop events i d).1
              (sym (next_skipped consumed i w ws taken) ∙ h) in
          (found, omega arith)
    ]

match-IsRequest :
    (consumed : ℕ → Bool) (events : List IoEvent) (key host : Bytes) (i : ℕ) (evt : IoEvent)
    → get_elem? events i ≡ some evt
    → is_match consumed key host i evt ≡ some true
    → IsRequest consumed events key host i
unfolding is_match
match-IsRequest consumed events key host i evt at h = elim (Option-cases (payload_of evt)) [
  | inl e ↦ ground arith
  | inr (payload, e) ↦ record {
    event = evt;
    at = at;
    is_read = ground arith;
    is_free = ground arith;
    payload = payload;
    content = e;
    same = ground arith;
  }
]

-- A round of the outer loop finds a response behind its event, or goes on.
find_step :
    (consumed : ℕ → Bool) (key host : Bytes) (i : ℕ) (evt : IoEvent) (evts : List IoEvent)
    {r : ℕ × Bytes}
    → find_response consumed key host i (evt ∷ evts) ≡ some (some r)
    → ((is_match consumed key host i evt ≡ some true)
        × (next_response consumed (suc i) evts ≡ some (some r)))
      ⊎ (find_response consumed key host (suc i) evts ≡ some (some r))
unfolding find_response
find_step consumed key host i evt evts {r} h =
    elim (Option-cases (is_match consumed key host i evt)) [
      | inl e ↦ ground arith
      | inr (same, e) ↦ elim (Bool-cases same) [
        | inr other ↦ inr (ground arith)
        | inl match ↦ elim (Option-cases (next_response consumed (suc i) evts)) [
          | inl e1 ↦ ground arith
          | inr (none, e1) ↦ inr (ground arith)
          | inr (some r', e1) ↦ inl (ground arith, ground arith)
        ]
      ]
    ]

-- The outer loop finds nothing, or a response behind a recorded request of the same key and host.
pub find_response-IsResponse :
    (consumed : ℕ → Bool) (key host : Bytes) (events evts : List IoEvent) (from : ℕ) {j : ℕ}
    {out : Bytes}
    → drop from events ≡ evts
    → find_response consumed key host from evts ≡ some (some (j, out))
    → IsResponse consumed events j out
      × (i : ℕ) × IsRequest consumed events key host i
      × (from ≤ i)
      × (i < j)
find_response-IsResponse consumed key host events [] i {j} {out} d h =
    unfold find_response in ground arith
find_response-IsResponse consumed key host events (evt ∷ evts) i {j} {out} d h =
    let (at, behind) = get_elem?-drop events i d in
    elim (find_step consumed key host i evt evts h) [
      | inl (match, e) ↦
          let (found, le) = next_response-IsResponse consumed events evts (suc i) behind e in
          (
            found,
            i,
            match-IsRequest consumed events key host i evt at match,
            omega arith,
            omega arith,
          )
      | inr e ↦
          let (found, k, req, le, lt) =
            find_response-IsResponse consumed key host events evts (suc i) behind e in
          (found, k, req, omega arith, omega arith)
    ]
