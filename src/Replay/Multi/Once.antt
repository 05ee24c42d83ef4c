-- ===== src/Replay/Multi/Once.antt =====
-- While the cursor does not go back, no recorded response is served twice (multi.go).
use bug_it.Base.{
  ℕ, ◌≤◌, ◌≡◌, refl, ap, ◌∙◌, ◌≢◌, inl, inr, subst, Bool, true, List, [], ◌∷◌, Option, none, some,
  arith, All, Bool-cases,
}
use bug_it.Text.{Bytes}
use bug_it.Replay.Keys.{http_host}
use bug_it.Replay.Multi.{
  MultiServer, set_cursor, consume, serve, search_response, match_response, follow, is_refused_host,
}
use bug_it.Replay.Multi.Serve.{search_response-IsAnswer, match_response-IsAnswer}

-- The session's cursor does not lie before the server's.
abbrev pub IsForward : MultiServer → Option ℕ → Type 0
IsForward m none = Unit
IsForward m (some index) = m.cursor ≤ index

follow_consumed :
    (m : MultiServer) (s : Option ℕ) → IsForward m s → (follow m s).consumed ≡ m.consumed
unfolding follow set_cursor
follow_consumed m none f = refl
follow_consumed m (some index) f = ground arith

-- The requests of a time in which the cursor does not go back, with the places at which their search ended.
pub data Served : MultiServer → List ℕ → MultiServer → Type 0 where
  done : (m : MultiServer) → Served m [] m
  refused :
      {m m' m'' : MultiServer} {js : List ℕ} (s : Option ℕ) (request host_filter : Bytes)
      → IsForward m s
      → match_response m s request host_filter ≡ some (m', none)
      → Served m' js m''
      → Served m js m''
  answered :
      {m m' m'' : MultiServer} {js : List ℕ} (s : Option ℕ) (request host_filter out : Bytes)
      (j : ℕ)
      → IsForward m s
      → search_response (follow m s) request ≡ some (some (j, out))
      → match_response m s request host_filter ≡ some (m', some out)
      → Served m' js m''
      → Served m (j ∷ js) m''

-- No place stands twice in the list.
abbrev pub Distinct : List ℕ → Type 0
Distinct [] = Unit
Distinct (j ∷ js) = All (λ k. j ≢ k) js × Distinct js

consume_self : (consumed : ℕ → Bool) (j : ℕ) → consume consumed j j ≡ true
unfolding consume
consume_self consumed j = ground arith

consume_mono : (consumed : ℕ → Bool) (j i : ℕ) → consumed i ≡ true → consume consumed j i ≡ true
unfolding consume
consume_mono consumed j i h = ground arith

refused_consumed :
    (m m' : MultiServer) (s : Option ℕ) (request host_filter : Bytes)
    → IsForward m s
    → match_response m s request host_filter ≡ some (m', none)
    → m'.consumed ≡ m.consumed
refused_consumed m m' s request host_filter f h =
    elim (match_response-IsAnswer m s request host_filter h) [
      | inl (e, _, _) ↦ ap (λ (k : MultiServer). k.consumed) e ∙ follow_consumed m s f
      | inr (j, out, _, _, e) ↦ cc
    ]

-- The response that the search found is consumed.
answered_consumed :
    (m m' : MultiServer) (s : Option ℕ) (request host_filter out : Bytes) (j : ℕ)
    → search_response (follow m s) request ≡ some (some (j, out))
    → match_response m s request host_filter ≡ some (m', some out)
    → m'.consumed ≡ consume (follow m s).consumed j
unfolding match_response serve
answered_consumed m m' s request host_filter out j e h =
    elim (Bool-cases (is_refused_host host_filter (http_host request))) [
      | inl turned ↦ absurd (ground arith)
      | inr allowed ↦ ground arith
    ]

-- A place that is consumed stays out of the list.
Served-fresh :
    {m m' : MultiServer} {js : List ℕ} (i : ℕ)
    → Served m js m'
    → m.consumed i ≡ true
    → All (λ k. i ≢ k) js
Served-fresh i (done m) c = tt
Served-fresh i (refused {m} {m'} s request host_filter f h rest) c =
    Served-fresh i rest (ap (λ k. k i) (refused_consumed m m' s request host_filter f h) ∙ c)
Served-fresh i (answered {m} {m'} s request host_filter out j f e h rest) c =
    let old : (follow m s).consumed i ≡ true =
      ap (λ (k : ℕ → Bool). k i) (follow_consumed m s f) ∙ c in
    let answer = search_response-IsAnswer (follow m s) request {j = j} {out = out} e in
    (
      λ same.
          let taken : (follow m s).consumed j ≡ true =
            subst (λ k. (follow m s).consumed k ≡ true) same old in
          cc (taken, answer.response.is_free),
      Served-fresh i rest (
          ap (λ (k : ℕ → Bool). k i) (answered_consumed m m' s request host_filter out j e h)
          ∙ consume_mono (follow m s).consumed j i old),
    )

-- In every sequence of requests in which the cursor does not go back and none panics, every recorded response answers
-- one request at most: no two answers were found at the same place of the recording.
pub Served-Distinct : {m m' : MultiServer} {js : List ℕ} → Served m js m' → Distinct js
Served-Distinct (done m) = tt
Served-Distinct (refused s request host_filter f h rest) = Served-Distinct rest
Served-Distinct (answered {m} {m'} s request host_filter out j f e h rest) = (
  Served-fresh j rest (
      ap (λ (k : ℕ → Bool). k j) (answered_consumed m m' s request host_filter out j e h)
      ∙ consume_self _ j),
  Served-Distinct rest,
)
