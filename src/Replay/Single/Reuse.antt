-- ===== src/Replay/Single/Reuse.antt =====
-- The proxy of one listener against the proxy that consumes (proxy.go, multi.go).
use bug_it.Base.{
  ℕ, suc, ◌≡◌, ◌≢◌, refl, ap, sym, ◌∙◌, Bool, true, false, List, [], ◌∷◌, Option, none, some, ◌>>=◌,
  arith, Bool-cases, Option-cases, inl, inr,
}
use bug_it.Text.{Bytes}
use bug_it.IoEvent.{IoEvent, payload_of}
use bug_it.Replay.Keys.{request_key, http_host}
use bug_it.Replay.Multi.{
  new_multi, next_response, is_match, find_response, search_response, is_free_response,
  is_same_request,
}
use bug_it.Replay.Multi.Serve.{key-cases, search_keyed}
use bug_it.Replay.Single.{
  Server, first_response, is_response, is_request, find_answer, match_response,
}

-- The payload of what a search finds.
abbrev pub payload_part : Option (Option (ℕ × Bytes)) → Option (Option Bytes)
payload_part none = none
payload_part (some none) = some none
payload_part (some (some (j, out))) = some (some out)

abbrev pub nothing : ℕ → Bool
nothing i = false

first_response-next_response :
    (i : ℕ) (evts : List IoEvent)
    → first_response evts ≡ payload_part (next_response nothing i evts)
unfolding first_response next_response is_free_response
first_response-next_response i [] = refl
first_response-next_response i (evt ∷ evts) =
    let rest = first_response-next_response (suc i) evts in
    let same : is_free_response nothing i evt ≡ is_response evt = ground arith in
    elim (Bool-cases (is_response evt)) [
      | inl found ↦ elim (Option-cases (payload_of evt)) [
        | inl panic ↦ rw (same, found, panic)
        | inr (out, e) ↦ rw (same, found, e)
      ]
      | inr other ↦ rw (same, other) rest
    ]

is_request-is_match :
    (key host : Bytes) (i : ℕ) (evt : IoEvent)
    → is_request key host evt ≡ is_match nothing key host i evt
unfolding is_request is_match is_same_request
is_request-is_match key host i evt = refl

find_answer-find_response :
    (key host : Bytes) (i : ℕ) (evts : List IoEvent)
    → find_answer key host evts ≡ payload_part (find_response nothing key host i evts)
unfolding find_answer find_response
find_answer-find_response key host i [] = refl
find_answer-find_response key host i (evt ∷ evts) =
    let rest = find_answer-find_response key host (suc i) evts in
    let inner = first_response-next_response (suc i) evts in
    let same = is_request-is_match key host i evt in
    elim (Option-cases (is_match nothing key host i evt)) [
      | inl panic ↦ rw (same, panic)
      | inr (false, e) ↦ rw (same, e) rest
      | inr (true, e) ↦ elim (Option-cases (next_response nothing (suc i) evts)) [
        | inl panic ↦ rw (same, e, inner, panic)
        | inr (none, found) ↦ rw (same, e, inner, found) rest
        | inr (some (j, out), found) ↦ rw (same, e, inner, found)
      ]
    ]

match_keyed :
    (s : Server) (request : Bytes)
    → request_key request ≢ []
    → match_response s request
      ≡ (find_answer (request_key request) (http_host request) s.events >>= λ out. some (s, out))
unfolding match_response
match_keyed s request ne = elim (key-cases (request_key request)) [
  | inl e ↦ absurd (ne e)
  | inr (c, t, e) ↦ ground arith
]

-- A request with a key leaves the proxy of one listener as it is, so that it is answered in the same way
-- when it comes again; the answer is the one that the consuming proxy gives before it has served any
-- response and moved its cursor.
pub match_response-search_response :
    (s : Server) (request : Bytes)
    → request_key request ≢ []
    → match_response s request
      ≡ (payload_part (search_response (new_multi s.events) request) >>= λ out. some (s, out))
match_response-search_response s request ne =
    let key = request_key request in
    let host = http_host request in
    match_keyed s request ne
    ∙ ap (λ r. r >>= λ out. some (s, out))
        (find_answer-find_response key host 0 s.events
          ∙ (unfold new_multi in
              ap payload_part (sym (search_keyed (new_multi s.events) request ne))))
