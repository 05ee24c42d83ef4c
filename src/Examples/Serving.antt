-- ===== src/Examples/Serving.antt =====
-- Two requests and the recorded responses that answer them.
use bug_it.Base.{
  ℕ, ◌≡◌, ◌⊎◌, refl, List, [], ◌∷◌, none, some, Bool, false, replicate, copy, slice_to,
}
use bug_it.Text.{Bytes, bytes_eq, has_prefix, to_lower, to_upper}
use bug_it.Text.Search.{index, before_byte}
use bug_it.Text.Trim.{fields, trim_space, trim_left, trim_right}
use bug_it.IoEvent.{IoEvent, payload_of, zeros}
use bug_it.Capture.{fill_event}
use bug_it.Replay.Keys.{
  request_key, http_host, match_grpc_unary, first_line, grpc_unary_of, grpc_request_key,
  http_request_key, http_key_of,
}
use bug_it.Replay.Multi.{
  MultiServer, match_response, search_response, follow, consume, is_match, is_free_response,
  is_same_request, is_other_host, next_response, find_response, is_refused_host, serve,
}
use bug_it.Replay.Multi.Missed.{IsRefused}
use bug_it.Replay.Multi.Serve.{IsAnswer, IsUnanswered, match_response-IsAnswer}
use bug_it.Replay.Multi.Once.{Served, done, answered, Distinct, Served-Distinct}
use bug_it.Examples.{sample, get_request, response, server_failure}

abbrev recording : List IoEvent
recording = sample 0 get_request ∷ sample 1 response ∷ sample 1 server_failure ∷ []

-- The server after the responses at the places that are true.
abbrev served : (ℕ → Bool) → MultiServer
served consumed = record { events = recording; cursor = 0; consumed = consumed }

abbrev first : ℕ → Bool
first = consume (λ _. false) 1

first_found : search_response (served (λ _. false)) get_request ≡ some (some (1, response))
unfolding search_response request_key grpc_request_key match_grpc_unary grpc_unary_of first_line
    fields trim_space trim_left trim_right before_byte bytes_eq http_request_key http_key_of
    to_upper find_response is_match payload_of slice_to fill_event zeros replicate copy
    is_same_request is_other_host http_host index has_prefix to_lower next_response is_free_response
first_found = refl

second_found : search_response (served first) get_request ≡ some (some (2, server_failure))
unfolding search_response request_key grpc_request_key match_grpc_unary grpc_unary_of first_line
    fields trim_space trim_left trim_right before_byte bytes_eq http_request_key http_key_of
    to_upper find_response is_match payload_of slice_to fill_event zeros replicate copy
    is_same_request is_other_host http_host index has_prefix to_lower next_response is_free_response
    consume
second_found = refl

response_of :
    (m : MultiServer) (j : ℕ) (out : Bytes)
    → search_response m get_request ≡ some (some (j, out))
    → match_response m none get_request []
      ≡ some (record m { consumed = consume m.consumed j }, some out)
unfolding match_response follow is_refused_host serve
response_of m j out e = rw e

match_response-IsAnswer_example :
    ((served first ≡ follow (served λ _. false) none)
      × (some response ≡ none)
      × (IsRefused [] (http_host get_request)
          ⊎ IsUnanswered (follow (served λ _. false) none) get_request))
    ⊎ ((j : ℕ) × (out : Bytes) × IsAnswer (follow (served λ _. false) none) get_request j out
        × (served first ≡ record (follow (served λ _. false) none) {
          consumed = consume (follow (served λ _. false) none).consumed j;
        })
        × (some response ≡ some out))
match_response-IsAnswer_example =
    match_response-IsAnswer (served λ _. false) none get_request []
      (response_of (served λ _. false) 1 response first_found)

both_served : Served (served λ _. false) (1 ∷ 2 ∷ []) (served (consume first 2))
unfolding follow
both_served =
    answered none get_request [] response 1 tt first_found
      (response_of (served λ _. false) 1 response first_found)
      (answered none get_request [] server_failure 2 tt second_found
        (response_of (served first) 2 server_failure second_found)
        (done (served (consume first 2))))

Served-Distinct_example : Distinct (1 ∷ 2 ∷ [])
Served-Distinct_example = Served-Distinct both_served
