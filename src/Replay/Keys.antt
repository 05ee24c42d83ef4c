-- ===== src/Replay/Keys.antt =====
-- How a request and a recorded event are compared: dre-replay-cli/internal/proxy/proxy.go and grpc_match.go.
pub mod Service
use bug_it.Base.{
  ℕ, zero, suc, ◌+◌, ◌-◌, Bool, true, false, not, ◌&&◌, List, [], ◌∷◌, ◌++◌, Option, none, some,
  ◌==◌, if◌then◌else◌, length, take, drop,
}
use bug_it.Text.{Bytes, codes, crlf, bytes_eq, to_lower, to_upper, trim_prefix}
use bug_it.Text.Search.{index, index_byte, before_byte, last_index_byte, contains}
use bug_it.Text.Trim.{trim_space, fields}

-- `firstLine`: a text without a line feed is one line.
unfoldable pub first_line : Bytes → Bytes
first_line payload = trim_space (before_byte (trim_space payload) 10)

-- `isHTTPKeepAlive`
unfoldable pub is_http_keep_alive : Bytes → Bool
is_http_keep_alive request = contains (to_lower request) (codes "connection: keep-alive")

-- The method and the path of a line with two words or more.
unfoldable pub http_key_of : List Bytes → Bytes
http_key_of [] = []
http_key_of (method ∷ []) = []
http_key_of (method ∷ path ∷ rest) = to_upper method ++ b' ' ∷ before_byte path b'?'

-- `httpRequestKey`; the empty text has no words.
unfoldable pub http_request_key : Bytes → Bytes
http_request_key payload = http_key_of (fields (first_line payload))

-- The service and the method of a path `a/b`, where `a` is not empty.
unfoldable pub split_service : Bytes → Option (Bytes × Bytes)
split_service path = elim (last_index_byte path b'/') [
  | none ↦ none
  | some zero ↦ none
  | some (suc i) ↦ some (take (suc i) path, drop (suc i + 1) path)
]

unfoldable pub grpc_unary_of : List Bytes → Option (Bytes × Bytes)
grpc_unary_of [] = none
grpc_unary_of (method ∷ []) = none
grpc_unary_of (method ∷ path ∷ rest) =
    if bytes_eq method (codes "POST") then split_service (trim_prefix path (codes "/")) else none

-- `MatchGRPCUnary`; `none` is `ok == false`.
unfoldable pub match_grpc_unary : Bytes → Option (Bytes × Bytes)
match_grpc_unary request = grpc_unary_of (fields (first_line request))

-- `grpcRequestKey`
unfoldable pub grpc_request_key : Bytes → Bytes
grpc_request_key request = elim (match_grpc_unary request) [
  | none ↦ []
  | some (service, method) ↦ codes "GRPC " ++ service ++ b'/' ∷ method
]

-- `requestKey`
unfoldable pub request_key : Bytes → Bytes
request_key payload = elim (grpc_request_key payload) [
  | [] ↦ http_request_key payload
  | c ∷ k ↦ c ∷ k
]

-- `httpHost`: the value runs to the line end or to the end of the text.
unfoldable pub http_host : Bytes → Bytes
http_host payload = elim (index (to_lower payload) (codes "host:")) [
  | none ↦ []
  | some idx ↦
      let rest = drop (idx + 5) payload in
      elim (index rest crlf) [ none ↦ trim_space rest | some end ↦ trim_space (take end rest) ]
]
