-- ===== src/Examples.antt =====
-- Concrete inputs on which the theorems apply.
mod Wire
mod Collecting
mod Handlers
mod Replaying
mod Serving
mod Reporting
mod Settings
mod Inspecting
mod Projects
mod Bridging
use bug_it.Base.{
  ℕ, ◌^◌, List, [], ◌∷◌, ◌++◌, ◌≤◌, ◌<◌, arith, length, take, Bool, true, false, not, ◌&&◌, ◌==◌,
  refl, some, ◌≡◌, ◌≢◌, ap, sym, ◌∙◌,
}
use bug_it.Text.{Bytes, codes, crlf, bytes_eq, bytes_eq_refl}
use bug_it.Text.Search.{Lacks}
use bug_it.IoEvent.{IoEvent, IsTyped, IsBounded, max_payload_len, payload_of_within}
use bug_it.Capture.{fill_event}
use bug_it.Capture.Fill.{fill_event-IsTyped}

-- A full event of a kind with a payload.
abbrev pub sample : ℕ → Bytes → IoEvent
sample is_write payload = fill_event 7000 3 is_write payload (codes "app")

abbrev pub get_request : Bytes
get_request = codes "GET /items HTTP/1.1" ++ crlf ++ codes "Host: shop" ++ crlf ++ crlf

abbrev pub response : Bytes
response = codes "HTTP/1.1 200 OK" ++ crlf ++ crlf

abbrev pub server_failure : Bytes
server_failure = codes "HTTP/1.1 500 Oops" ++ crlf ++ crlf

pub sample-IsTyped :
    (is_write : ℕ) (payload : Bytes)
    → is_write < 2 ^ 8
    → length payload ≤ max_payload_len
    → IsTyped (sample is_write payload)
sample-IsTyped is_write payload w small =
    (fill_event-IsTyped 7000 3 is_write payload (codes "app") (omega arith) w small).0

pub sample-IsBounded :
    (is_write : ℕ) (payload : Bytes)
    → is_write < 2 ^ 8
    → length payload ≤ max_payload_len
    → IsBounded (sample is_write payload)
sample-IsBounded is_write payload w small =
    (fill_event-IsTyped 7000 3 is_write payload (codes "app") (omega arith) w small).1

some_injective : {A : Type 0} {a b : A} → some a ≡ some b → a ≡ b
some_injective {A} {a} {b} e = cc

-- The part of the payload that counts is what was recorded.
pub sample_content :
    (is_write : ℕ) (payload : Bytes)
    → is_write < 2 ^ 8
    → length payload ≤ max_payload_len
    → take (sample is_write payload).payload_len (sample is_write payload).payload ≡ payload
sample_content is_write payload w small =
    let (typed, bounded, content) =
      fill_event-IsTyped 7000 3 is_write payload (codes "app") (omega arith) w small in
    some_injective (sym (payload_of_within (sample is_write payload) bounded) ∙ content)

abbrev avoids : ℕ → Bytes → Bool
avoids b [] = true
avoids b (c ∷ s) = not (c == b) && avoids b s

pub avoids-Lacks : (b : ℕ) (s : Bytes) → avoids b s ≡ true → Lacks b s
avoids-Lacks b [] h = tt
avoids-Lacks b (c ∷ s) h = ((λ e. ground arith), avoids-Lacks b s (ground arith))

pub differ : (s t : Bytes) → bytes_eq s t ≡ false → s ≢ t
differ s t e same = let k : bytes_eq s t ≡ true = ap (bytes_eq s) (sym same) ∙ bytes_eq_refl s in cc
