-- ===== src/VectorClock/Inject.antt =====
-- What an injection does to the payload and to the counters (pkg/vectorclock/clock.go).
use bug_it.Base.{
  ℕ, suc, ◌+◌, ◌%◌, ◌^◌, ◌<◌, ◌≡◌, refl, ◌⊎◌, inl, inr, ◌≢◌, ap, sym, ◌∙◌, ◌++◌, none, some, arith,
  ltb, length, take, drop, Bool-cases, Option-cases, zero, length-take, length-append, take_exact,
  drop_exact,
}
use bug_it.Text.{Bytes, crlf, bytes_eq, bytes_eq_refl, bytes_eq_sound}
use bug_it.Text.Search.{index, index-split}
use bug_it.VectorClock.{
  Clock, Counters, increment, inject_header, is_http_start, header_line, splice, maybe_inject_http,
}

-- Counting a node moves its own counter by one, modulo 2^64, and no other.
pub increment_self :
    (seq : Counters) (node : Bytes) → increment seq node node ≡ (seq node + 1) % 2 ^ 64
unfolding increment
increment_self seq node = rw bytes_eq_refl

pub increment_other :
    (seq : Counters) (node other : Bytes) → other ≢ node → increment seq node other ≡ seq other
unfolding increment
increment_other seq node other ne = elim (Bool-cases (bytes_eq other node)) [
  | inl e ↦ absurd (ne (bytes_eq_sound other node e))
  | inr e ↦ rw e
]

-- The clock after the headers of `n` writes of one node.
unfoldable pub inject_times : ℕ → Clock → Bytes → Clock
inject_times zero e node = e
inject_times (suc n) e node = inject_times n (inject_header e node).1 node

-- After `n` headers a node's counter has moved by `n`, modulo 2^64, and the others have not moved.
pub inject_times_seq :
    (n : ℕ) (e : Clock) (node other : Bytes)
    → e.seq node < 2 ^ 64
    → ((inject_times n e node).seq node ≡ (e.seq node + n) % 2 ^ 64)
      × (other ≢ node → (inject_times n e node).seq other ≡ e.seq other)
unfolding inject_times inject_header
inject_times_seq zero e node other h = (omega arith, λ _. refl)
inject_times_seq (suc n) e node other h =
    let next = increment_self e.seq node in
    let (own, others) =
      inject_times_seq n (inject_header e node).1 node other (omega (arith, next)) in
    (own ∙ omega (arith, next), λ ne. others ne ∙ increment_other e.seq node other ne)

-- The header goes behind the line end that is found.
pub splice_at :
    (line rest header : Bytes)
    → index (line ++ crlf ++ rest) crlf ≡ some (length line)
    → splice (line ++ crlf ++ rest) header ≡ line ++ crlf ++ header ++ rest
unfolding splice
splice_at line rest header e =
    let size : length (line ++ crlf) ≡ length line + 2 = length-append line crlf in
    rw (e, splice)
      (rw (
        take_exact (length line + 2) (line ++ crlf) rest size,
        drop_exact (length line + 2) (line ++ crlf) rest size,
      ))

-- A payload without a line end stays as it is; any other has the header behind its first line.
pub splice-cases :
    (payload header : Bytes)
    → ((index payload crlf ≡ none) × (splice payload header ≡ payload))
      ⊎ ((line : Bytes) × (rest : Bytes) × (payload ≡ line ++ crlf ++ rest)
          × (index payload crlf ≡ some (length line))
          × (splice payload header ≡ line ++ crlf ++ header ++ rest))
unfolding splice
splice-cases payload header = elim (Option-cases (index payload crlf)) [
  | inl e ↦ inl (e, rw (e, splice))
  | inr (i, e) ↦
      let (whole, within) = index-split payload crlf e in
      let line = take i payload in
      let rest = drop (i + 2) payload in
      let size : length line ≡ i = omega (arith, length-take i payload) in
      let here : index payload crlf ≡ some (length line) = e ∙ ap some (sym size) in
      inr (
        line,
        rest,
        whole,
        here,
        ap (λ p. splice p header) whole
            ∙ splice_at line rest header (ap (λ p. index p crlf) (sym whole) ∙ here),
      )
]

-- An injection that leaves the length alone leaves the payload alone.
splice-same :
    (payload value : Bytes)
    → length (splice payload (header_line value)) ≡ length payload
    → splice payload (header_line value) ≡ payload
unfolding header_line
splice-same payload value h = elim (splice-cases payload (header_line value)) [
  | inl (_, same) ↦ same
  | inr (line, rest, whole, _, e) ↦
      absurd (omega (arith, length-append {0}, ap length whole, ap length e))
]

pub maybe_inject_http-same :
    (payload node : Bytes) (e : Clock)
    → length (maybe_inject_http payload node (some e)).0 ≡ length payload
    → (maybe_inject_http payload node (some e)).0 ≡ payload
unfolding maybe_inject_http
maybe_inject_http-same payload node e h = elim (Bool-cases (ltb (length payload) 12)) [
  | inl short ↦ ground arith
  | inr long ↦ elim (Bool-cases (is_http_start payload)) [
    | inl http ↦ ground (arith, splice-same payload (inject_header e node).0)
    | inr other ↦ ground arith
  ]
]
