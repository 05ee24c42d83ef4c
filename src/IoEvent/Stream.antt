-- ===== src/IoEvent/Stream.antt =====
-- The event stream of an archive: `Export` writes the records one behind the other (snapshot.go), and
-- `ParseTarGz` reads them until the end (archive.go).
use bug_it.Base.{
  ℕ, zero, suc, ◌<◌, ◌≡◌, List, [], ◌∷◌, ◌++◌, append_assoc, append-nil, arith, length, All,
  length-append, Option, none, some, inl, inr, ◌∙◌, ◌⊎◌, ◌≢◌, ◌%◌, ◌*◌,
}
use bug_it.Text.{Bytes}
use bug_it.IoEvent.{
  record_size, IoEvent, IsTyped, encode, decode, Decoded, ok, err, eof, unexpected_eof,
}
use bug_it.IoEvent.Codec.{length-encode, decode-encode, decode-cases}

-- The loop of `Export` over its events.
unfoldable pub encode_events : List IoEvent → Bytes
encode_events [] = []
encode_events (e ∷ es) = encode e ++ encode_events es

-- The loop of `ParseTarGz` over `events.bin`; each round reads a record, so the bytes bound the rounds.
-- `none`: the fuel ran out.
read_events : ℕ → Bytes → List IoEvent → Option (Decoded (List IoEvent))
read_events zero s events = none
read_events (suc fuel) s events = elim (decode s) [
  | ok (e, rest) ↦ read_events fuel rest (events ++ e ∷ [])
  | err eof ↦ some (ok events)
  | err unexpected_eof ↦ some (err unexpected_eof)
]

unfoldable pub decode_events : Bytes → Option (Decoded (List IoEvent))
unfolding read_events
decode_events s = read_events (suc (length s)) s []

read_step :
    (fuel : ℕ) (s : Bytes) (events : List IoEvent) {e : IoEvent} {rest : Bytes}
    → decode s ≡ ok (e, rest)
    → read_events (suc fuel) s events ≡ read_events fuel rest (events ++ e ∷ [])
unfolding read_events
read_step fuel s events h = rw (h, read_events)

read_events-encode_events :
    (es : List IoEvent) (fuel : ℕ) (events : List IoEvent)
    → All IsTyped es
    → length (encode_events es) < fuel
    → read_events fuel (encode_events es) events ≡ some (ok (events ++ es))
unfolding encode_events
read_events-encode_events es zero events t h = absurd (omega arith)
read_events-encode_events [] (suc fuel) events t h = unfold read_events decode in rw append-nil
read_events-encode_events (e ∷ es) (suc fuel) events (te, t) h =
    read_step fuel (encode e ++ encode_events es) events (decode-encode e (encode_events es) te)
    ∙ read_events-encode_events es fuel (events ++ e ∷ []) t
        (omega (arith, length-append (encode e) (encode_events es), length-encode e))
    ∙ rw append_assoc

-- The events that an export writes, if they have the sizes of their Go types, are the events that a parse
-- reads.
pub decode_events-encode_events :
    (es : List IoEvent) → All IsTyped es → decode_events (encode_events es) ≡ some (ok es)
unfolding decode_events
decode_events-encode_events es t =
    read_events-encode_events es (suc (length (encode_events es))) [] t (omega arith)

read_events-cases :
    (fuel : ℕ) (s : Bytes) (events : List IoEvent)
    → length s < fuel
    → ((es : List IoEvent) × (read_events fuel s events ≡ some (ok (events ++ es)))
        × (length es * record_size ≡ length s))
      ⊎ ((read_events fuel s events ≡ some (err unexpected_eof)) × (length s % record_size ≢ 0))
unfolding read_events
read_events-cases zero s events h = absurd (omega arith)
read_events-cases (suc fuel) s events h = elim (decode-cases s) [
  | inl (e, none_left) ↦ inl ([], rw (e, read_events, append-nil), omega arith)
  | inr (inl (e, some_left, few)) ↦ inr (rw (e, read_events), omega arith)
  | inr (inr (e, rest, step, size)) ↦
      elim (read_events-cases fuel rest (events ++ e ∷ []) (omega arith)) [
        | inl (es, r, k) ↦
            inl (e ∷ es, read_step fuel s events step ∙ r ∙ rw append_assoc, omega arith)
        | inr (r, k) ↦ inr (read_step fuel s events step ∙ r, omega arith)
      ]
]

-- Every stream is read to its end: whole records give as many events, a torn record is an error.
pub decode_events-cases :
    (s : Bytes)
    → ((es : List IoEvent) × (decode_events s ≡ some (ok es))
        × (length es * record_size ≡ length s))
      ⊎ ((decode_events s ≡ some (err unexpected_eof)) × (length s % record_size ≢ 0))
unfolding decode_events
decode_events-cases s = read_events-cases (suc (length s)) s [] (omega arith)
