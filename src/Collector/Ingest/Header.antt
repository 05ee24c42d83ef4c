-- ===== src/Collector/Ingest/Header.antt =====
-- The header that an agent writes is the header that the collector reads (clock.go, ingest.go).
use bug_it.Base.{
  ℕ, ◌+◌, ◌<◌, ◌^◌, ◌≡◌, refl, [], ◌∷◌, ◌++◌, append_assoc, none, some, arith, length, take, drop,
  take_exact, drop_exact, length-append,
}
use bug_it.Text.{Bytes, crlf}
use bug_it.Text.Search.{index, Lacks, index_barrier, index_here, index_line}
use bug_it.VectorClock.{header_line, clock_text, splice}
use bug_it.VectorClock.Inject.{splice_at}
use bug_it.Collector.Vector.Header.{parse_header-clock_text, clock_text-Lacks}
use bug_it.Collector.Ingest.{header_key, header_value, read_header}

-- The name stands behind the first line.
index-key :
    (line tail : Bytes)
    → index line header_key ≡ none
    → index (line ++ crlf ++ header_key ++ tail) header_key ≡ some (length line + 2)
index-key line tail h =
    let at_key = index_here header_key tail in
    let at_lf =
      index_barrier 10 [] (header_key ++ tail) header_key {i = 0} (omega arith) (λ e. cc)
        (unfold index in refl) at_key in
    rw (append_assoc line crlf header_key, append_assoc line (crlf ++ header_key) tail)
      (index_barrier 13 line (10 ∷ (header_key ++ tail)) header_key {i = 1} (omega arith) (λ e. cc)
        h at_lf)

-- The value runs from the name to the line end.
header_value-key :
    (line value rest : Bytes)
    → index line header_key ≡ none
    → Lacks 13 value
    → header_value (line ++ crlf ++ header_key ++ (value ++ crlf ++ rest)) ≡ some value
unfolding header_value
header_value-key line value rest h l =
    let tail = value ++ crlf ++ rest in
    let behind : drop (length line + 2 + length header_key) (line ++ crlf ++ header_key ++ tail)
        ≡ tail =
      drop_exact (length line + 2 + length header_key) (line ++ crlf ++ header_key) tail
        (omega (arith, length-append {0})) in
    let cut : take (length value) tail ≡ value =
      rw append_assoc (take_exact (length value) value (crlf ++ rest) refl) in
    rw (index-key line tail h, header_value) (rw behind (rw (index_line value rest l) (rw cut)))

header_value-line :
    (line value rest : Bytes)
    → index line header_key ≡ none
    → Lacks 13 value
    → header_value (line ++ crlf ++ header_line value ++ rest) ≡ some value
unfolding header_line
header_value-line line value rest h l =
    let same : line ++ crlf ++ (header_key ++ value ++ crlf) ++ rest
        ≡ line ++ crlf ++ header_key ++ (value ++ crlf ++ rest) =
      simp append_assoc in
    rw same (header_value-key line value rest h l)

-- Where the first line does not hold the header's name itself, the header that is injected behind it is
-- read back as the node and the number, if the node has no carriage return and the number fits 64 bits.
pub read_header-splice :
    (line rest node : Bytes) (n : ℕ)
    → index (line ++ crlf ++ rest) crlf ≡ some (length line)
    → index line header_key ≡ none
    → Lacks 13 node
    → n < 2 ^ 64
    → read_header (splice (line ++ crlf ++ rest) (header_line (clock_text node n))) ≡ some (node, n)
unfolding read_header
read_header-splice line rest node n at_end h l fits =
    rw
      (
        splice_at line rest (header_line (clock_text node n)) at_end,
        header_value-line line (clock_text node n) rest h (clock_text-Lacks node n l),
      )
      (parse_header-clock_text node n fits)
