-- ===== src/Collector/Vector/Header.antt =====
-- A vector-clock header is read back as it was written (ParseHeader against InjectHeader).
use bug_it.Base.{
  ℕ, ◌+◌, ◌-◌, ◌*◌, ◌%◌, ◌^◌, ◌<◌, ◌≡◌, refl, [], ◌∷◌, ◌++◌, some, arith, All, All-append,
  take-append, drop_behind,
}
use bug_it.Text.{Bytes}
use bug_it.Text.Search.{Lacks, last_index_byte-append}
use bug_it.Text.Decimal.{format, value, IsDigit, format-All, value-format, le-value}
use bug_it.VectorClock.{clock_text}
use bug_it.Collector.Vector.{split_clock, parse_digits, parse_header}

digits-Lacks : (s : Bytes) → All IsDigit s → Lacks b':' s
digits-Lacks [] h = tt
digits-Lacks (c ∷ s) ((lo, hi), h) = (ground arith, digits-Lacks s h)

parse_digits-value :
    (s : Bytes) (n : ℕ) → All IsDigit s → value n s < 2 ^ 64 → parse_digits s n ≡ some (value n s)
unfolding parse_digits value
parse_digits-value [] n h k = refl
parse_digits-value (c ∷ s) n ((lo, hi), h) k =
    let m = n * 10 + (c - b'0') in
    let fits : m % 2 ^ 64 ≡ m = omega (arith, le-value s m) in
    ground (arith, fits, parse_digits-value s m h k)

split_clock-append :
    (node digits : Bytes)
    → Lacks b':' digits
    → split_clock (node ++ b':' ∷ digits) ≡ some (node, digits)
unfolding split_clock
split_clock-append node digits l =
    rw (last_index_byte-append b':' node digits l, split_clock)
      (rw (take-append node (b':' ∷ digits), drop_behind node b':' digits))

-- `ParseHeader` reads the node and the number of every header, also where the node has colons; the number
-- fits 64 bits.
pub parse_header-clock_text :
    (node : Bytes) (n : ℕ) → n < 2 ^ 64 → parse_header (clock_text node n) ≡ some (node, n)
unfolding parse_header clock_text
parse_header-clock_text node n h =
    rw (split_clock-append node (format n) (digits-Lacks (format n) (format-All n))) (
      rw (parse_digits-value (format n) 0 (format-All n) (rw (value-format n) h))
        (rw (value-format n)))

line-Lacks : (s : Bytes) → All IsDigit s → Lacks 13 s
line-Lacks [] h = tt
line-Lacks (c ∷ s) ((lo, hi), h) = (ground arith, line-Lacks s h)

-- The header's value does not end its line.
pub clock_text-Lacks : (node : Bytes) (n : ℕ) → Lacks 13 node → Lacks 13 (clock_text node n)
unfolding clock_text
clock_text-Lacks node n l =
    All-append _ node (b':' ∷ format n) l (ground arith, line-Lacks (format n) (format-All n))
