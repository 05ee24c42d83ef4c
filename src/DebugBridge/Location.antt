-- ===== src/DebugBridge/Location.antt =====
-- The location of a frame, written and read (pkg/debugbridge/node.go).
use bug_it.Base.{
  ℕ, pos, ◌+◌, ◌-◌, ◌*◌, ◌^◌, ◌<◌, ◌≡◌, refl, ap, sym, subst, ◌∙◌, ◌⊎◌, inr, true, false, [], ◌∷◌,
  ◌++◌, some, ltb, ◌==◌, arith, All, length, take-append, drop_behind,
}
use bug_it.Text.{Bytes, is_space}
use bug_it.Text.Search.{last_index_byte, last_index_byte-append, Lacks}
use bug_it.Text.Trim.{trim_left}
use bug_it.Text.Decimal.{format, format-All, value, value-format, IsDigit}
use bug_it.LocalCapture.{scan_digits, scan_int, fit_int}
use bug_it.DebugBridge.{with_line, with_column, scan_number, parse_stack_location}

scan_digits-IsDigit : (n : ℕ) (s : Bytes) → All IsDigit s → scan_digits n s ≡ value n s
unfolding scan_digits value
scan_digits-IsDigit n [] h = refl
scan_digits-IsDigit n (c ∷ s) (d, h) = ground (arith, scan_digits-IsDigit (n * 10 + (c - b'0')) s h)

pub digits-Lacks : (b : ℕ) (s : Bytes) → b < b'0' ⊎ (b'9' < b) → All IsDigit s → Lacks b s
digits-Lacks b [] k h = tt
digits-Lacks b (c ∷ s) k (d, h) = ((λ e. ground (arith, e, d, k)), digits-Lacks b s k h)

scan-digits :
    (c : ℕ) (s : Bytes)
    → All IsDigit (c ∷ s)
    → value 0 (c ∷ s) < 2 ^ 63
    → scan_number (c ∷ s) ≡ pos (value 0 (c ∷ s))
unfolding scan_number scan_int trim_left fit_int
scan-digits c s (d, h) small =
    let all = scan_digits-IsDigit 0 (c ∷ s) (d, h) in
    let graph : is_space c ≡ false = ground arith in
    let plain : (c == b'-') ≡ false = ground arith in
    let plus : (c == b'+') ≡ false = ground arith in
    let fits : ltb (value 0 (c ∷ s)) (2 ^ 63) ≡ true = ground arith in
    rw graph (rw plain (rw plus (ap (fit_int false) all ∙ rw fits refl)))

scan-IsDigit : (s : Bytes) → All IsDigit s → value 0 s < 2 ^ 63 → scan_number s ≡ pos (value 0 s)
scan-IsDigit [] h k = unfold scan_number scan_int trim_left value in refl
scan-IsDigit (c ∷ s) h k = scan-digits c s h k

-- A printed number is scanned back.
scan-format : (n : ℕ) → n < 2 ^ 63 → scan_number (format n) ≡ pos n
scan-format n h =
    scan-IsDigit (format n) (format-All n) (subst (λ m. m < 2 ^ 63) (sym (value-format n)) h)
    ∙ ap pos (value-format n)

-- The location of a frame as Node writes it.
abbrev pub location : Bytes → ℕ → ℕ → Bytes
location file line column = file ++ b':' ∷ format line ++ b':' ∷ format column

with_line-location :
    (file : Bytes) (line column : ℕ)
    → line < 2 ^ 63
    → column < 2 ^ 63
    → with_line
        (location file line column)
        (length (file ++ b':' ∷ format line))
        (some (length file))
      ≡ (file, pos line, pos column)
unfolding with_line
with_line-location file line column h k =
    rw (take-append (file ++ b':' ∷ format line) (b':' ∷ format column)) (
      rw (take-append file (b':' ∷ format line)) (
        rw (drop_behind file b':' (format line)) (
          rw (drop_behind (file ++ b':' ∷ format line) b':' (format column))
            (rw (scan-format line h) (rw (scan-format column k) refl)))))

colon : (s : Bytes) (n : ℕ) → last_index_byte (s ++ b':' ∷ format n) b':' ≡ some (length s)
colon s n =
    last_index_byte-append b':' s (format n)
      (digits-Lacks b':' (format n) (inr (omega arith)) (format-All n))

-- The location that Node writes is read back.
pub parse_stack_location-location :
    (file : Bytes) (line column : ℕ)
    → line < 2 ^ 63
    → column < 2 ^ 63
    → parse_stack_location (location file line column) ≡ (file, pos line, pos column)
unfolding parse_stack_location with_column
parse_stack_location-location file line column h k =
    let front = file ++ b':' ∷ format line in
    ap (with_column (location file line column)) (colon front column)
    ∙ ap (with_line (location file line column) (length front)) (
        ap (λ s. last_index_byte s b':') (take-append front (b':' ∷ format column))
        ∙ colon file line)
    ∙ with_line-location file line column h k
