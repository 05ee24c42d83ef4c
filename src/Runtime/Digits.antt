-- ===== src/Runtime/Digits.antt =====
-- The decimal text of a port (pkg/runtimedetect/detect.go).
use bug_it.Base.{
  ℕ, zero, suc, pos, ◌+◌, ◌*◌, ◌/◌, ◌%◌, ◌<◌, ◌≡◌, refl, ap, sym, ◌∙◌, [], ◌∷◌, ◌++◌, some, arith,
  append_assoc, append-nil,
}
use bug_it.Text.{Bytes}
use bug_it.Text.Decimal.{format, format_digit, format_step}
use bug_it.Runtime.{itoa_digits, itoa}

abbrev pow : ℕ → ℕ
pow zero = 1
pow (suc n) = 10 * pow n

-- One round of the loop: it has written the last digit, and goes on with the others if there are any.
digit_round :
    (room n q : ℕ) (out : Bytes)
    → suc n / 10 ≡ q
    → ((m : ℕ)
        → q ≡ suc m
        → itoa_digits room (suc m) ((b'0' + suc n % 10) ∷ out)
          ≡ some (format (suc m) ++ (b'0' + suc n % 10) ∷ out))
    → itoa_digits room q ((b'0' + suc n % 10) ∷ out) ≡ some (format (suc n) ++ out)
unfolding itoa_digits
digit_round room n zero out e rest =
    let same : suc n % 10 ≡ suc n = omega arith in
    ap (λ d. some ((b'0' + d) ∷ out)) same
    ∙ sym (ap (λ t. some (t ++ out)) (format_digit (suc n) (omega arith)))
digit_round room n (suc m) out e rest =
    let d = b'0' + suc n % 10 in
    rest m refl
    ∙ sym (ap (λ q. some (format q ++ d ∷ out)) e)
    ∙ sym (ap some (append_assoc (format (suc n / 10)) (d ∷ []) out))
    ∙ sym (ap (λ t. some (t ++ out)) (format_step (suc n) (omega arith)))

itoa_digits-format :
    (room n : ℕ) (out : Bytes)
    → suc n < pow room
    → itoa_digits room (suc n) out ≡ some (format (suc n) ++ out)
itoa_digits-format zero n out h = absurd (omega arith)
itoa_digits-format (suc room) n out h =
    let first : itoa_digits (suc room) (suc n) out
        ≡ itoa_digits room (suc n / 10) ((b'0' + suc n % 10) ∷ out) =
      unfold itoa_digits in refl in
    first
    ∙ digit_round room n (suc n / 10) out refl
        (λ m e. itoa_digits-format room m ((b'0' + suc n % 10) ∷ out) (omega arith))

-- On the numbers below 10^16 the loop stays within its buffer of 16 bytes, and `itoa` gives the decimal text that
-- `strconv.Itoa` gives.
pub itoa-format : (n : ℕ) → n < 10_000_000_000_000_000 → itoa (pos n) ≡ some (format n)
unfolding itoa
itoa-format zero h = sym (ap some (format_digit 0 (omega arith)))
itoa-format (suc n) h = itoa_digits-format 16 n [] h ∙ ap some (append-nil (format (suc n)))
