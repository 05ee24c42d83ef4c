-- ===== src/Text/Decimal.antt =====
-- `%d` on an unsigned number, and the digits read back.
use bug_it.Base.{
  ℕ, zero, suc, ◌+◌, ◌-◌, ◌*◌, ◌/◌, ◌%◌, ◌≤◌, ◌<◌, ◌≡◌, refl, [], ◌∷◌, arith, ltb, if◌then◌else◌,
  All, Bool-cases, ltb→lt, inl, inr, ◌∙◌, ap, sym, ◌++◌, append_assoc,
}
use bug_it.Text.{Bytes}

-- Digits of `n`, least significant first, in front of `out`; `fuel` bounds their number.
write_digits : ℕ → ℕ → Bytes → Bytes
write_digits zero n out = out
write_digits (suc fuel) n out =
    let rest = write_digits fuel (n / 10) ((b'0' + n % 10) ∷ out) in
    if ltb n 10 then (b'0' + n) ∷ out else rest

-- A number has no more digits than `n + 1`.
unfoldable pub format : ℕ → Bytes
unfolding write_digits
format n = write_digits (suc n) n []

-- The digits of `s` read behind `n`.
unfoldable pub value : ℕ → Bytes → ℕ
value n [] = n
value n (c ∷ s) = value (n * 10 + (c - b'0')) s

abbrev pub IsDigit : ℕ → Type 0
IsDigit c = (b'0' ≤ c) × (c ≤ b'9')

write_digits-All :
    (fuel n : ℕ) (out : Bytes) → All IsDigit out → All IsDigit (write_digits fuel n out)
unfolding write_digits
write_digits-All zero n out h = h
write_digits-All (suc fuel) n out h = elim (Bool-cases (ltb n 10)) [
  | inl e ↦ rw e (let k = ltb→lt n 10 e in (omega arith, h))
  | inr e ↦ rw e (write_digits-All fuel (n / 10) _ (omega arith, h))
]

-- Only digits are printed.
pub format-All : (n : ℕ) → All IsDigit (format n)
unfolding format write_digits
format-All n = write_digits-All (suc n) n [] tt

value-write_digits :
    (fuel n : ℕ) (out : Bytes) → n < fuel → value 0 (write_digits fuel n out) ≡ value n out
unfolding write_digits value
value-write_digits zero n out h = absurd (omega arith)
value-write_digits (suc fuel) n out h = elim (Bool-cases (ltb n 10)) [
  | inl e ↦ rw e (let same : 0 + (b'0' + n - b'0') ≡ n = omega arith in ap (λ m. value m out) same)
  | inr e ↦ rw e (
      value-write_digits fuel (n / 10) _ (ground arith)
      ∙ (let same : n / 10 * 10 + (b'0' + n % 10 - b'0') ≡ n = omega arith in
          ap (λ m. value m out) same))
]

-- Reading the printed digits gives the number back.
pub value-format : (n : ℕ) → value 0 (format n) ≡ n
unfolding format write_digits
value-format n = value-write_digits (suc n) n [] (omega arith) ∙ (unfold value in refl)

pub le-value : (s : Bytes) (n : ℕ) → n ≤ value n s
unfolding value
le-value [] n = omega arith
le-value (c ∷ s) n = omega (arith, le-value s (n * 10 + (c - b'0')))

write_digits-append :
    (f g n : ℕ) (out : Bytes) → n < f → n < g → write_digits f n out ≡ write_digits g n [] ++ out
unfolding write_digits
write_digits-append zero g n out h k = absurd (omega arith)
write_digits-append (suc f) zero n out h k = absurd (omega arith)
write_digits-append (suc f) (suc g) n out h k = elim (Bool-cases (ltb n 10)) [
  | inl e ↦ rw e refl
  | inr e ↦
      let low : n / 10 < f = ground arith in
      let low' : n / 10 < g = ground arith in
      rw e (
        write_digits-append f g (n / 10) ((b'0' + n % 10) ∷ out) low low'
        ∙ sym (append_assoc (write_digits g (n / 10) []) ((b'0' + n % 10) ∷ []) out)
        ∙ sym (
            ap (λ t. t ++ out) (write_digits-append g g (n / 10) ((b'0' + n % 10) ∷ []) low' low')))
]

pub format_digit : (n : ℕ) → n < 10 → format n ≡ (b'0' + n) ∷ []
unfolding format write_digits
format_digit n h = elim (Bool-cases (ltb n 10)) [
  | inl e ↦ rw e refl
  | inr e ↦ absurd (ground arith)
]

-- The last digit stands behind the others.
pub format_step : (n : ℕ) → 10 ≤ n → format n ≡ format (n / 10) ++ (b'0' + n % 10) ∷ []
unfolding format write_digits
format_step n h =
    top n h ∙ write_digits-append n (suc (n / 10)) (n / 10) _ (omega arith) (omega arith)
  where
    top :
        (n : ℕ)
        → 10 ≤ n
        → write_digits (suc n) n [] ≡ write_digits n (n / 10) ((b'0' + n % 10) ∷ [])
    top n h = elim (Bool-cases (ltb n 10)) [ inl e ↦ absurd (ground arith) | inr e ↦ rw e refl ]
