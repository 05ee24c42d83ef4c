-- ===== src/Collector/Redact/Mask.antt =====
-- What masking keeps (redact.go).
use bug_it.Base.{
  ℕ, zero, suc, ◌≤◌, ◌<◌, ◌≡◌, refl, ap, ◌∙◌, ◌⊎◌, inl, inr, Bool, not, [], ◌∷◌, Option, some,
  length, arith, take, drop, get_elem?, Bool-cases, Option-cases, length-drop, length-take,
}
use bug_it.Text.{Bytes, codes, has_prefix}
use bug_it.Text.Search.{length-prefix}
use bug_it.Collector.Redact.{
  Rule, bearer, basic, cookie, is_blank, run_until, match_token, last_text, match_line, is_line_end,
  match_behind, match_at, mask,
}

-- The text differs from `payload` in stars only, and is as long.
pub record IsMasked (payload out : Bytes) : Type 0 where
  pub same_length : length out ≡ length payload
  pub only_stars : (i : ℕ) → (get_elem? out i ≡ get_elem? payload i) ⊎ (get_elem? out i ≡ some b'*')

IsMasked-cons :
    (c d : ℕ) (s t : Bytes) → (d ≡ c) ⊎ (d ≡ b'*') → IsMasked s t → IsMasked (c ∷ s) (d ∷ t)
IsMasked-cons c d s t e h = record { same_length = ap suc h.same_length; only_stars = at }
  where
    at : (i : ℕ) → (get_elem? (d ∷ t) i ≡ get_elem? (c ∷ s) i) ⊎ (get_elem? (d ∷ t) i ≡ some b'*')
    at zero = ground arith
    at (suc i) = h.only_stars i

pub IsMasked-refl : (s : Bytes) → IsMasked s s
IsMasked-refl s = record { same_length = refl; only_stars = λ i. inl refl }

pub IsMasked-trans : (s t u : Bytes) → IsMasked s t → IsMasked t u → IsMasked s u
IsMasked-trans s t u h k = record {
  same_length = k.same_length ∙ h.same_length;
  only_stars = λ i. elim (k.only_stars i) [
    | inr star ↦ inr star
    | inl e ↦ elim (h.only_stars i) [ inl e' ↦ inl (e ∙ e') | inr star ↦ inr (e ∙ star) ]
  ];
}

mask_star :
    (c : ℕ) (s : Bytes) (to : ℕ) {out : Bytes}
    → mask s zero to ≡ some out
    → mask (c ∷ s) zero (suc to) ≡ some (b'*' ∷ out)
unfolding mask
mask_star c s to e = rw e

mask_keep :
    (c : ℕ) (s : Bytes) (from to : ℕ) {out : Bytes}
    → mask s from to ≡ some out
    → mask (c ∷ s) (suc from) (suc to) ≡ some (c ∷ out)
unfolding mask
mask_keep c s from to e = rw e

-- All bytes from `from` to `to` are stars.
abbrev pub IsStarred : Bytes → ℕ → ℕ → Type 0
IsStarred out from to = (i : ℕ) → from ≤ i → i < to → get_elem? out i ≡ some b'*'

stars_zero : (out : Bytes) (to : ℕ) → IsStarred out 0 to → IsStarred (b'*' ∷ out) 0 (suc to)
stars_zero out to h zero le lt = refl
stars_zero out to h (suc i) le lt = h i (omega arith) (omega arith)

stars_suc :
    (c : ℕ) (out : Bytes) (from to : ℕ)
    → IsStarred out from to
    → IsStarred (c ∷ out) (suc from) (suc to)
stars_suc c out from to h zero le lt = absurd (omega arith)
stars_suc c out from to h (suc i) le lt = h i (omega arith) (omega arith)

-- A range inside the text is masked.
pub mask_within :
    (s : Bytes) (from to : ℕ)
    → to ≤ length s
    → (out : Bytes) × (mask s from to ≡ some out) × IsMasked s out × IsStarred out from to
mask_within [] from zero h =
    ([], (unfold mask in ground arith), IsMasked-refl [], λ i le lt. absurd (omega arith))
mask_within [] from (suc to) h = absurd (omega arith)
mask_within (c ∷ s) zero zero h =
    (c ∷ s, (unfold mask in refl), IsMasked-refl (c ∷ s), λ i le lt. absurd (omega arith))
mask_within (c ∷ s) (suc from) zero h =
    (c ∷ s, (unfold mask in refl), IsMasked-refl (c ∷ s), λ i le lt. absurd (omega arith))
mask_within (c ∷ s) zero (suc to) h =
    let (out, e, masked, stars) = mask_within s zero to (omega arith) in
    (
      b'*' ∷ out,
      mask_star c s to e,
      IsMasked-cons c b'*' s out (inr refl) masked,
      stars_zero out to stars,
    )
mask_within (c ∷ s) (suc from) (suc to) h =
    let (out, e, masked, stars) = mask_within s from to (omega arith) in
    (
      c ∷ out,
      mask_keep c s from to e,
      IsMasked-cons c c s out (inl refl) masked,
      stars_suc c out from to stars,
    )

-- What is a star stays one.
pub masked-IsStarred :
    (s out : Bytes) (from to : ℕ) → IsMasked s out → IsStarred s from to → IsStarred out from to
masked-IsStarred s out from to h stars i le lt = elim (h.only_stars i) [
  | inl e ↦ e ∙ stars i le lt
  | inr star ↦ star
]

run_until-le : (stop : ℕ → Bool) (s : Bytes) → run_until stop s ≤ length s
unfolding run_until
run_until-le stop [] = omega arith
run_until-le stop (c ∷ s) = ground (arith, run_until-le stop s)

last_text-le : (s : Bytes) → last_text s ≤ length s
unfolding last_text
last_text-le [] = omega arith
last_text-le (c ∷ s) = ground (arith, last_text-le s)

match_token-le : (s : Bytes) {n : ℕ} → match_token s ≡ some n → n ≤ length s
unfolding match_token
match_token-le s {n} h =
    let blanks = run_until (λ c. not (is_blank c)) s in
    let b = run_until-le (λ c. not (is_blank c)) s in
    let t = run_until-le is_blank (drop blanks s) in let l = length-drop blanks s in ground arith

match_line-le : (s : Bytes) {n : ℕ} → match_line s ≡ some n → n ≤ length s
unfolding match_line
match_line-le s {n} h =
    let blanks = run_until (λ c. not (is_blank c)) s in
    let b = run_until-le (λ c. not (is_blank c)) s in
    let t = run_until-le is_line_end (drop blanks s) in
    let l = length-drop blanks s in
    let u = last_text-le (take blanks s) in let k = length-take blanks s in ground arith

match_behind-le :
    (word : Bytes) (more : Bytes → Option ℕ) (s : Bytes) {n : ℕ}
    → ((t : Bytes) (k : ℕ) → more t ≡ some k → k ≤ length t)
    → match_behind word more s ≡ some n
    → n ≤ length s
unfolding match_behind
match_behind-le word more s {n} h e = elim (Bool-cases (has_prefix s word)) [
  | inr other ↦ ground arith
  | inl found ↦ elim (Option-cases (more (drop (length word) s))) [
    | inl e1 ↦ ground arith
    | inr (k, e1) ↦
        let a = h (drop (length word) s) k e1 in
        let l = length-drop (length word) s in let p = length-prefix s word found in ground arith
  ]
]

pub match_at-le : (rule : Rule) (s : Bytes) {n : ℕ} → match_at rule s ≡ some n → n ≤ length s
unfolding match_at
match_at-le bearer s h = match_behind-le (codes "Bearer") match_token s (λ t k. match_token-le t) h
match_at-le basic s h = match_behind-le (codes "Basic") match_token s (λ t k. match_token-le t) h
match_at-le cookie s h = match_behind-le (codes "Cookie:") match_line s (λ t k. match_line-le t) h
