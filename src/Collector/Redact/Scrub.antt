-- ===== src/Collector/Redact/Scrub.antt =====
-- What a redaction log says of the text that is left (redact.go).
use bug_it.Base.{
  ℕ, zero, suc, ◌+◌, ◌-◌, ◌≤◌, ◌≡◌, refl, sym, subst, inl, inr, List, [], ◌∷◌, ◌++◌, Option, none,
  some, length, arith, Option-cases, All,
}
use bug_it.Text.{Bytes}
use bug_it.Collector.Redact.{
  Rule, rules, RedactionEntry, match_at, find_all, mask, mask_all, scrub_by, scrub,
}
use bug_it.Collector.Redact.Mask.{
  IsMasked, IsStarred, IsMasked-refl, IsMasked-trans, mask_within, masked-IsStarred, match_at-le,
}

-- A range of a text of `n` bytes.
abbrev pub IsRange : ℕ → ℕ × ℕ → Type 0
IsRange n loc = (loc.0 ≤ loc.1) × (loc.1 ≤ n)

find_skip :
    (rule : Rule) (n at skip c : ℕ) (s : Bytes)
    → All (IsRange n) (find_all rule (suc at) skip s)
    → All (IsRange n) (find_all rule at (suc skip) (c ∷ s))
unfolding find_all
find_skip rule n at skip c s h = h

find_absent :
    (rule : Rule) (at c : ℕ) (s : Bytes)
    → match_at rule (c ∷ s) ≡ none
    → find_all rule at zero (c ∷ s) ≡ find_all rule (suc at) 0 s
unfolding find_all
find_absent rule at c s e = rw (find_all, e)

find_found :
    (rule : Rule) (at c k : ℕ) (s : Bytes)
    → match_at rule (c ∷ s) ≡ some k
    → find_all rule at zero (c ∷ s) ≡ (at, at + k) ∷ find_all rule (suc at) (k - 1) s
unfolding find_all
find_found rule at c k s e = rw (find_all, e)

find_next :
    (rule : Rule) (at n c : ℕ) (s : Bytes)
    → at + length (c ∷ s) ≡ n
    → ((skip : ℕ) → All (IsRange n) (find_all rule (suc at) skip s))
    → All (IsRange n) (find_all rule at zero (c ∷ s))
find_next rule at n c s e h = elim (Option-cases (match_at rule (c ∷ s))) [
  | inl absent ↦ subst (All (IsRange n)) (sym (find_absent rule at c s absent)) (h 0)
  | inr (k, found) ↦
      let le = match_at-le rule (c ∷ s) found in
      subst (All (IsRange n)) (sym (find_found rule at c k s found))
        ((omega arith, omega arith), h (k - 1))
]

-- The matches are ranges of the text.
find_all-IsRange :
    (rule : Rule) (at skip n : ℕ) (s : Bytes)
    → at + length s ≡ n
    → All (IsRange n) (find_all rule at skip s)
find_all-IsRange rule at skip n [] e = unfold find_all in tt
find_all-IsRange rule at (suc skip) n (c ∷ s) e =
    find_skip rule n at skip c s (find_all-IsRange rule (suc at) skip n s (omega arith))
find_all-IsRange rule at zero n (c ∷ s) e =
    find_next rule at n c s (omega arith) (λ k. find_all-IsRange rule (suc at) k n s (omega arith))

-- An entry of the log lies in the text and names stars.
pub record IsRedacted (out : Bytes) (entry : RedactionEntry) : Type 0 where
  pub within : entry.offset + entry.size ≤ length out
  pub stars : IsStarred out entry.offset (entry.offset + entry.size)

IsRedacted-keep :
    (s out : Bytes) (log : List RedactionEntry)
    → IsMasked s out
    → All (IsRedacted s) log
    → All (IsRedacted out) log
IsRedacted-keep s out [] h a = tt
IsRedacted-keep s out (entry ∷ log) h (r, a) = (
  record {
    within = subst (λ n. entry.offset + entry.size ≤ n) (sym h.same_length) r.within;
    stars = masked-IsStarred s out _ _ h r.stars;
  },
  IsRedacted-keep s out log h a,
)

IsRedacted-append :
    (out : Bytes) (xs ys : List RedactionEntry)
    → All (IsRedacted out) xs
    → All (IsRedacted out) ys
    → All (IsRedacted out) (xs ++ ys)
IsRedacted-append out [] ys a b = b
IsRedacted-append out (x ∷ xs) ys (h, a) b = (h, IsRedacted-append out xs ys a b)

-- What the passes over a text leave.
abbrev pub Redacts : Bytes → Option (Bytes × List RedactionEntry) → Type 0
Redacts s result =
    (out : Bytes) × (log : List RedactionEntry) × (result ≡ some (out, log))
    × IsMasked s out
    × All (IsRedacted out) log

mask_all_cons :
    (rule : Rule) (loc : ℕ × ℕ) (locs : List (ℕ × ℕ)) (s : Bytes) {masked out : Bytes}
    {log : List RedactionEntry}
    → mask s loc.0 loc.1 ≡ some masked
    → mask_all rule locs masked ≡ some (out, log)
    → mask_all rule (loc ∷ locs) s
      ≡ some (out, record { offset = loc.0; size = loc.1 - loc.0; rule = rule } ∷ log)
unfolding mask_all
mask_all_cons rule (from, to) locs s e k = rw e (rw k)

mask_all-Redacts :
    (rule : Rule) (locs : List (ℕ × ℕ)) (s : Bytes)
    → All (IsRange (length s)) locs
    → Redacts s (mask_all rule locs s)
mask_all-Redacts rule [] s h = (s, [], (unfold mask_all in refl), IsMasked-refl s, tt)
mask_all-Redacts rule (loc ∷ locs) s (h, hs) =
    let (masked, e, is_masked, stars) = mask_within s loc.0 loc.1 h.1 in
    let (out, log, k, rest, logged) =
      mask_all-Redacts rule locs masked
        (subst (λ n. All (IsRange n) locs) (sym is_masked.same_length) hs) in
    let size : loc.0 + (loc.1 - loc.0) ≡ loc.1 = (let le = h.0 in omega arith) in
    let whole = IsMasked-trans s masked out is_masked rest in
    let entry : RedactionEntry = record { offset = loc.0; size = loc.1 - loc.0; rule = rule } in
    let redacted : IsRedacted out entry = record {
      within =
          subst (λ n. n ≤ length out) (sym size)
            (subst (λ n. loc.1 ≤ n) (sym whole.same_length) h.1);
      stars =
          subst (IsStarred out loc.0) (sym size)
            (masked-IsStarred masked out loc.0 loc.1 rest stars);
    } in
    (out, entry ∷ log, mask_all_cons rule loc locs s e k, whole, (redacted, logged))

scrub_by_cons :
    (rule : Rule) (rest : List Rule) (s : Bytes) {masked out : Bytes}
    {log more : List RedactionEntry}
    → mask_all rule (find_all rule 0 0 s) s ≡ some (masked, log)
    → scrub_by rest masked ≡ some (out, more)
    → scrub_by (rule ∷ rest) s ≡ some (out, log ++ more)
unfolding scrub_by
scrub_by_cons rule rest s e k = rw e (rw k)

scrub_by-Redacts : (by : List Rule) (s : Bytes) → Redacts s (scrub_by by s)
scrub_by-Redacts [] s = (s, [], (unfold scrub_by in refl), IsMasked-refl s, tt)
scrub_by-Redacts (rule ∷ by) s =
    let (masked, log, e, is_masked, logged) =
      mask_all-Redacts rule (find_all rule 0 0 s) s
        (find_all-IsRange rule 0 0 (length s) s (omega arith)) in
    let (out, more, k, rest, logged') = scrub_by-Redacts by masked in
    (
      out,
      log ++ more,
      scrub_by_cons rule by s e k,
      IsMasked-trans s masked out is_masked rest,
      IsRedacted-append out log more (IsRedacted-keep masked out log rest logged) logged',
    )

-- `Scrub` does not panic on any payload. The result is as long as the payload and differs from it in
-- stars only; each entry of the log lies in the payload and names a run of stars of the result.
pub scrub-Redacts : (payload : Bytes) → Redacts payload (scrub payload)
unfolding scrub
scrub-Redacts payload = scrub_by-Redacts rules payload
