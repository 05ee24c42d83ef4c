-- ===== src/Collector/Redact.antt =====
-- dre-collector/internal/redact/redact.go: credentials in a payload are overwritten with stars. The three
-- regular expressions are matched directly; a byte above 127 is no white space, as in the source.
pub mod Mask
pub mod Scrub
use bug_it.Base.{
  ℕ, zero, suc, ◌+◌, ◌-◌, Bool, true, false, not, ◌&&◌, ◌||◌, List, [], ◌∷◌, ◌++◌, Option, none,
  some, ltb, ◌==◌, if◌then◌else◌, ◌>>=◌, length, take, drop,
}
use bug_it.Text.{Bytes, codes, has_prefix}

-- The three rules, in their order.
pub data Rule : Type 0 where
  bearer basic cookie : Rule

abbrev pub rules : List Rule
rules = bearer ∷ basic ∷ cookie ∷ []

-- `manifest.RedactionEntry`
pub record RedactionEntry : Type 0 where
  pub offset : ℕ
  pub size : ℕ
  pub rule : Rule

-- `\s`
abbrev pub is_blank : ℕ → Bool
is_blank c = c == 9 || c == 10 || c == 12 || c == 13 || c == 32

-- `\r` or `\n`
abbrev pub is_line_end : ℕ → Bool
is_line_end c = c == 13 || c == 10

-- The length of the longest run of bytes without `stop`, at the start.
unfoldable pub run_until : (ℕ → Bool) → Bytes → ℕ
run_until stop [] = 0
run_until stop (c ∷ s) = if stop c then 0 else suc (run_until stop s)

-- `\s+[^\s]+`
unfoldable pub match_token : Bytes → Option ℕ
match_token s =
    let blanks = run_until (λ c. not (is_blank c)) s in
    let token = run_until is_blank (drop blanks s) in
    if blanks == 0 || token == 0 then none else some (blanks + token)

-- The place behind the last byte that is no line end.
unfoldable pub last_text : Bytes → ℕ
last_text [] = 0
last_text (c ∷ s) =
    let n = last_text s in if n == 0 then (if is_line_end c then 0 else 1) else suc n

-- `\s*[^\r\n]+`: where only white space is left, the match gives line ends back.
unfoldable pub match_line : Bytes → Option ℕ
match_line s =
    let blanks = run_until (λ c. not (is_blank c)) s in
    let text = run_until is_line_end (drop blanks s) in
    let n = if text == 0 then last_text (take blanks s) else blanks + text in
    if n == 0 then none else some n

-- A literal at the start, and what follows it.
unfoldable pub match_behind : Bytes → (Bytes → Option ℕ) → Bytes → Option ℕ
match_behind word more s =
    if has_prefix s word
    then (more (drop (length word) s) >>= λ n. some (length word + n))
    else none

-- The length of a rule's match at the start of a text.
unfoldable pub match_at : Rule → Bytes → Option ℕ
match_at bearer s = match_behind (codes "Bearer") match_token s
match_at basic s = match_behind (codes "Basic") match_token s
match_at cookie s = match_behind (codes "Cookie:") match_line s

-- `FindAllIndex`: the leftmost matches, none inside another; `skip` bytes belong to the last match.
unfoldable pub find_all : Rule → ℕ → ℕ → Bytes → List (ℕ × ℕ)
find_all rule at skip [] = []
find_all rule at (suc skip) (c ∷ s) = find_all rule (suc at) skip s
find_all rule at zero (c ∷ s) = elim (match_at rule (c ∷ s)) [
  | none ↦ find_all rule (suc at) 0 s
  | some n ↦ (at, at + n) ∷ find_all rule (suc at) (n - 1) s
]

-- `for i := from; i < to; i++ { out[i] = '*' }`; `none` is a panic.
unfoldable pub mask : Bytes → ℕ → ℕ → Option Bytes
mask [] from to = if ltb from to then none else some []
mask (c ∷ s) zero zero = some (c ∷ s)
mask (c ∷ s) zero (suc to) = do masked ← mask s zero to; some (b'*' ∷ masked)
mask (c ∷ s) (suc from) zero = some (c ∷ s)
mask (c ∷ s) (suc from) (suc to) = do masked ← mask s from to; some (c ∷ masked)

-- The loop over the matches of one rule.
unfoldable pub mask_all : Rule → List (ℕ × ℕ) → Bytes → Option (Bytes × List RedactionEntry)
mask_all rule [] out = some (out, [])
mask_all rule ((from, to) ∷ locs) out = do
  masked ← mask out from to
  (out', log) ← mask_all rule locs masked
  some (out', record { offset = from; size = to - from; rule = rule } ∷ log)

-- The loop over the rules.
unfoldable pub scrub_by : List Rule → Bytes → Option (Bytes × List RedactionEntry)
scrub_by [] out = some (out, [])
scrub_by (rule ∷ rest) out = do
  (masked, log) ← mask_all rule (find_all rule 0 0 out) out
  (out', more) ← scrub_by rest masked
  some (out', log ++ more)

-- `Scrub`
unfoldable pub scrub : Bytes → Option (Bytes × List RedactionEntry)
scrub payload = scrub_by rules payload
