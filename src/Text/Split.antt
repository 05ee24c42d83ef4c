-- ===== src/Text/Split.antt =====
-- `strings.Split` by one byte, `strings.Join`, `strings.Trim` of a set of bytes, and `strconv.Atoi`.
use bug_it.Base.{
  ℕ, ℤ, pos, negsuc, ◌+◌, ◌-◌, ◌*◌, ◌^◌, Bool, true, false, ◌&&◌, ◌||◌, List, [], ◌∷◌, ◌++◌, Option,
  none, some, ltb, leb, ◌==◌, if◌then◌else◌, ◌≡◌, arith,
}
use bug_it.Text.{Bytes}
use bug_it.Text.Search.{Lacks}

-- Puts a byte at the front of the first part.
abbrev onto_first : ℕ → List Bytes → List Bytes
onto_first c [] = (c ∷ []) ∷ []
onto_first c (part ∷ parts) = (c ∷ part) ∷ parts

unfoldable pub split_byte : ℕ → Bytes → List Bytes
split_byte d [] = [] ∷ []
split_byte d (c ∷ s) = let rest = split_byte d s in if c == d then [] ∷ rest else onto_first c rest

-- `strings.Join(parts, string(d))`
unfoldable pub join_byte : ℕ → List Bytes → Bytes
join_byte d [] = []
join_byte d (part ∷ []) = part
join_byte d (part ∷ next ∷ parts) = part ++ d ∷ join_byte d (next ∷ parts)

abbrev is_quote : ℕ → Bool
is_quote c = c == b'"' || c == 39

unfoldable pub trim_quotes_left : Bytes → Bytes
trim_quotes_left [] = []
trim_quotes_left (c ∷ s) = if is_quote c then trim_quotes_left s else c ∷ s

unfoldable pub trim_quotes_right : Bytes → Bytes
trim_quotes_right [] = []
trim_quotes_right (c ∷ s) = elim (trim_quotes_right s) [
  | [] ↦ if is_quote c then [] else c ∷ []
  | d ∷ t ↦ c ∷ d ∷ t
]

-- `strings.Trim(s, "\"'")`
unfoldable pub trim_quotes : Bytes → Bytes
trim_quotes s = trim_quotes_right (trim_quotes_left s)

-- The digits of the whole text, read behind `n`.
unfoldable pub all_digits : ℕ → Bytes → Option ℕ
all_digits n [] = some n
all_digits n (c ∷ s) =
    let rest = all_digits (n * 10 + (c - b'0')) s in if leb b'0' c && leb c b'9' then rest else none

abbrev in_int : Bool → ℕ → Option ℤ
in_int true n =
    if leb n (2 ^ 63) then (if n == 0 then some (pos 0) else some (negsuc (n - 1))) else none
in_int false n = if ltb n (2 ^ 63) then some (pos n) else none

abbrev digits_int : Bool → Bytes → Option ℤ
digits_int minus [] = none
digits_int minus (c ∷ s) = elim (all_digits 0 (c ∷ s)) [ none ↦ none | some n ↦ in_int minus n ]

-- `strconv.Atoi(s)`; `none` is its error.
unfoldable pub atoi : Bytes → Option ℤ
atoi [] = none
atoi (c ∷ s) =
    if c == b'-'
    then digits_int true s
    else if c == b'+'
    then digits_int false s
    else digits_int false (c ∷ s)

-- The first part ends at the first separator.
pub split_byte-append :
    (d : ℕ) (s t : Bytes) → Lacks d s → split_byte d (s ++ d ∷ t) ≡ s ∷ split_byte d t
unfolding split_byte
split_byte-append d [] t l = ground arith
split_byte-append d (c ∷ s) t l = ground (arith, split_byte-append d s t l.1)
