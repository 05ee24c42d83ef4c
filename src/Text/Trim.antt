-- ===== src/Text/Trim.antt =====
-- `strings.TrimSpace`, `strings.TrimRight(s, "\x00")` and `strings.Fields`.
use bug_it.Base.{
  ℕ, ◌≡◌, refl, ap, false, inl, inr, Bool-cases, List, [], ◌∷◌, ◌++◌, ◌==◌, if◌then◌else◌,
}
use bug_it.Text.{Bytes, is_space}

unfoldable pub trim_left : Bytes → Bytes
trim_left [] = []
trim_left (c ∷ s) = if is_space c then trim_left s else c ∷ s

-- Drops the longest run of white space at the end.
unfoldable pub trim_right : Bytes → Bytes
trim_right [] = []
trim_right (c ∷ s) = elim (trim_right s) [
  | [] ↦ if is_space c then [] else c ∷ []
  | d ∷ t ↦ c ∷ d ∷ t
]

unfoldable pub trim_space : Bytes → Bytes
unfolding trim_left trim_right
trim_space s = trim_right (trim_left s)

-- `strings.TrimRight(s, "\x00")`.
unfoldable pub trim_nul : Bytes → Bytes
trim_nul [] = []
trim_nul (c ∷ s) = elim (trim_nul s) [ [] ↦ if c == 0 then [] else c ∷ [] | d ∷ t ↦ c ∷ d ∷ t ]

-- One field is gathered in `cur`; white space closes it.
abbrev close : Bytes → List Bytes → List Bytes
close [] rest = rest
close (c ∷ cur) rest = (c ∷ cur) ∷ rest

fields_from : Bytes → Bytes → List Bytes
fields_from cur [] = close cur []
fields_from cur (c ∷ s) =
    let closed = close cur (fields_from [] s) in
    let longer = fields_from (cur ++ c ∷ []) s in if is_space c then closed else longer

unfoldable pub fields : Bytes → List Bytes
unfolding fields_from
fields = fields_from []

-- A byte in front of a trimmed text.
abbrev in_front : ℕ → Bytes → Bytes
in_front c t = elim t [ [] ↦ if is_space c then [] else c ∷ [] | d ∷ r ↦ c ∷ d ∷ r ]

-- Nothing is trimmed behind a byte that is not white space.
pub trim_right_kept :
    (s : Bytes) (d : ℕ) → is_space d ≡ false → trim_right (s ++ d ∷ []) ≡ s ++ d ∷ []
unfolding trim_right
trim_right_kept [] d h = rw h refl
trim_right_kept (e ∷ []) d h = ap (in_front e) (trim_right_kept [] d h)
trim_right_kept (e ∷ f ∷ s) d h = ap (in_front e) (trim_right_kept (f ∷ s) d h)

trim_right_space : (s : Bytes) → trim_right (s ++ b' ' ∷ []) ≡ trim_right s
unfolding trim_right
trim_right_space [] = refl
trim_right_space (c ∷ s) = ap (in_front c) (trim_right_space s)

-- A space at the end is trimmed.
pub trim_space_behind : (s : Bytes) → trim_space (s ++ b' ' ∷ []) ≡ trim_space s
unfolding trim_space trim_left
trim_space_behind [] = unfold trim_right in refl
trim_space_behind (c ∷ s) = elim (Bool-cases (is_space c)) [
  | inl e ↦ rw e (trim_space_behind s)
  | inr e ↦ rw e (trim_right_space (c ∷ s))
]
