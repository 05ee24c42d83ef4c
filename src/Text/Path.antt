-- ===== src/Text/Path.antt =====
-- Go's `filepath.Base` and `filepath.Join` where the separator is `/`, and `strings.ReplaceAll` of one byte.
use bug_it.Base.{ℕ, Bool, [], ◌∷◌, ◌++◌, ◌==◌, if◌then◌else◌, map, Option, none, some}
use bug_it.Text.{Bytes, bytes_eq, has_prefix}

-- `strings.ReplaceAll(s, string(a), string(b))`
unfoldable pub replace_byte : ℕ → ℕ → Bytes → Bytes
replace_byte a b s = map (λ c. if c == a then b else c) s

-- `strings.ReplaceAll(s, string(a), "")`
unfoldable pub remove_byte : ℕ → Bytes → Bytes
remove_byte a [] = []
remove_byte a (c ∷ s) = let rest = remove_byte a s in if c == a then rest else c ∷ rest

-- The longest run of `d` at the end is dropped: `strings.TrimRight(s, string(d))`.
unfoldable pub trim_right_byte : ℕ → Bytes → Bytes
trim_right_byte d [] = []
trim_right_byte d (c ∷ s) = elim (trim_right_byte d s) [
  | [] ↦ if c == d then [] else c ∷ []
  | e ∷ t ↦ c ∷ e ∷ t
]

-- What follows the last `d`; the whole text where there is none.
unfoldable pub behind_last : ℕ → Bytes → Bytes → Bytes
behind_last d cur [] = cur
behind_last d cur (c ∷ s) =
    let restart = behind_last d s s in
    let go = behind_last d cur s in if c == d then restart else go

abbrev or_slash : Bytes → Bytes
or_slash [] = b'/' ∷ []
or_slash (c ∷ s) = c ∷ s

-- `filepath.Base(path)`
unfoldable pub base : Bytes → Bytes
base [] = b'.' ∷ []
base (c ∷ path) =
    let trimmed = trim_right_byte b'/' (c ∷ path) in or_slash (behind_last b'/' trimmed trimmed)

-- `filepath.Join(dir, name)` and `filepath.Dir(path)` on clean paths.
unfoldable pub join : Bytes → Bytes → Bytes
join [] name = name
join (c ∷ dir) name =
    if bytes_eq (c ∷ dir) (b'/' ∷ []) then b'/' ∷ name else (c ∷ dir) ++ b'/' ∷ name

-- The text in front of the last `/`; `none` where there is no `/`.
unfoldable pub before_last : Bytes → Option Bytes
before_last [] = none
before_last (c ∷ s) = elim (before_last s) [
  | some front ↦ some (c ∷ front)
  | none ↦ if c == b'/' then some [] else none
]

abbrev or_root : Option Bytes → Bytes
or_root none = b'.' ∷ []
or_root (some []) = b'/' ∷ []
or_root (some (c ∷ s)) = c ∷ s

unfoldable pub dir : Bytes → Bytes
dir path = or_root (before_last path)

-- `filepath.IsAbs(path)`
unfoldable pub is_abs : Bytes → Bool
is_abs path = has_prefix path (b'/' ∷ [])
