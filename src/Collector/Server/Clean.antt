-- ===== src/Collector/Server/Clean.antt =====
-- `http.ServeMux`: the path that a request is redirected to where its own is not clean, which Go's `cleanPath` finds,
-- with `path.Clean` for a path that starts with a slash.
use bug_it.Base.{ℕ, Bool, ◌||◌, List, [], ◌∷◌, ◌++◌, ◌==◌, if◌then◌else◌}
use bug_it.Text.{Bytes, codes, bytes_eq}
use bug_it.Text.Search.{has_suffix}
use bug_it.Collector.Snapshot.{is_empty}

abbrev lead : ℕ → List Bytes → List Bytes
lead c [] = (c ∷ []) ∷ []
lead c (t ∷ ts) = (c ∷ t) ∷ ts

-- The parts between the slashes.
unfoldable pub path_parts : Bytes → List Bytes
path_parts [] = [] ∷ []
path_parts (c ∷ s) = let parts = path_parts s in if c == b'/' then [] ∷ parts else lead c parts

abbrev without_last : List Bytes → List Bytes
without_last [] = []
without_last (t ∷ ts) = ts

-- An empty part and `.` count for nothing, and `..` takes the part before it away; the last part stands first.
unfoldable pub next_parts : List Bytes → Bytes → List Bytes
next_parts kept part =
    if is_empty part || bytes_eq part (codes ".")
    then kept
    else if bytes_eq part (codes "..")
    then without_last kept
    else part ∷ kept

unfoldable pub kept_parts : List Bytes → List Bytes → List Bytes
kept_parts kept [] = kept
kept_parts kept (part ∷ parts) = kept_parts (next_parts kept part) parts

unfoldable pub joined_parts : List Bytes → Bytes
joined_parts [] = []
joined_parts (part ∷ kept) = joined_parts kept ++ b'/' ∷ part

-- A slash at the end is kept.
abbrev with_end : Bool → Bytes → Bytes
with_end slash [] = b'/' ∷ []
with_end slash (c ∷ s) = if slash then (c ∷ s) ++ b'/' ∷ [] else c ∷ s

-- `cleanPath`
unfoldable pub clean_path : Bytes → Bytes
clean_path path =
    with_end (has_suffix path (codes "/")) (joined_parts (kept_parts [] (path_parts path)))
