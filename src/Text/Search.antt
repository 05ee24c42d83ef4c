-- ===== src/Text/Search.antt =====
-- `bytes.Index`, `bytes.Contains`, `strings.Cut`, `strings.Split` and `strings.LastIndex`.
use bug_it.Base.{
  ℕ, suc, ◌+◌, ◌-◌, ◌≤◌, ◌≡◌, refl, Bool, true, false, [], ◌∷◌, ◌++◌, Option, none, some, arith,
  leb, ◌&&◌, ◌==◌, if◌then◌else◌, length, length-append, drop-append, take-append, take, drop,
  Option-cases, Bool-cases, All, ◌≢◌, ◌∙◌, inl, inr,
}
use bug_it.Text.{Bytes, has_prefix, crlf, bytes_eq, bytes_eq_refl}

-- `bytes.Index(s, sub)`: the first place where `sub` stands.
unfoldable pub index : Bytes → Bytes → Option ℕ
unfolding has_prefix
index [] sub = if has_prefix [] sub then some 0 else none
index (c ∷ s) sub =
    if has_prefix (c ∷ s) sub
    then some 0
    else elim (index s sub) [ none ↦ none | some i ↦ some (suc i) ]

-- `bytes.Contains(s, sub)`.
unfoldable pub contains : Bytes → Bytes → Bool
unfolding index
contains s sub = elim (index s sub) [ none ↦ false | some i ↦ true ]

-- `strings.LastIndex(s, string(c))` for a single byte.
unfoldable pub last_index_byte : Bytes → ℕ → Option ℕ
last_index_byte [] d = none
last_index_byte (c ∷ s) d = elim (last_index_byte s d) [
  | some i ↦ some (suc i)
  | none ↦ if c == d then some 0 else none
]

-- `bytes.IndexByte(s, c)`.
unfoldable pub index_byte : Bytes → ℕ → Option ℕ
index_byte [] d = none
index_byte (c ∷ s) d =
    if c == d then some 0 else elim (index_byte s d) [ none ↦ none | some i ↦ some (suc i) ]

-- `strings.Split(s, string(d))[0]` for a single byte.
unfoldable pub before_byte : Bytes → ℕ → Bytes
before_byte [] d = []
before_byte (c ∷ s) d = if c == d then [] else c ∷ before_byte s d

-- The text before the first `sub`, and the text behind it if there is one.
unfoldable pub cut : Bytes → Bytes → Bytes × Option Bytes
unfolding index
cut s sub = elim (index s sub) [
  | none ↦ (s, none)
  | some i ↦ (take i s, some (drop (i + length sub) s))
]

pub has_prefix-append : (p rest : Bytes) → has_prefix (p ++ rest) p ≡ true
unfolding has_prefix
has_prefix-append [] rest = refl
has_prefix-append (c ∷ p) rest = ground (arith, has_prefix-append p rest)

pub has_prefix-split : (s p : Bytes) → has_prefix s p ≡ true → s ≡ p ++ drop (length p) s
unfolding has_prefix
has_prefix-split s [] h = refl
has_prefix-split [] (d ∷ p) h = cc
has_prefix-split (c ∷ s) (d ∷ p) h = ground (arith, has_prefix-split s p)

pub length-prefix : (s p : Bytes) → has_prefix s p ≡ true → length p ≤ length s
unfolding has_prefix
length-prefix s [] h = omega arith
length-prefix [] (d ∷ p) h = cc
length-prefix (c ∷ s) (d ∷ p) h = ground (arith, length-prefix s p)

drop_past : (c : ℕ) (s : Bytes) (j n : ℕ) → drop (suc j + n) (c ∷ s) ≡ drop (j + n) s
drop_past c s j n = let e : suc j + n ≡ suc (j + n) = omega arith in rw e

-- At the index that is found stands `sub`.
pub index-split :
    (s sub : Bytes) {i : ℕ}
    → index s sub ≡ some i
    → (s ≡ take i s ++ sub ++ drop (i + length sub) s) × (i + length sub ≤ length s)
unfolding index
index-split [] [] {i} h = ground arith
index-split [] (d ∷ p) {i} h = ground arith
index-split (c ∷ s) sub {i} h = elim (Bool-cases (has_prefix (c ∷ s) sub)) [
  | inl here ↦ ground (arith, has_prefix-split (c ∷ s) sub here, length-prefix (c ∷ s) sub here)
  | inr later ↦ elim (Option-cases (index s sub)) [
    | inl e ↦ ground arith
    | inr (j, e) ↦ ground (arith, index-split s sub {i = j} e, drop_past c s j (length sub))
  ]
]

-- No byte of the text is `b`.
abbrev pub Lacks : ℕ → Bytes → Type 0
Lacks b = All (λ c. c ≢ b)

-- A pattern without `b` does not reach across a `b` of the text.
has_prefix_barrier :
    (b : ℕ) (s t p : Bytes) → Lacks b p → has_prefix (s ++ b ∷ t) p ≡ has_prefix s p
unfolding has_prefix
has_prefix_barrier b [] t [] l = refl
has_prefix_barrier b [] t (d ∷ p) l = ground arith
has_prefix_barrier b (c ∷ s) t [] l = refl
has_prefix_barrier b (c ∷ s) t (d ∷ p) l = ground (arith, has_prefix_barrier b s t p l.1)

-- Where the pattern does not stand before the `b`, the search goes on behind it.
pub index_barrier :
    (b : ℕ) (s t p : Bytes) {i : ℕ}
    → Lacks b p
    → p ≢ []
    → index s p ≡ none
    → index t p ≡ some i
    → index (s ++ b ∷ t) p ≡ some (length s + suc i)
unfolding index
index_barrier b [] t [] {i} l ne h k = absurd (ne refl)
index_barrier b [] t (d ∷ p) {i} l ne h k =
    let e : has_prefix (b ∷ t) (d ∷ p) ≡ false =
      has_prefix_barrier b [] t (d ∷ p) l ∙ (unfold has_prefix in refl) in
    ground arith
index_barrier b (c ∷ s) t p {i} l ne h k =
    ground (arith, has_prefix_barrier b (c ∷ s) t p l, index_barrier b s t p {i = i} l ne)

pub index_here : (p rest : Bytes) → index (p ++ rest) p ≡ some 0
index_here [] [] = unfold index in refl
index_here [] (c ∷ rest) = unfold index in refl
index_here (c ∷ p) rest = unfold index in rw (has_prefix-append (c ∷ p) rest)

-- The first line ends where its text ends.
pub index_line : (s t : Bytes) → Lacks 13 s → index (s ++ crlf ++ t) crlf ≡ some (length s)
unfolding index
index_line [] t l = index_here crlf t
index_line (c ∷ s) t l = ground (arith, index_line s t l.1)

pub last_index_byte-none : (d : ℕ) (s : Bytes) → Lacks d s → last_index_byte s d ≡ none
unfolding last_index_byte
last_index_byte-none d [] l = refl
last_index_byte-none d (c ∷ s) l = ground (arith, last_index_byte-none d s l.1)

-- The last `d` is the one behind which no other follows.
pub last_index_byte-append :
    (d : ℕ) (s t : Bytes) → Lacks d t → last_index_byte (s ++ d ∷ t) d ≡ some (length s)
unfolding last_index_byte
last_index_byte-append d [] t l = ground (arith, last_index_byte-none d t l)
last_index_byte-append d (c ∷ s) t l = ground (arith, last_index_byte-append d s t l)

-- `strings.HasSuffix(s, p)` and `strings.TrimSuffix(s, p)`.
unfoldable pub has_suffix : Bytes → Bytes → Bool
has_suffix s p = leb (length p) (length s) && bytes_eq (drop (length s - length p) s) p

unfoldable pub trim_suffix : Bytes → Bytes → Bytes
trim_suffix s p = if has_suffix s p then take (length s - length p) s else s

pub has_suffix-append : (s p : Bytes) → has_suffix (s ++ p) p ≡ true
unfolding has_suffix
has_suffix-append s p =
    let l = length-append s p in
    let e : length (s ++ p) - length p ≡ length s = omega arith in
    let d : drop (length (s ++ p) - length p) (s ++ p) ≡ p = rw e (drop-append s p) in
    rw d (rw (bytes_eq_refl p) (ground arith))

pub trim_suffix-append : (s p : Bytes) → trim_suffix (s ++ p) p ≡ s
unfolding trim_suffix
trim_suffix-append s p =
    let l = length-append s p in
    let e : length (s ++ p) - length p ≡ length s = omega arith in
    rw (has_suffix-append s p) (rw e (take-append s p))

-- A text contains what stands in its middle.
pub contains-front : (sub rest : Bytes) → contains (sub ++ rest) sub ≡ true
unfolding contains
contains-front sub rest = ground (arith, index_here sub rest)

contains_index : (s sub : Bytes) {i : ℕ} → index s sub ≡ some i → contains s sub ≡ true
unfolding contains
contains_index s sub {i} e = ground arith

contains-none : (s sub : Bytes) → index s sub ≡ none → contains s sub ≡ false
unfolding contains
contains-none s sub e = ground arith

index-behind :
    (c : ℕ) (s sub : Bytes) {i : ℕ} → index s sub ≡ some i → (j : ℕ) × (index (c ∷ s) sub ≡ some j)
unfolding index
index-behind c s sub {i} e = elim (Bool-cases (has_prefix (c ∷ s) sub)) [
  | inl k ↦ (0, ground arith)
  | inr k ↦ (suc i, ground arith)
]

contains-behind : (c : ℕ) (s sub : Bytes) → contains s sub ≡ true → contains (c ∷ s) sub ≡ true
contains-behind c s sub h = elim (Option-cases (index s sub)) [
  | inl k ↦ absurd (let e = contains-none s sub k in ground arith)
  | inr (i, k) ↦ let (j, e) = index-behind c s sub {i = i} k in contains_index (c ∷ s) sub {i = j} e
]

pub contains-append : (s t sub : Bytes) → contains t sub ≡ true → contains (s ++ t) sub ≡ true
contains-append [] t sub h = h
contains-append (c ∷ s) t sub h = contains-behind c (s ++ t) sub (contains-append s t sub h)

-- The first `d` is the one before which no other stands.
pub index_byte-append :
    (d : ℕ) (s t : Bytes) → Lacks d s → index_byte (s ++ d ∷ t) d ≡ some (length s)
unfolding index_byte
index_byte-append d [] t l = ground arith
index_byte-append d (c ∷ s) t l = ground (arith, index_byte-append d s t l.1)
