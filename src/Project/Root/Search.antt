-- ===== src/Project/Root/Search.antt =====
-- The walk up ends, and the folder that is found (pkg/project/project.go).
use bug_it.Base.{
  ℕ, zero, suc, ◌<◌, ◌≡◌, refl, ap, sym, subst, ◌∙◌, ◌⊎◌, inl, inr, Bool, true, false, List, [],
  ◌∷◌, none, some, length, arith, Bool-cases, Option-cases, ◌==◌,
}
use bug_it.Text.{Bytes, bytes_eq, bytes_eq_sound, bytes_eq_refl}
use bug_it.Text.Path.{join, dir, before_last}
use bug_it.Project.Disk.{Disk, Coders}
use bug_it.Project.Root.{
  has_dev, sub_folders, first_with_dev, Walk, found, at_top, out_of_rounds, walked, walk_up,
  or_else_root, usable_cached, searched_root, find_capture_root,
}

-- A folder and those above it.
pub data IsAbove (folder : Bytes) : Bytes → Type 0 where
  here : IsAbove folder folder
  up : {g : Bytes} → IsAbove folder g → IsAbove folder (dir g)

before_last-length :
    (s : Bytes) {front : Bytes} → before_last s ≡ some front → length front < length s
unfolding before_last
before_last-length [] e = absurd (ground arith)
before_last-length (c ∷ s) {front} e = elim (Option-cases (before_last s)) [
  | inr (t, k) ↦
      let shorter = before_last-length s {front = t} k in
      let same : c ∷ t ≡ front = ground arith in
      subst (λ f. length f < suc (length s)) same (omega arith)
  | inl k ↦ elim (Bool-cases (c == b'/')) [
    | inl m ↦
        let same : [] ≡ front = ground arith in
        subst (λ f. length f < suc (length s)) same (omega arith)
    | inr m ↦ absurd (ground arith)
  ]
]

-- An absolute path is its own folder, or the folder is absolute and shorter.
dir-shorter :
    (s : Bytes)
    → (dir (b'/' ∷ s) ≡ b'/' ∷ s)
      ⊎ ((t : Bytes) × (dir (b'/' ∷ s) ≡ b'/' ∷ t) × (length t < length s))
unfolding dir before_last
dir-shorter s = elim (Option-cases (before_last s)) [
  | inr (t, k) ↦ inr (t, rw k refl, before_last-length s k)
  | inl k ↦ root s k
]
  where
    root :
        (s : Bytes)
        → before_last s ≡ none
        → (dir (b'/' ∷ s) ≡ b'/' ∷ s)
          ⊎ ((t : Bytes) × (dir (b'/' ∷ s) ≡ b'/' ∷ t) × (length t < length s))
    root [] k = inl refl
    root (c ∷ s) k = inr ([], rw k refl, omega arith)

-- Above a folder that is its own folder there is no other.
IsAbove-top : (folder g : Bytes) → dir folder ≡ folder → IsAbove folder g → g ≡ folder
IsAbove-top folder g e here = refl
IsAbove-top folder g e (up {g = h} a) = ap dir (IsAbove-top folder h e a) ∙ e

-- The folders above a folder are the folder and those above the next one.
IsAbove-cases : (folder g : Bytes) → IsAbove folder g → (g ≡ folder) ⊎ IsAbove (dir folder) g
IsAbove-cases folder g here = inl refl
IsAbove-cases folder g (up {g = h} a) = elim (IsAbove-cases folder h a) [
  | inl e ↦ inr (subst (λ k. IsAbove (dir folder) (dir k)) (sym e) here)
  | inr b ↦ inr (up b)
]

IsAbove-next : (folder g : Bytes) → IsAbove (dir folder) g → IsAbove folder g
IsAbove-next folder g here = up here
IsAbove-next folder g (up a) = up (IsAbove-next folder _ a)

-- What the walk finds: the folder or one above it that passes the test, or the top where none passes. It does not run
-- out of rounds.
abbrev pub WalkResult : (Bytes → Bool) → Bytes → Walk → Type 0
WalkResult has folder out_of_rounds = ⊥
WalkResult has folder at_top = (g : Bytes) → IsAbove folder g → has g ≡ false
WalkResult has folder (found g) = IsAbove folder g × (has g ≡ true)

WalkResult-next :
    (has : Bytes → Bool) (folder : Bytes) (r : Walk)
    → has folder ≡ false
    → WalkResult has (dir folder) r
    → WalkResult has folder r
WalkResult-next has folder out_of_rounds e h = h
WalkResult-next has folder at_top e h =
    λ g a. elim (IsAbove-cases folder g a) [ inl k ↦ ap has k ∙ e | inr b ↦ h g b ]
WalkResult-next has folder (found g) e (a, ok) = (IsAbove-next folder g a, ok)

-- The walk up from an absolute path ends: with more rounds than the path has bytes it does not run out of them. It
-- returns a folder that passes the test among the path and the folders above it, and breaks at the top only where
-- none of them passes.
pub walk_up-WalkResult :
    (has : Bytes → Bool) (fuel : ℕ) (s : Bytes)
    → length s < fuel
    → WalkResult has (b'/' ∷ s) (walk_up has fuel (b'/' ∷ s))
unfolding walk_up
walk_up-WalkResult has zero s h = absurd (omega arith)
walk_up-WalkResult has (suc fuel) s h = elim (Bool-cases (has (b'/' ∷ s))) [
  | inl e ↦ rw e (here, e)
  | inr e ↦ elim (dir-shorter s) [
    | inl top ↦
        let same : bytes_eq (dir (b'/' ∷ s)) (b'/' ∷ s) ≡ true =
          ap (λ p. bytes_eq p (b'/' ∷ s)) top ∙ bytes_eq_refl (b'/' ∷ s) in
        rw e (rw same (λ g a. ap has (IsAbove-top (b'/' ∷ s) g top a) ∙ e))
    | inr (t, next, shorter) ↦ elim (Bool-cases (bytes_eq (dir (b'/' ∷ s)) (b'/' ∷ s))) [
      | inl same ↦ rw e (
          rw same (λ g a.
            ap has (IsAbove-top (b'/' ∷ s) g (bytes_eq_sound (dir (b'/' ∷ s)) (b'/' ∷ s) same) a)
            ∙ e))
      | inr other ↦
          let rest =
            subst (λ p. WalkResult has p (walk_up has fuel p)) (sym next)
              (walk_up-WalkResult has fuel t (omega arith)) in
          rw e (rw other (WalkResult-next has (b'/' ∷ s) _ e rest))
    ]
  ]
]

first_with_dev-has :
    (has : Bytes → Bool) (folder : Bytes) (subs : List Bytes) {g : Bytes}
    → first_with_dev has folder subs ≡ some g
    → has g ≡ true
unfolding first_with_dev
first_with_dev-has has folder [] e = absurd (ground arith)
first_with_dev-has has folder (sub ∷ subs) {g} e = elim (Bool-cases (has (join folder sub))) [
  | inl k ↦ subst (λ p. has p ≡ true) (ground arith) k
  | inr k ↦ first_with_dev-has has folder subs {g = g} (ground arith)
]

root_cases :
    (has : Bytes → Bool) (folder : Bytes) (r : Walk)
    → WalkResult has folder r
    → (has (walked r folder) ≡ true)
      ⊎ ((walked r folder ≡ folder) × ((g : Bytes) → IsAbove folder g → has g ≡ false))
root_cases has folder out_of_rounds h = absurd h
root_cases has folder at_top h = inr (refl, h)
root_cases has folder (found g) (a, ok) = inl ok

search_eq :
    (io : Coders) (d : Disk) (folder : Bytes)
    → usable_cached io d folder ≡ none
    → find_capture_root io d folder ≡ searched_root io d folder
unfolding find_capture_root
search_eq io d folder fresh = ap (λ r. or_else_root r (searched_root io d folder)) fresh

searched-cases :
    (io : Coders) (d : Disk) (s : Bytes)
    → let root = searched_root io d (b'/' ∷ s) in
      (has_dev io d root ≡ true)
      ⊎ ((root ≡ b'/' ∷ s) × ((g : Bytes) → IsAbove (b'/' ∷ s) g → has_dev io d g ≡ false))
unfolding searched_root
searched-cases io d s =
    let folder = b'/' ∷ s in
    elim (Bool-cases (has_dev io d folder)) [
      | inl e ↦ rw e (inl e)
      | inr e ↦ elim (Option-cases (first_with_dev (has_dev io d) folder sub_folders)) [
        | inr (sub, k) ↦ rw e (rw k (inl (first_with_dev-has (has_dev io d) folder sub_folders k)))
        | inl k ↦ rw e (
            rw k (
              root_cases (has_dev io d) folder _
                (walk_up-WalkResult (has_dev io d) (suc (length folder)) s (omega arith))))
      ]
    ]

-- Where no usable folder is cached, `FindCaptureRoot` of an absolute path returns a folder whose package.json has a
-- `dev` or `start` script; it returns the path itself without such a script only where neither the path nor any
-- folder above it has one.
pub find_capture_root-cases :
    (io : Coders) (d : Disk) (s : Bytes)
    → usable_cached io d (b'/' ∷ s) ≡ none
    → let root = find_capture_root io d (b'/' ∷ s) in
      (has_dev io d root ≡ true)
      ⊎ ((root ≡ b'/' ∷ s) × ((g : Bytes) → IsAbove (b'/' ∷ s) g → has_dev io d g ≡ false))
find_capture_root-cases io d s fresh =
    let folder = b'/' ∷ s in rw (search_eq io d folder fresh) (searched-cases io d s)
