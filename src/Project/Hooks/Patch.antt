-- ===== src/Project/Hooks/Patch.antt =====
-- What `SyncDevScript` does to a package.json (pkg/project/hooks.go).
use bug_it.Base.{
  ℤ, ◌≡◌, refl, ap, ap₂, sym, subst, ◌∙◌, inl, inr, true, false, ◌||◌, List, [], ◌∷◌, ◌++◌, arith,
  Bool-cases,
}
use bug_it.Text.{Bytes, codes, bytes_eq}
use bug_it.Text.Search.{contains, contains-front, contains-append}
use bug_it.Text.Trim.{fields}
use bug_it.Text.Split.{join_byte}
use bug_it.Project.Hooks.{is_hooked, patched_words, patch_dev_script}

hooked_left :
    (dev : Bytes) → contains dev (codes ".bugit/inspect-bootstrap") ≡ true → is_hooked dev ≡ true
unfolding is_hooked
hooked_left dev h = rw h refl

hooked_right :
    (dev : Bytes) → contains dev (codes ".bugit/run-with-hooks.cjs") ≡ true → is_hooked dev ≡ true
unfolding is_hooked
hooked_right dev h = elim (Bool-cases (contains dev (codes ".bugit/inspect-bootstrap"))) [
  | inl e ↦ rw e refl
  | inr e ↦ rw e h
]

-- The words that are put in front of the rest of a `node` script.
joined-hooked :
    (word flag : Bytes) (words : List Bytes)
    → is_hooked (
        join_byte b' ' (
          word
          ∷ codes "-r .bugit/inspect-bootstrap.cjs"
          ∷ codes "-r .bugit/preload.cjs"
          ∷ flag
          ∷ words))
      ≡ true
joined-hooked word flag words = hooked_left _ (
    unfold join_byte in
    contains-append word
      (b' ' ∷ codes "-r .bugit/inspect-bootstrap.cjs"
        ++ b' ' ∷ join_byte b' ' (codes "-r .bugit/preload.cjs" ∷ flag ∷ words))
      (codes ".bugit/inspect-bootstrap")
      (contains-append (codes " -r ")
        (codes ".bugit/inspect-bootstrap"
          ++ codes ".cjs"
          ++ b' ' ∷ join_byte b' ' (codes "-r .bugit/preload.cjs" ∷ flag ∷ words))
        (codes ".bugit/inspect-bootstrap") (contains-front (codes ".bugit/inspect-bootstrap") _)))

-- A script that was changed refers to the hooks.
patched_words-hooked :
    (dev : Bytes) (inspect_port : ℤ) (words : List Bytes)
    → (patched_words dev inspect_port words).1 ≡ true
    → is_hooked (patched_words dev inspect_port words).0 ≡ true
unfolding patched_words
patched_words-hooked dev inspect_port [] e = absurd (ground arith)
patched_words-hooked dev inspect_port (word ∷ words) e =
    elim (Bool-cases (bytes_eq word (codes "npm"))) [
      | inl npm ↦ rw npm (
          hooked_right _ (
            contains-append (codes "node ") (codes ".bugit/run-with-hooks.cjs" ++ b' ' ∷ dev)
              (codes ".bugit/run-with-hooks.cjs")
              (contains-front (codes ".bugit/run-with-hooks.cjs") (b' ' ∷ dev))))
      | inr other ↦
          elim (Bool-cases (bytes_eq word (codes "nodemon") || bytes_eq word (codes "node"))) [
            | inl node ↦ rw other (rw node (joined-hooked word _ words))
            | inr neither ↦ absurd (ground arith)
          ]
    ]

kept_words :
    (dev : Bytes) (inspect_port : ℤ) (words : List Bytes)
    → (patched_words dev inspect_port words).1 ≡ false
    → (patched_words dev inspect_port words).0 ≡ dev
unfolding patched_words
kept_words dev inspect_port [] e = refl
kept_words dev inspect_port (word ∷ words) e = elim (Bool-cases (bytes_eq word (codes "npm"))) [
  | inl npm ↦ absurd (ground arith)
  | inr other ↦
      elim (Bool-cases (bytes_eq word (codes "nodemon") || bytes_eq word (codes "node"))) [
        | inl node ↦ absurd (ground arith)
        | inr neither ↦ rw other (rw neither refl)
      ]
]

hooked_same :
    (dev : Bytes) (inspect_port : ℤ)
    → is_hooked dev ≡ true
    → patch_dev_script dev inspect_port ≡ (dev, false)
unfolding patch_dev_script
hooked_same dev inspect_port h = rw h refl

-- Whether a script is changed does not depend on the port.
changed_any :
    (dev : Bytes) (p q : ℤ) (words : List Bytes)
    → (patched_words dev p words).1 ≡ (patched_words dev q words).1
unfolding patched_words
changed_any dev p q [] = refl
changed_any dev p q (word ∷ words) = elim (Bool-cases (bytes_eq word (codes "npm"))) [
  | inl npm ↦ rw npm refl
  | inr other ↦
      elim (Bool-cases (bytes_eq word (codes "nodemon") || bytes_eq word (codes "node"))) [
        | inl node ↦ rw other (rw node refl)
        | inr neither ↦ rw other (rw neither refl)
      ]
]

open_same :
    (dev : Bytes) (inspect_port : ℤ)
    → is_hooked dev ≡ false
    → patch_dev_script dev inspect_port ≡ patched_words dev inspect_port (fields dev)
unfolding patch_dev_script
open_same dev inspect_port h = rw h refl

unchanged_pair :
    (dev : Bytes) (q : ℤ) (words : List Bytes)
    → (patched_words dev q words).1 ≡ false
    → patched_words dev q words ≡ (dev, false)
unchanged_pair dev q words e = ap₂ (λ a b. (a, b)) (kept_words dev q words e) e

-- Patching a script a second time, with whatever port, changes nothing.
pub patch_dev_script-patch_dev_script :
    (dev : Bytes) (p q : ℤ)
    → patch_dev_script (patch_dev_script dev p).0 q ≡ ((patch_dev_script dev p).0, false)
patch_dev_script-patch_dev_script dev p q = elim (Bool-cases (is_hooked dev)) [
  | inl h ↦
      let e : (patch_dev_script dev p).0 ≡ dev = ap (λ r. r.0) (hooked_same dev p h) in
      subst (λ s. patch_dev_script s q ≡ (s, false)) (sym e) (hooked_same dev q h)
  | inr h ↦
      let e : (patch_dev_script dev p).0 ≡ (patched_words dev p (fields dev)).0 =
        ap (λ r. r.0) (open_same dev p h) in
      subst (λ s. patch_dev_script s q ≡ (s, false)) (sym e)
        (elim (Bool-cases (patched_words dev p (fields dev)).1) [
          | inl changed ↦ hooked_same _ q (patched_words-hooked dev p (fields dev) changed)
          | inr kept ↦
              subst (λ s. patch_dev_script s q ≡ (s, false))
                (sym (kept_words dev p (fields dev) kept))
                (open_same dev q h
                  ∙ unchanged_pair dev q (fields dev) (changed_any dev q p (fields dev) ∙ kept))
        ])
]
