-- ===== src/SourceMap/Lookup.antt =====
-- What is set is found (map.go).
use bug_it.Base.{
  ℤ, eq_ℤ, eq_ℤ_sound, eq_ℤ_refl, ◌≡◌, ◌≢◌, ap, sym, subst, false, List, [], ◌∷◌, some,
  if◌then◌else◌, Bool-cases, inl, inr,
}
use bug_it.Text.{Bytes}
use bug_it.SourceMap.{SourceRef, Store, replace, set, find_ref, snapshot, ref_for_index}

find_replace :
    (refs : List SourceRef) (ref : SourceRef) → find_ref (replace refs ref) ref.index ≡ some ref
unfolding find_ref replace
find_replace [] ref = rw (eq_ℤ_refl ref.index)
find_replace (r ∷ refs) ref = elim (Bool-cases (eq_ℤ r.index ref.index)) [
  | inl same ↦ rw same (rw (eq_ℤ_refl ref.index))
  | inr other ↦ rw other (rw other (find_replace refs ref))
]

find_replace_other :
    (refs : List SourceRef) (ref : SourceRef) (index : ℤ)
    → eq_ℤ ref.index index ≡ false
    → find_ref (replace refs ref) index ≡ find_ref refs index
unfolding find_ref replace
find_replace_other [] ref index ne = rw ne
find_replace_other (r ∷ refs) ref index ne = elim (Bool-cases (eq_ℤ r.index ref.index)) [
  | inl same ↦
      let elsewhere : eq_ℤ r.index index ≡ false =
        subst (λ i. eq_ℤ i index ≡ false) (sym (eq_ℤ_sound r.index ref.index same)) ne in
      rw same (rw ne (rw elsewhere))
  | inr other ↦
      rw other
        (ap (λ t. if eq_ℤ r.index index then some r else t) (find_replace_other refs ref index ne))
]

-- The location that was set for an index is the one that is found for it, and the locations of the other
-- indices are as before.
pub set-ref_for_index :
    (s : Store) (index : ℤ) (file : Bytes) (line column : ℤ) (function : Bytes)
    → (ref_for_index (set s index file line column function) index
        ≡ some (record {
          index = index;
          file = file;
          line = line;
          column = column;
          function = function;
        }))
      × ((other : ℤ)
          → index ≢ other
          → ref_for_index (set s index file line column function) other ≡ ref_for_index s other)
unfolding ref_for_index set snapshot
set-ref_for_index s index file line column function = (
  find_replace s.refs
      (record { index = index; file = file; line = line; column = column; function = function }),
  λ other ne.
      find_replace_other s.refs
        (record { index = index; file = file; line = line; column = column; function = function })
        other
        (elim (Bool-cases (eq_ℤ index other)) [
          | inl same ↦ absurd (ne (eq_ℤ_sound index other same))
          | inr apart ↦ apart
        ]),
)
