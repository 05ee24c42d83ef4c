-- ===== src/SourceMap.antt =====
-- pkg/sourcemap/map.go and api/manifest/source_ref.go: the source location of an event's index. The lock
-- makes each operation one step.
pub mod Lookup
use bug_it.Base.{ℤ, eq_ℤ, Bool, true, false, List, [], ◌∷◌, ◌++◌, Option, none, some, if◌then◌else◌}
use bug_it.Text.{Bytes}

-- `manifest.SourceRef`
pub record SourceRef : Type 0 where
  pub index : ℤ
  pub file : Bytes
  pub line : ℤ
  pub column : ℤ
  pub function : Bytes

-- `Store`; `SourceMap` has the same one field.
pub record Store : Type 0 where
  pub refs : List SourceRef

-- `NewStore`
unfoldable pub new_store : Store
new_store = record { refs = [] }

-- The loop of `Set`, and the append behind it: the first entry of the index is replaced.
unfoldable pub replace : List SourceRef → SourceRef → List SourceRef
replace [] ref = ref ∷ []
replace (r ∷ refs) ref = if eq_ℤ r.index ref.index then ref ∷ refs else r ∷ replace refs ref

-- `Set`
unfoldable pub set : Store → ℤ → Bytes → ℤ → ℤ → Bytes → Store
set s index file line column function = record {
  refs =
      replace s.refs
        (record { index = index; file = file; line = line; column = column; function = function });
}

-- `SourceMap.RefForIndex`
unfoldable pub find_ref : List SourceRef → ℤ → Option SourceRef
find_ref [] index = none
find_ref (r ∷ refs) index = if eq_ℤ r.index index then some r else find_ref refs index

-- `Store.Snapshot`, a copy.
unfoldable pub snapshot : Store → List SourceRef
snapshot s = s.refs

-- `Store.RefForIndex`
unfoldable pub ref_for_index : Store → ℤ → Option SourceRef
ref_for_index s index = find_ref (snapshot s) index
