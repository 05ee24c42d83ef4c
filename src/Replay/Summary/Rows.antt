-- ===== src/Replay/Summary/Rows.antt =====
-- The process that is shown for an index is that of the event (summary.go, sync.go).
use bug_it.Base.{
  ℕ, zero, suc, ◌+◌, ◌<◌, ◌≡◌, refl, ap, subst, ◌∙◌, List, [], ◌∷◌, Option, none, some, ◌==◌,
  if◌then◌else◌, ◌>>=◌, arith, get_elem?, Bool-cases, inl, inr,
}
use bug_it.IoEvent.{IoEvent}
use bug_it.Replay.Summary.{
  Correlation, summarize_event, summarize_from, summarize_events, correlation_of, add_correlations,
  build_correlations,
}

abbrev pub Table : Type 0
Table = ℕ → Option Correlation

-- The row of the event `i`, if it is no scheduler marker.
abbrev pub row : ℕ → IoEvent → Option Correlation
row i e = if e.is_write == 2 then none else some (correlation_of (summarize_event i e))

-- The table at an index before the rows.
rows_before :
    (out : Table) (i n : ℕ) (es : List IoEvent)
    → n < i
    → add_correlations out (summarize_from i es) n ≡ out n
unfolding add_correlations summarize_from summarize_event
rows_before out i n [] lt = refl
rows_before out i n (e ∷ es) lt = elim (Bool-cases (e.is_write == 2)) [
  | inl marker ↦ rw marker (rows_before out (suc i) n es (omega arith))
  | inr shown ↦ rw shown (
      rows_before (λ j. if j == i then some (correlation_of (summarize_event i e)) else out j)
        (suc i) n es (omega arith)
      ∙ ground arith)
]

-- An entry of the table, where the rows have none.
abbrev or_entry : Option Correlation → Option Correlation → Option Correlation
or_entry none o = o
or_entry (some c) o = some c

row_here :
    (out : Table) (n : ℕ) (evt : IoEvent) (es : List IoEvent)
    → add_correlations out (summarize_from n (evt ∷ es)) n ≡ or_entry (row n evt) (out n)
unfolding add_correlations summarize_from summarize_event
row_here out n evt es = elim (Bool-cases (evt.is_write == 2)) [
  | inl marker ↦ rw marker (rows_before out (suc n) n es (omega arith))
  | inr shown ↦ rw shown (
      rows_before (λ j. if j == n then some (correlation_of (summarize_event n evt)) else out j)
        (suc n) n es (omega arith)
      ∙ ground arith)
]

-- An entry in front of the index does not matter.
row_behind :
    (out : Table) (i n : ℕ) (evt : IoEvent) (es : List IoEvent) (entry : Option Correlation)
    → i < n
    → ((put : Table) → add_correlations put (summarize_from (suc i) es) n ≡ or_entry entry (put n))
    → add_correlations out (summarize_from i (evt ∷ es)) n ≡ or_entry entry (out n)
unfolding add_correlations summarize_from summarize_event
row_behind out i n evt es entry lt rest = elim (Bool-cases (evt.is_write == 2)) [
  | inl marker ↦ rw marker (rest out)
  | inr shown ↦
      let put : Table =
        λ j. if j == i then some (correlation_of (summarize_event i evt)) else out j in
      let skipped : put n ≡ out n = ground arith in
      rw shown (rest put ∙ ap (or_entry entry) skipped)
]

rows_at :
    (out : Table) (i k n : ℕ) (es : List IoEvent)
    → i + k ≡ n
    → add_correlations out (summarize_from i es) n ≡ or_entry (get_elem? es k >>= row n) (out n)
rows_at out i k n [] e = unfold add_correlations summarize_from in refl
rows_at out i zero n (evt ∷ es) e =
    let here : n ≡ i = omega arith in
    subst (λ m. add_correlations out (summarize_from m (evt ∷ es)) n ≡ or_entry (row n evt) (out n))
      here (row_here out n evt es)
rows_at out i (suc k) n (evt ∷ es) e =
    row_behind out i n evt es (get_elem? es k >>= row n) (omega arith)
      (λ put. rows_at put (suc i) k n es (omega arith))

or_entry-none : (o : Option Correlation) → or_entry o none ≡ o
or_entry-none none = refl
or_entry-none (some c) = refl

-- The process that is shown for an index is the one of the event at this index: of its thread and its command,
-- and there is one for every event that is no scheduler marker.
pub build_correlations-event :
    (events : List IoEvent) (n : ℕ)
    → build_correlations (summarize_events events) n ≡ (get_elem? events n >>= row n)
unfolding build_correlations summarize_events
build_correlations-event events n = rows_at (λ i. none) 0 n n events (omega arith) ∙ or_entry-none _
