-- ===== src/LocalCapture/Incident.antt =====
-- The incident that is built of the captured events (incident.go).
use bug_it.Base.{
  ℕ, ℤ, pos, leb_ℤ, ◌≡◌, ◌≢◌, refl, ap, sym, ◌∙◌, subst, List, [], ◌∷◌, ◌++◌, ◌⊎◌, if◌then◌else◌,
  Option, none, some, length, All, Bool-cases, inl, inr,
}
use bug_it.Text.{Bytes, codes}
use bug_it.IoEvent.{IoEvent, IsBounded}
use bug_it.LocalCapture.{
  Draft, blank, title_of, format_int, add_event, add_events, Report, report_of, build_incident,
}
use bug_it.LocalCapture.Failure.{
  Failure, failure_of, keep, failures, named_failure, Names, next_all, next_all-named_failure,
}
use bug_it.LocalCapture.Shown.{shown_failures, failures-shown_failures}
use bug_it.LocalCapture.Rounds.{next_maybe, add_event-Names}
use bug_it.Replay.Summary.{or_else}

next_all-keep :
    (o f : Option Failure) (fs : List Failure)
    → next_all (next_maybe o f) fs ≡ next_all o (keep f fs)
next_all-keep o none fs = refl
next_all-keep o (some f) fs = refl

add_events_eq :
    (d : Draft) (ev : IoEvent) (evs : List IoEvent) {d' : Draft}
    → add_event d ev ≡ some d'
    → add_events d (ev ∷ evs) ≡ add_events d' evs
unfolding add_events
add_events_eq d ev evs e = rw e

add_events-Names :
    (d : Draft) (o : Option Failure) (evs : List IoEvent)
    → All IsBounded evs
    → Names d o
    → (d' : Draft) × (add_events d evs ≡ some d') × Names d' (next_all o (failures evs))
add_events-Names d o [] bounded h = (d, (unfold add_events in refl), h)
add_events-Names d o (ev ∷ evs) (b, bounded) h =
    let (d₁, e, named) = add_event-Names d o ev b h in
    let (d', k, all) = add_events-Names d₁ (next_maybe o (failure_of ev)) evs bounded named in
    (
      d',
      add_events_eq d ev evs e ∙ k,
      subst (Names d') (next_all-keep o (failure_of ev) (failures evs)) all,
    )

-- What a report says of the failure that it names.
abbrev pub Reports : Report → Option Failure → Type 0
Reports r none = r.title ≡ codes "Captured incident"
Reports r (some f) =
    (r.title ≡ (
      if leb_ℤ (pos 500) f.status
      then codes "Server error: HTTP " ++ format_int f.status
      else codes "Client error: HTTP " ++ format_int f.status))
    × (r.failed_step ≡ f.step)
    × (((f.detail ≢ []) × (r.root_cause ≡ f.detail))
        ⊎ ((f.detail ≡ [])
            × (r.root_cause ≡ codes "See event timeline for failing request/response")))

cause_cases :
    (detail other : Bytes)
    → ((detail ≢ []) × (or_else detail other ≡ detail))
      ⊎ ((detail ≡ []) × (or_else detail other ≡ other))
unfolding or_else
cause_cases [] other = inr (refl, refl)
cause_cases (c ∷ detail) other = inl ((λ e. cc), refl)

or_else-full : (s other : Bytes) → s ≢ [] → or_else s other ≡ s
unfolding or_else
or_else-full [] other ne = absurd (ne refl)
or_else-full (c ∷ s) other ne = refl

title-full : (status : ℤ) → title_of status ≢ []
unfolding title_of
title-full status = elim (Bool-cases (leb_ℤ (pos 500) status)) [
  | inl server ↦ rw server (λ z. cc)
  | inr client ↦ rw client (λ z. cc)
]

report_of-Reports :
    (count : ℕ) (d : Draft) (o : Option Failure) → Names d o → Reports (report_of count d) o
unfolding report_of
report_of-Reports count d none (step, cause, title) = rw title (unfold or_else in refl)
report_of-Reports count d (some f) (step, full, cause, title) = (
  or_else-full d.title _ (λ z. title-full f.status (sym title ∙ z))
      ∙ title
      ∙ (unfold title_of in refl),
  or_else-full d.failed_step _ full ∙ step,
  subst
      (λ c.
        ((f.detail ≢ [])
          × (or_else c (codes "See event timeline for failing request/response") ≡ f.detail))
        ⊎ ((f.detail ≡ [])
            × (or_else c (codes "See event timeline for failing request/response")
                ≡ codes "See event timeline for failing request/response")))
      (sym cause) (cause_cases f.detail (codes "See event timeline for failing request/response")),
)

build_eq :
    (ev : IoEvent) (evs : List IoEvent) {d : Draft}
    → add_events blank (ev ∷ evs) ≡ some d
    → build_incident (ev ∷ evs) ≡ some (some (report_of (length (ev ∷ evs)) d))
unfolding build_incident
build_eq ev evs e = rw e

blank-Names : Names blank none
unfolding blank
blank-Names = (refl, refl, refl)

pub build_incident-Reports :
    (ev : IoEvent) (evs : List IoEvent)
    → All IsBounded (ev ∷ evs)
    → (r : Report) × (build_incident (ev ∷ evs) ≡ some (some r))
      × Reports r (named_failure (shown_failures (ev ∷ evs)))
build_incident-Reports ev evs bounded =
    let (d, e, named) = add_events-Names blank none (ev ∷ evs) bounded blank-Names in
    let same : next_all none (failures (ev ∷ evs)) ≡ named_failure (shown_failures (ev ∷ evs)) =
      next_all-named_failure (failures (ev ∷ evs))
      ∙ ap named_failure (failures-shown_failures (ev ∷ evs)) in
    (
      report_of (length (ev ∷ evs)) d,
      build_eq ev evs e,
      report_of-Reports (length (ev ∷ evs)) d (named_failure (shown_failures (ev ∷ evs)))
          (subst (Names d) same named),
    )
