-- ===== src/Replay/TimeFreeze/Latest.antt =====
-- The frozen time is the latest time that was recorded up to the cursor (engine.go).
use bug_it.Base.{
  ℕ, ℤ, leb_ℤ, ◌≤◌, ◌≡◌, refl, ◌⊎◌, inl, inr, Bool, true, ◌&&◌, List, [], ◌∷◌, arith, ltb, leb,
  if◌then◌else◌, Bool-cases, All, &&-cases, sym, ap, ◌∙◌, subst,
}
use bug_it.IoEvent.{IoEvent}
use bug_it.Replay.TimeFreeze.{ClockEntry, Engine, best_at, timestamp_for_cursor, sync_to_cursor}

-- The entries up to the cursor are not later than `t`.
abbrev pub NotLater : ℤ → ℕ → List ClockEntry → Type 0
NotLater cursor t = All (λ ent. leb_ℤ ent.index cursor ≡ true → ent.timestamp_ns ≤ t)

-- An entry up to the cursor has the time `t`.
pub data Has (cursor : ℤ) (t : ℕ) : List ClockEntry → Type 0 where
  here :
      {ent : ClockEntry} {entries : List ClockEntry}
      → leb_ℤ ent.index cursor ≡ true
      → ent.timestamp_ns ≡ t
      → Has cursor t (ent ∷ entries)
  later :
      {ent : ClockEntry} {entries : List ClockEntry}
      → Has cursor t entries
      → Has cursor t (ent ∷ entries)

best_at-le :
    (cursor : ℤ) (entries : List ClockEntry) (best : ℕ) → best ≤ best_at cursor entries best
unfolding best_at
best_at-le cursor [] best = omega arith
best_at-le cursor (ent ∷ entries) best = ground (
  arith,
  best_at-le cursor entries
      (if leb_ℤ ent.index cursor && leb best ent.timestamp_ns then ent.timestamp_ns else best),
)

best_at-NotLater :
    (cursor : ℤ) (entries : List ClockEntry) (best : ℕ)
    → NotLater cursor (best_at cursor entries best) entries
unfolding best_at
best_at-NotLater cursor [] best = tt
best_at-NotLater cursor (ent ∷ entries) best =
    let next =
      if leb_ℤ ent.index cursor && leb best ent.timestamp_ns then ent.timestamp_ns else best in
    (λ h. ground (arith, best_at-le cursor entries next), best_at-NotLater cursor entries next)

best_at-Has :
    (cursor : ℤ) (entries : List ClockEntry) (best : ℕ)
    → (best_at cursor entries best ≡ best) ⊎ Has cursor (best_at cursor entries best) entries
unfolding best_at
best_at-Has cursor [] best = inl refl
best_at-Has cursor (ent ∷ entries) best =
    let next =
      if leb_ℤ ent.index cursor && leb best ent.timestamp_ns then ent.timestamp_ns else best in
    let pick = λ (b : Bool). if b then ent.timestamp_ns else best in
    elim (best_at-Has cursor entries next) [
      | inr h ↦ inr (later h)
      | inl e ↦ elim (Bool-cases (leb_ℤ ent.index cursor && leb best ent.timestamp_ns)) [
        | inl taken ↦ inr (here (&&-cases _ _ taken).0 (sym (e ∙ ap pick taken)))
        | inr kept ↦ inl (e ∙ ap pick kept)
      ]
    ]

-- With a timeline, the time for a cursor is the latest one that an entry up to the cursor has. Where no
-- such entry has a time, it is the time of the first entry.
pub timestamp_for_cursor_latest :
    (ent : ClockEntry) (entries : List ClockEntry) (cursor : ℤ) (events : List IoEvent)
    → let timeline = ent ∷ entries in
      let t = timestamp_for_cursor timeline cursor events in
      (Has cursor t timeline × NotLater cursor t timeline)
      ⊎ (NotLater cursor 0 timeline × (t ≡ ent.timestamp_ns))
unfolding timestamp_for_cursor
timestamp_for_cursor_latest ent entries cursor events =
    let best = best_at cursor (ent ∷ entries) 0 in
    elim (Bool-cases (ltb 0 best)) [
      | inl found ↦ elim (best_at-Has cursor (ent ∷ entries) 0) [
        | inl zero ↦ absurd (ground arith)
        | inr h ↦
            let value : best ≡ timestamp_for_cursor (ent ∷ entries) cursor events = ground arith in
            inl (
              subst (λ t. Has cursor t (ent ∷ entries)) value h,
              subst (λ t. NotLater cursor t (ent ∷ entries)) value
                  (best_at-NotLater cursor (ent ∷ entries) 0),
            )
      ]
      | inr missing ↦
          let nothing : best ≡ 0 = ground arith in
          inr (
            subst (λ t. NotLater cursor t (ent ∷ entries)) nothing
                (best_at-NotLater cursor (ent ∷ entries) 0),
            ground arith,
          )
    ]

-- Synchronising freezes exactly that time, if freezing is on and there is a time at all.
pub sync_to_cursor_frozen :
    (e : Engine) (cursor : ℤ) (events : List IoEvent)
    → let t = timestamp_for_cursor e.timeline cursor events in
      (sync_to_cursor e cursor events).frozen_ns ≡ (if e.enabled && ltb 0 t then t else e.frozen_ns)
unfolding sync_to_cursor
sync_to_cursor_frozen e cursor events = ground arith
