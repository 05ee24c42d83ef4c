-- ===== src/LocalCapture/Daemon/Latest.antt =====
-- The snapshot that is the latest (dre-collector/pkg/localcapture/daemon.go).
use bug_it.Base.{
  ℕ, ◌≤◌, ◌<◌, ◌≡◌, refl, ap, sym, subst, ◌∙◌, ◌⊎◌, inl, inr, true, false, List, [], ◌∷◌, ◌++◌,
  Option, none, some, if◌then◌else◌, ltb, arith, All, Bool-cases,
}
use bug_it.Text.{Bytes}
use bug_it.LocalCapture.Daemon.{Entry, is_snapshot, later_one, latest_from}

-- The time of an entry that counts, 0 for the others.
abbrev known : Option ℕ → ℕ
known none = 0
known (some time) = time

abbrev pub time_of : Entry → ℕ
time_of e = if is_snapshot e then known e.mod_time else 0

-- What the loop ends with: the start, or the name and the time of an entry that counts and is later.
abbrev pub IsLatest : List Entry → Bytes × ℕ → Bytes × ℕ → Type 0
IsLatest entries start best =
    (start.1 ≤ best.1)
    × All (λ e. time_of e ≤ best.1) entries
    × ((best ≡ start)
        ⊎ ((before after : List Entry) × (e : Entry) × (entries ≡ before ++ e ∷ after)
            × (best ≡ (e.name, time_of e))
            × (is_snapshot e ≡ true)
            × (start.1 < time_of e)))

abbrev step : Entry → Bytes × ℕ → Bytes × ℕ
step e start = if is_snapshot e then later_one e e.mod_time start else start

-- One round of the loop.
abbrev Stepped : Entry → Bytes × ℕ → Bytes × ℕ → Type 0
Stepped e start next =
    (start.1 ≤ next.1)
    × (time_of e ≤ next.1)
    × ((next ≡ start)
        ⊎ ((next ≡ (e.name, time_of e)) × (is_snapshot e ≡ true) × (start.1 < time_of e)))

step-timed :
    (e : Entry) (o : Option ℕ) (start : Bytes × ℕ)
    → e.mod_time ≡ o
    → is_snapshot e ≡ true
    → Stepped e start (later_one e o start)
step-timed e none start m h =
    let zero_time : time_of e ≡ 0 = rw h (ap known m) in (omega arith, omega arith, inl refl)
step-timed e (some time) start m h =
    let timed : time_of e ≡ time = rw h (ap known m) in
    elim (Bool-cases (ltb start.1 time)) [
      | inl k ↦
          rw k (ground arith, omega arith, inr (ap (λ t. (e.name, t)) (sym timed), h, ground arith))
      | inr k ↦ rw k (omega arith, ground arith, inl refl)
    ]

step-Stepped : (e : Entry) (start : Bytes × ℕ) → Stepped e start (step e start)
step-Stepped e start = elim (Bool-cases (is_snapshot e)) [
  | inl h ↦
      subst (λ n. Stepped e start n) (sym (counts e start h)) (step-timed e e.mod_time start refl h)
  | inr h ↦
      subst (λ n. Stepped e start n) (sym (skips e start h))
        (omega arith, skipped e start h, inl refl)
]
  where
    counts :
        (e : Entry) (start : Bytes × ℕ)
        → is_snapshot e ≡ true
        → step e start ≡ later_one e e.mod_time start
    counts e start h = rw h refl

    skips : (e : Entry) (start : Bytes × ℕ) → is_snapshot e ≡ false → step e start ≡ start
    skips e start h = rw h refl

    skipped : (e : Entry) (start : Bytes × ℕ) → is_snapshot e ≡ false → time_of e ≤ start.1
    skipped e start h = rw h (omega arith)

IsLatest-step :
    (e : Entry) (entries : List Entry) (start next best : Bytes × ℕ)
    → Stepped e start next
    → IsLatest entries next best
    → IsLatest (e ∷ entries) start best
IsLatest-step e entries start next best (up, seen, inl same) (low, all, inl kept) =
    (omega arith, (omega arith, all), inl (kept ∙ same))
IsLatest-step e entries start next best (up, seen, inr (same, counts, more)) (low, all, inl kept) =
    (omega arith, (omega arith, all), inr ([], entries, e, refl, kept ∙ same, counts, more))
IsLatest-step e entries start next best (up, seen, r)
      (low, all, inr (before, after, f, split, is, counts, more)) =
    (
      omega arith,
      (omega arith, all),
      inr (e ∷ before, after, f, ap (λ t. e ∷ t) split, is, counts, omega arith),
    )

-- The loop of `LatestSnapshot`, from any name and time so far: its time is at least the start's and at least that of
-- every `.dre` file, where a time that cannot be read counts as 0; and its name and time are the start's, or those
-- of a `.dre` file of the list that is later than the start.
pub latest_from-IsLatest :
    (entries : List Entry) (start : Bytes × ℕ) → IsLatest entries start (latest_from entries start)
unfolding latest_from
latest_from-IsLatest [] start = (omega arith, tt, inl refl)
latest_from-IsLatest (e ∷ entries) start =
    IsLatest-step e entries start (step e start) _ (step-Stepped e start)
      (latest_from-IsLatest entries (step e start))
