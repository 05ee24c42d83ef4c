-- ===== src/LocalCapture/Failure.antt =====
-- Which failure an incident names (incident.go).
use bug_it.Base.{
  ℤ, pos, leb_ℤ, ◌≡◌, ◌≢◌, refl, ◌∙◌, Bool, true, false, ◌&&◌, List, [], ◌∷◌, Option, none, some,
  ◌==◌, if◌then◌else◌, take,
}
use bug_it.Text.{Bytes}
use bug_it.IoEvent.{IoEvent}
use bug_it.LocalCapture.{Draft, title_of, parse_status, summarize_payload}

-- A failure that the events show.
pub record Failure : Type 0 where
  pub step : Bytes
  pub status : ℤ
  pub detail : Bytes

abbrev pub is_server : Failure → Bool
is_server f = leb_ℤ (pos 500) f.status

-- The failure of an event: a read whose status is that of an error.
abbrev pub failure_of : IoEvent → Option Failure
failure_of ev =
    let payload = take ev.payload_len ev.payload in
    let (status, detail) = parse_status payload in
    if ev.is_write == 0 && leb_ℤ (pos 400) status
    then some (record { step = summarize_payload payload; status = status; detail = detail })
    else none

abbrev pub keep : Option Failure → List Failure → List Failure
keep none fs = fs
keep (some f) fs = f ∷ fs

abbrev pub failures : List IoEvent → List Failure
failures [] = []
failures (ev ∷ evs) = keep (failure_of ev) (failures evs)

abbrev pub or_failure : Option Failure → Option Failure → Option Failure
or_failure none o = o
or_failure (some f) o = some f

-- The last failure of a server.
abbrev pub last_server : List Failure → Option Failure
last_server [] = none
last_server (f ∷ fs) = or_failure (last_server fs) (if is_server f then some f else none)

-- The failure to name: the last one of a server, else the first one of all.
abbrev pub named_failure : List Failure → Option Failure
named_failure [] = none
named_failure (f ∷ fs) = or_failure (last_server (f ∷ fs)) (some f)

-- A draft names a failure, or none.
abbrev pub Names : Draft → Option Failure → Type 0
Names d none = (d.failed_step ≡ []) × (d.root_cause ≡ []) × (d.title ≡ [])
Names d (some f) =
    (d.failed_step ≡ f.step)
    × (d.failed_step ≢ [])
    × (d.root_cause ≡ f.detail)
    × (d.title ≡ title_of f.status)

-- What the loop keeps of a failure that it has and one that it meets.
abbrev pub next : Option Failure → Failure → Option Failure
next none f = some f
next (some g) f = if is_server f then some f else some g

abbrev pub next_all : Option Failure → List Failure → Option Failure
next_all o [] = o
next_all o (f ∷ fs) = next_all (next o f) fs

or_failure-cases :
    (server : Bool) (f g : Failure) (l : Option Failure) {kept : Option Failure}
    → (if server then kept ≡ or_failure l (some f) else kept ≡ or_failure l (some g))
    → kept ≡ or_failure (or_failure l (if server then some f else none)) (some g)
or_failure-cases true f g none h = h
or_failure-cases true f g (some k) h = h
or_failure-cases false f g none h = h
or_failure-cases false f g (some k) h = h

next_all-if :
    (server : Bool) (f g : Failure) (fs : List Failure) (l : Option Failure)
    → next_all (some f) fs ≡ or_failure l (some f)
    → next_all (some g) fs ≡ or_failure l (some g)
    → next_all (if server then some f else some g) fs
      ≡ or_failure (or_failure l (if server then some f else none)) (some g)
next_all-if true f g fs l hf hg = or_failure-cases true f g l hf
next_all-if false f g fs l hf hg = or_failure-cases false f g l hg

next_all-last_server :
    (g : Failure) (fs : List Failure) → next_all (some g) fs ≡ or_failure (last_server fs) (some g)
next_all-last_server g [] = refl
next_all-last_server g (f ∷ fs) =
    next_all-if (is_server f) f g fs (last_server fs) (next_all-last_server f fs)
      (next_all-last_server g fs)

or_failure-same :
    (server : Bool) (f : Failure) (l : Option Failure)
    → or_failure l (some f) ≡ or_failure (or_failure l (if server then some f else none)) (some f)
or_failure-same true f none = refl
or_failure-same true f (some k) = refl
or_failure-same false f none = refl
or_failure-same false f (some k) = refl

pub next_all-named_failure : (fs : List Failure) → next_all none fs ≡ named_failure fs
next_all-named_failure [] = refl
next_all-named_failure (f ∷ fs) =
    next_all-last_server f fs ∙ or_failure-same (is_server f) f (last_server fs)
