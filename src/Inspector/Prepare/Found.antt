-- ===== src/Inspector/Prepare/Found.antt =====
-- What `PrepareBackendInspector` finds (pkg/captureattach/inspect.go).
use bug_it.Base.{
  ℕ, ℤ, pos, ◌≡◌, ◌≢◌, refl, ap, sym, inl, inr, Bool, true, false, not, ◌&&◌, List, [], ◌∷◌, Option,
  none, some, if◌then◌else◌, ltb_ℤ, leb_ℤ, All, Bool-cases, &&-cases, subst, arith,
}
use bug_it.Text.{Bytes}
use bug_it.Inspector.{
  TargetPickOptions, BackendInspector, PortTarget, min_backend_target_score, min_new_target_score,
  inspector_port_min, is_empty_text,
}
use bug_it.Inspector.Pick.{
  snapshot_port_targets, resolve_backend_inspector, resolve_backend_inspector_with_diff, best_of,
  no_inspector, new_backend_targets, diff_new_targets,
}
use bug_it.Inspector.Pick.Best.{IsBelow}
use bug_it.Inspector.Pick.Best.Chosen.{Choice, resolve_backend_inspector-Choice}
use bug_it.Project.Disk.{Disk, Coders}
use bug_it.Project.Hooks.{HookTexts, Synced, sync_failed, unchanged, patched, sync_dev_script}
use bug_it.Inspector.Prepare.{
  Targets, Search, Around, or_try, search_backend, Prepared, not_found_error, or_error,
  prepare_search, after_sync, root_of, prepare_backend_inspector, not_synced, found, restart_on,
  no_target,
}

-- An inspector that can be attached to.
abbrev pub IsFit : BackendInspector → Type 0
IsFit insp =
    (is_empty_text insp.web_socket_url ≡ false) × (leb_ℤ min_new_target_score insp.score ≡ true)

-- No target of the answers scores enough.
abbrev pub HasNone : TargetPickOptions → Targets → Type 0
HasNone opts targets = All (IsBelow opts min_backend_target_score) (snapshot_port_targets targets)

more_than : (s : ℤ) → leb_ℤ min_backend_target_score s ≡ true → leb_ℤ min_new_target_score s ≡ true
more_than s h = ground arith

Choice-IsFit :
    (opts : TargetPickOptions) (pts : List PortTarget) (insp : BackendInspector)
    → Choice opts pts (some insp)
    → IsFit insp
Choice-IsFit opts pts insp (best, high, full) = (full, more_than insp.score high)

resolve-IsFit :
    (opts : TargetPickOptions) (targets : Targets) {insp : BackendInspector}
    → resolve_backend_inspector targets opts ≡ some insp
    → IsFit insp
resolve-IsFit opts targets {insp} e = Choice-IsFit opts (snapshot_port_targets targets) insp (
    subst (Choice opts (snapshot_port_targets targets)) e
      (resolve_backend_inspector-Choice targets opts))

full_text : (b : Bool) → not b ≡ true → b ≡ false
full_text true h = sym h
full_text false h = refl

decide-IsFit :
    (best : BackendInspector) (fallback : Option BackendInspector) {insp : BackendInspector}
    → (fallback ≡ some insp → IsFit insp)
    → (if not (is_empty_text best.web_socket_url) && leb_ℤ min_new_target_score best.score
        then some best
        else fallback)
      ≡ some insp
    → IsFit insp
decide-IsFit best fallback {insp} rest e =
    let fits = not (is_empty_text best.web_socket_url) && leb_ℤ min_new_target_score best.score in
    decide fits refl e
  where
    taken : BackendInspector → Option BackendInspector → BackendInspector
    taken other none = other
    taken other (some i) = i

    decide :
        (fits : Bool)
        → (not (is_empty_text best.web_socket_url) && leb_ℤ min_new_target_score best.score) ≡ fits
        → (if fits then some best else fallback) ≡ some insp
        → IsFit insp
    decide false c e = rest e
    decide true c e =
        let (full, high) = &&-cases (not (is_empty_text best.web_socket_url)) _ c in
        subst IsFit (ap (taken best) e) (full_text _ full, high)

diff-IsFit :
    (opts : TargetPickOptions) (before : List PortTarget) (targets : Targets)
    {insp : BackendInspector}
    → resolve_backend_inspector_with_diff targets before opts ≡ some insp
    → IsFit insp
unfolding resolve_backend_inspector_with_diff
diff-IsFit opts before targets {insp} e =
    decide-IsFit
      (best_of opts no_inspector
        (new_backend_targets opts (diff_new_targets before (snapshot_port_targets targets))))
      (resolve_backend_inspector targets opts) {insp = insp}
      (resolve-IsFit opts targets {insp = insp}) e

resolve-none :
    (opts : TargetPickOptions) (targets : Targets)
    → resolve_backend_inspector targets opts ≡ none
    → HasNone opts targets
resolve-none opts targets e =
    subst (Choice opts (snapshot_port_targets targets)) e
      (resolve_backend_inspector-Choice targets opts)

-- What a search promises: a fit inspector, or that `nothing` holds.
abbrev Outcome : Type 0 → Option BackendInspector → Type 0
Outcome nothing none = nothing
Outcome nothing (some insp) = IsFit insp

try-Outcome :
    (first next : Option BackendInspector) (A B : Type 0)
    → ((insp : BackendInspector) → first ≡ some insp → IsFit insp)
    → (first ≡ none → A)
    → Outcome B next
    → Outcome (A × B) (or_try first next)
try-Outcome none none A B fit missed h = (missed refl, h)
try-Outcome none (some insp) A B fit missed h = h
try-Outcome (some insp) next A B fit missed h = fit insp refl

Outcome-map : (o : Option BackendInspector) (A B : Type 0) → (A → B) → Outcome A o → Outcome B o
Outcome-map none A B f h = f h
Outcome-map (some insp) A B f h = h

-- No search of the rounds had a target that scores enough.
abbrev pub HaveNone : TargetPickOptions → List Search → Type 0
HaveNone opts = All (λ s. HasNone opts s.for_all)

search-Outcome :
    (opts : TargetPickOptions) (before : List PortTarget) (rounds : List Search)
    → Outcome (HaveNone opts rounds) (search_backend opts before rounds)
unfolding search_backend
search-Outcome opts before [] = tt
search-Outcome opts before (s ∷ rounds) =
    Outcome-map _ (Unit × (HasNone opts s.for_all × HaveNone opts rounds)) _ (λ h. h.1)
      (try-Outcome (resolve_backend_inspector_with_diff s.for_diff before opts) _ Unit _
        (λ insp e. diff-IsFit opts before s.for_diff {insp = insp} e) (λ e. tt)
        (try-Outcome (resolve_backend_inspector s.for_all opts) _ _ _
          (λ insp e. resolve-IsFit opts s.for_all {insp = insp} e) (resolve-none opts s.for_all)
          (search-Outcome opts before rounds)))

-- What the caller gets: the error of the hooks; an inspector to attach to; or an error, where no search had a target
-- that scores enough.
abbrev pub IsPrepared : Around → TargetPickOptions → Prepared → Type 0
IsPrepared env opts not_synced = Unit
IsPrepared env opts (found insp) = IsFit insp
IsPrepared env opts (restart_on port) =
    (pos inspector_port_min ≢ port) × HasNone opts env.at_first × HaveNone opts env.rounds
IsPrepared env opts no_target = HasNone opts env.at_first × HaveNone opts env.rounds

above_min : (port : ℤ) → ltb_ℤ (pos inspector_port_min) port ≡ true → pos inspector_port_min ≢ port
above_min port e same =
    let no : ltb_ℤ (pos inspector_port_min) (pos inspector_port_min) ≡ true =
      subst (λ p. ltb_ℤ (pos inspector_port_min) p ≡ true) (sym same) e in
    cc

not_found_error-IsPrepared :
    (env : Around) (opts : TargetPickOptions) (inspect_port : ℤ)
    → HasNone opts env.at_first
    → HaveNone opts env.rounds
    → IsPrepared env opts (not_found_error env.inspect_available inspect_port)
unfolding not_found_error
not_found_error-IsPrepared env opts inspect_port h k = named _
  where
    named :
        (port : ℤ)
        → IsPrepared env opts
            (if ltb_ℤ (pos inspector_port_min) port then restart_on port else no_target)
    named port = elim (Bool-cases (ltb_ℤ (pos inspector_port_min) port)) [
      | inl e ↦ rw e (above_min port e, h, k)
      | inr e ↦ rw e (h, k)
    ]

error-IsPrepared :
    (env : Around) (opts : TargetPickOptions) (o : Option BackendInspector) (error : Prepared)
    → Outcome (HasNone opts env.at_first × HaveNone opts env.rounds) o
    → (HasNone opts env.at_first → HaveNone opts env.rounds → IsPrepared env opts error)
    → IsPrepared env opts (or_error o error)
error-IsPrepared env opts none error (h, k) f = f h k
error-IsPrepared env opts (some insp) error h f = h

prepare_search-IsPrepared :
    (env : Around) (opts : TargetPickOptions) (inspect_port : ℤ)
    → IsPrepared env opts (prepare_search env opts inspect_port)
unfolding prepare_search
prepare_search-IsPrepared env opts inspect_port =
    error-IsPrepared env opts _ (not_found_error env.inspect_available inspect_port)
      (try-Outcome (resolve_backend_inspector env.at_first opts) _ _ _
        (λ insp e. resolve-IsFit opts env.at_first {insp = insp} e) (resolve-none opts env.at_first)
        (search-Outcome opts (snapshot_port_targets env.at_look) env.rounds))
      (not_found_error-IsPrepared env opts inspect_port)

-- Where `PrepareBackendInspector` returns an inspector, it has an address and scores at least 15. Where the hooks are in
-- place and it returns none, no target scored 25 or more, neither at the first search nor at the whole scan of
-- any round of the loop; a port that the error names to restart on is not 9229.
pub prepare_backend_inspector-IsPrepared :
    (io : Coders) (texts : HookTexts) (listening : ℕ → Bool) (env : Around) (d : Disk)
    (capture_root : Bytes) (opts : TargetPickOptions)
    → IsPrepared env opts (prepare_backend_inspector io texts listening env d capture_root opts).1
unfolding prepare_backend_inspector
prepare_backend_inspector-IsPrepared io texts listening env d capture_root opts =
    synced _ (sync_dev_script io texts listening d (root_of capture_root opts))
  where
    synced :
        (inspect_port : ℤ) (r : Disk × Synced)
        → IsPrepared env opts (after_sync env opts inspect_port r).1
    synced inspect_port (e, sync_failed) = tt
    synced inspect_port (e, unchanged) = prepare_search-IsPrepared env opts inspect_port
    synced inspect_port (e, patched) = prepare_search-IsPrepared env opts inspect_port
