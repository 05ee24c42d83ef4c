-- ===== src/Inspector/Prepare.antt =====
-- `PrepareBackendInspector` and `EnableNodeInspectOnFreePort` (pkg/captureattach/inspect.go).
pub mod Found
use bug_it.Base.{
  ℕ, ℤ, pos, ◌≡◌, ◌≢◌, refl, ap, sym, inl, inr, Bool, true, false, not, ◌&&◌, List, [], ◌∷◌, Option,
  none, some, ◌==◌, if◌then◌else◌, ltb_ℤ, leb_ℤ, All, Bool-cases, &&-cases, subst, arith,
}
use bug_it.Text.{Bytes}
use bug_it.Inspector.{
  InspectTarget, TargetPickOptions, BackendInspector, PortTarget, min_backend_target_score,
  min_new_target_score, inspector_port_min, is_empty_text,
}
use bug_it.Inspector.Pick.{
  snapshot_port_targets, resolve_backend_inspector, resolve_backend_inspector_with_diff,
  find_free_inspector_port, best_of, no_inspector, new_backend_targets, diff_new_targets,
}
use bug_it.Inspector.Pick.Best.{IsBelow}
use bug_it.Inspector.Pick.Best.Chosen.{Choice, resolve_backend_inspector-Choice}
use bug_it.Project.Disk.{Disk, Coders, ensure_layout}
use bug_it.Project.Hooks.{
  HookTexts, Synced, sync_failed, unchanged, patched, sync_dev_script, choose_inspect_port,
}

abbrev pub Targets : Type 0
Targets = ℕ → Option (List InspectTarget)

-- One round of the loop before the deadline: what the inspectors answer to its two searches.
pub record Search : Type 0 where
  pub for_diff : Targets
  pub for_all : Targets

-- What happens outside: the inspectors at the first search and at the look before the loop, the ports that answer,
-- and the rounds of the loop.
pub record Around : Type 0 where
  pub at_first : Targets
  pub at_look : Targets
  pub inspect_available : ℕ → Bool
  pub rounds : List Search

-- `EnableNodeInspectOnFreePort`: whether it asks the process for its inspector.
unfoldable pub asks_process : (ℕ → Bool) → ℤ → Bool
asks_process inspect_available pid =
    ltb_ℤ (pos 0) pid && (find_free_inspector_port inspect_available == inspector_port_min)

abbrev pub or_try : Option BackendInspector → Option BackendInspector → Option BackendInspector
or_try none next = next
or_try (some insp) next = some insp

unfoldable pub search_backend :
    TargetPickOptions → List PortTarget → List Search → Option BackendInspector
search_backend opts before [] = none
search_backend opts before (s ∷ rounds) =
    or_try (resolve_backend_inspector_with_diff s.for_diff before opts)
      (or_try (resolve_backend_inspector s.for_all opts) (search_backend opts before rounds))

pub data Prepared : Type 0 where
  not_synced : Prepared
  found : BackendInspector → Prepared
  restart_on : ℤ → Prepared
  no_target : Prepared

-- The two errors at the end, by the port that the error names.
unfoldable pub not_found_error : (ℕ → Bool) → ℤ → Prepared
not_found_error inspect_available inspect_port =
    let free_port =
      if ltb_ℤ (pos 0) inspect_port
      then inspect_port
      else pos (find_free_inspector_port inspect_available) in
    if ltb_ℤ (pos inspector_port_min) free_port then restart_on free_port else no_target

-- An inspector that was found, or the errors at the end.
abbrev pub or_error : Option BackendInspector → Prepared → Prepared
or_error none error = error
or_error (some insp) error = found insp

-- What follows the hooks: the first search, and the loop with its look before.
unfoldable pub prepare_search : Around → TargetPickOptions → ℤ → Prepared
prepare_search env opts inspect_port =
    or_error
      (or_try (resolve_backend_inspector env.at_first opts)
        (search_backend opts (snapshot_port_targets env.at_look) env.rounds))
      (not_found_error env.inspect_available inspect_port)

abbrev pub after_sync : Around → TargetPickOptions → ℤ → Disk × Synced → Disk × Prepared
after_sync env opts inspect_port (d, sync_failed) = (d, not_synced)
after_sync env opts inspect_port (d, unchanged) = (d, prepare_search env opts inspect_port)
after_sync env opts inspect_port (d, patched) = (d, prepare_search env opts inspect_port)

abbrev pub root_of : Bytes → TargetPickOptions → Bytes
root_of root opts = if is_empty_text root then opts.capture_root else root

-- `PrepareBackendInspector` of an absolute folder.
unfoldable pub prepare_backend_inspector :
    Coders → HookTexts → (ℕ → Bool) → Around → Disk → Bytes → TargetPickOptions → Disk × Prepared
prepare_backend_inspector io texts listening env d capture_root opts =
    let root = root_of capture_root opts in
    after_sync env opts (choose_inspect_port io listening (ensure_layout d root).0 root)
      (sync_dev_script io texts listening d root)
