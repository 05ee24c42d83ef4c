-- ===== src/Inspector/Pick.antt =====
-- Which target is attached to (pkg/captureattach/cdp_session.go and inspect.go).
pub mod Best
pub mod Fresh
use bug_it.Base.{
  ℕ, zero, suc, ℤ, pos, negsuc, ◌+◌, ◌-◌, Bool, true, false, not, ◌&&◌, ◌||◌, List, [], ◌∷◌, ◌++◌,
  Option, none, some, leb, ◌==◌, if◌then◌else◌, ltb_ℤ, leb_ℤ, map,
}
use bug_it.Text.{Bytes, bytes_eq}
use bug_it.Text.Search.{contains}
use bug_it.Text.Path.{base}
use bug_it.LocalCapture.{format_int}
use bug_it.Inspector.{
  min_backend_target_score, min_new_target_score, default_backend_inspect_port, inspector_port_min,
  inspector_port_max, InspectTarget, TargetPickOptions, BackendInspector, PortTarget,
  normalize_path_for_match, is_empty_text, score_target,
}

-- The loop of `PickInspectTarget`, with its `bestScore` and `bestURL`.
unfoldable pub pick_from : List InspectTarget → TargetPickOptions → ℤ → Bytes → Bytes × ℤ
pick_from [] opts best_score best_url = (best_url, best_score)
pick_from (t ∷ targets) opts best_score best_url =
    let score = score_target t opts in
    let better = pick_from targets opts score t.web_socket_debugger_url in
    let kept = pick_from targets opts best_score best_url in
    if ltb_ℤ best_score score then better else kept

unfoldable pub pick_inspect_target : List InspectTarget → TargetPickOptions → Bytes
pick_inspect_target targets opts =
    let best = pick_from targets opts (negsuc 0) [] in
    if not (is_empty_text best.0) && leb_ℤ min_backend_target_score best.1 then best.0 else []

abbrev pub no_inspector : BackendInspector
no_inspector = record { port = 0; web_socket_url = []; title = []; url = []; score = negsuc 0 }

-- One round of the loops that keep the best target so far, with its port.
unfoldable pub better : TargetPickOptions → BackendInspector → PortTarget → BackendInspector
better opts best pt =
    let score = score_target pt.target opts in
    if ltb_ℤ best.score score
    then record {
      port = pt.port;
      web_socket_url = pt.target.web_socket_debugger_url;
      title = pt.target.title;
      url = pt.target.url;
      score = score;
    }
    else best

unfoldable pub best_of : TargetPickOptions → BackendInspector → List PortTarget → BackendInspector
best_of opts best [] = best
best_of opts best (pt ∷ pts) = best_of opts (better opts best pt) pts

-- The targets of one port; `PickInspectTargetInfo` leaves the port at 0.
unfoldable pub with_port : ℕ → List InspectTarget → List PortTarget
with_port port targets = map (λ t. record { port = port; target = t }) targets

unfoldable pub pick_inspect_target_info : List InspectTarget → TargetPickOptions → BackendInspector
pick_inspect_target_info targets opts = best_of opts no_inspector (with_port 0 targets)

unfoldable pub target_identity : ℕ → InspectTarget → Bytes
target_identity port t =
    let front = format_int (pos port) ++ b':' ∷ [] in
    if not (is_empty_text t.id)
    then front ++ t.id
    else if not (is_empty_text t.web_socket_debugger_url)
    then front ++ t.web_socket_debugger_url
    else front ++ t.title ++ b':' ∷ t.url

unfoldable pub is_new_backend_target : ℕ → InspectTarget → TargetPickOptions → Bool
is_new_backend_target port t opts =
    let root_norm = normalize_path_for_match opts.capture_root in
    let url_norm = normalize_path_for_match t.url in
    if port == inspector_port_min
    then false
    else if not (is_empty_text root_norm)
        && not (contains url_norm root_norm)
        && not (contains url_norm (base root_norm))
    then false
    else leb_ℤ min_new_target_score (score_target t opts)

-- The keys of `seen`.
unfoldable pub identities : List PortTarget → List Bytes
identities before = map (λ pt. target_identity pt.port pt.target) before

unfoldable pub is_seen : Bytes → List Bytes → Bool
is_seen key [] = false
is_seen key (k ∷ seen) = bytes_eq key k || is_seen key seen

unfoldable pub unseen_targets : List Bytes → List PortTarget → List PortTarget
unseen_targets seen [] = []
unseen_targets seen (pt ∷ after) =
    let out = unseen_targets seen after in
    if is_seen (target_identity pt.port pt.target) seen then out else pt ∷ out

unfoldable pub diff_new_targets : List PortTarget → List PortTarget → List PortTarget
diff_new_targets before after = unseen_targets (identities before) after

-- The new targets that the loop of `ResolveBackendInspectorWithDiff` does not skip.
unfoldable pub new_backend_targets : TargetPickOptions → List PortTarget → List PortTarget
new_backend_targets opts [] = []
new_backend_targets opts (pt ∷ pts) =
    let rest = new_backend_targets opts pts in
    if is_new_backend_target pt.port pt.target opts then pt ∷ rest else rest

-- `list_targets port` is what the inspector on the port answers: `none` is an error.
module _ (list_targets : ℕ → Option (List InspectTarget)) where
  -- The targets of `n` ports from `port` on, in order; an error or an empty list adds none.
  unfoldable pub scan_ports : ℕ → ℕ → List PortTarget
  scan_ports zero port = []
  scan_ports (suc n) port =
      let rest = scan_ports n (suc port) in
      elim (list_targets port) [ none ↦ rest | some targets ↦ with_port port targets ++ rest ]

  -- `SnapshotPortTargets`: the eleven ports from 9229 to 9239.
  unfoldable pub snapshot_port_targets : List PortTarget
  snapshot_port_targets =
      scan_ports (inspector_port_max + 1 - inspector_port_min) inspector_port_min

  unfoldable pub resolve_backend_inspector : TargetPickOptions → Option BackendInspector
  resolve_backend_inspector opts =
      let best = best_of opts no_inspector snapshot_port_targets in
      if is_empty_text best.web_socket_url || ltb_ℤ best.score min_backend_target_score
      then none
      else some best

  unfoldable pub resolve_backend_inspector_with_diff :
      List PortTarget → TargetPickOptions → Option BackendInspector
  resolve_backend_inspector_with_diff before opts =
      let new_targets = diff_new_targets before snapshot_port_targets in
      let best_new = best_of opts no_inspector (new_backend_targets opts new_targets) in
      if not (is_empty_text best_new.web_socket_url) && leb_ℤ min_new_target_score best_new.score
      then some best_new
      else resolve_backend_inspector opts

  unfoldable pub score_inspect_port : ℕ → TargetPickOptions → ℤ
  score_inspect_port port opts = elim (list_targets port) [
    | none ↦ negsuc 0
    | some [] ↦ negsuc 0
    | some (t ∷ targets) ↦ (pick_inspect_target_info (t ∷ targets) opts).score
  ]

  -- `ListAllInspectTargets`, on `n` ports from `port` on.
  unfoldable pub list_all_from : ℕ → ℕ → List (ℕ × List InspectTarget)
  list_all_from zero port = []
  list_all_from (suc n) port =
      let rest = list_all_from n (suc port) in
      elim (list_targets port) [
        | none ↦ rest
        | some [] ↦ rest
        | some (t ∷ targets) ↦ (port, t ∷ targets) ∷ rest
      ]

-- `inspect_available port`: something answers the inspector's request on the port.
module _ (inspect_available : ℕ → Bool) where
  -- The loop of `FindFreeInspectorPort` over `n` ports.
  unfoldable pub free_port_from : ℕ → ℕ → ℕ
  free_port_from zero port = default_backend_inspect_port
  free_port_from (suc n) port =
      let next = free_port_from n (suc port) in if inspect_available port then next else port

  unfoldable pub find_free_inspector_port : ℕ
  find_free_inspector_port =
      if inspect_available inspector_port_min
      then free_port_from (inspector_port_max + 1 - default_backend_inspect_port)
          default_backend_inspect_port
      else inspector_port_min
