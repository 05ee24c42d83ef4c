-- ===== src/Inspector.antt =====
-- pkg/captureattach/cdp_session.go: the debug targets of the local Node inspectors, and how well each
-- of them fits the backend process.
pub mod Pick
pub mod Json
pub mod Session
pub mod Tap
pub mod Prepare
use bug_it.Base.{
  ℕ, ℤ, pos, negsuc, ◌+◌, Bool, true, false, not, ◌&&◌, ◌||◌, List, [], ◌∷◌, ◌++◌, ltb, leb, ◌==◌,
  if◌then◌else◌, ltb_ℤ, eq_ℤ, drop, length,
}
use bug_it.Text.{Bytes, codes, bytes_eq, to_lower, trim_prefix}
use bug_it.Text.Search.{contains, has_suffix}
use bug_it.Text.Trim.{trim_space}
use bug_it.Text.Path.{replace_byte, remove_byte, base}
use bug_it.LocalCapture.{format_int}

abbrev pub min_backend_target_score : ℤ
min_backend_target_score = pos 25

abbrev pub min_new_target_score : ℤ
min_new_target_score = pos 15

abbrev pub default_backend_inspect_port : ℕ
default_backend_inspect_port = 9230

abbrev pub inspector_port_min : ℕ
inspector_port_min = 9229

abbrev pub inspector_port_max : ℕ
inspector_port_max = 9239

-- `kind` is the field `Type`.
pub record InspectTarget : Type 0 where
  pub id : Bytes
  pub kind : Bytes
  pub title : Bytes
  pub url : Bytes
  pub description : Bytes
  pub web_socket_debugger_url : Bytes

pub record TargetPickOptions : Type 0 where
  pub backend_port : ℤ
  pub backend_pid : ℤ
  pub capture_root : Bytes

pub record BackendInspector : Type 0 where
  pub port : ℕ
  pub web_socket_url : Bytes
  pub title : Bytes
  pub url : Bytes
  pub score : ℤ

pub record PortTarget : Type 0 where
  pub port : ℕ
  pub target : InspectTarget

-- `path[1] == ':'`, where there are two bytes.
abbrev has_drive : Bytes → Bool
has_drive [] = false
has_drive (c ∷ []) = false
has_drive (c ∷ d ∷ path) = d == b':'

unfoldable pub normalize_path_for_match : Bytes → Bytes
normalize_path_for_match path =
    let lowered = to_lower (trim_space path) in
    let slashed = replace_byte b'\\' b'/' (trim_prefix lowered (codes "file://")) in
    if has_drive slashed then remove_byte b':' slashed else slashed

unfoldable pub is_disqualified_target : Bytes → Bytes → Bytes → ℤ → Bool
is_disqualified_target title url desc frontend_port =
    let joined = title ++ b' ' ∷ url ++ b' ' ∷ desc in
    (contains joined (codes "next.js") || contains joined (codes "next dev"))
    || (contains joined (codes "next/") && contains joined (codes "node_modules"))
    || (ltb_ℤ (pos 0) frontend_port
        && contains joined (b':' ∷ format_int frontend_port)
        && not (contains joined (codes "server.js")))
    || (contains title (codes "next") && contains url (codes ".next"))

abbrev pub is_empty_text : Bytes → Bool
is_empty_text s = bytes_eq s []

-- `if cond { score += n }`
abbrev points : Bool → ℕ → ℕ
points cond n = if cond then n else 0

-- The points of a target that is not disqualified, in the order in which they are added.
unfoldable pub target_points : InspectTarget → TargetPickOptions → ℕ
target_points t opts =
    let title = to_lower t.title in
    let url = to_lower t.url in
    let desc = to_lower t.description in
    let root_norm = normalize_path_for_match opts.capture_root in
    let url_norm = normalize_path_for_match t.url in
    let port_str = format_int opts.backend_port in
    let pid_str = format_int opts.backend_pid in
    let root_base = to_lower (base opts.capture_root) in
    points (bytes_eq t.kind (codes "node") || is_empty_text t.kind) 10
    + points
        (not (is_empty_text root_norm)
          && not (is_empty_text url_norm)
          && contains url_norm root_norm)
        40
    + points (has_suffix url_norm (codes "server.js") || contains url_norm (codes "/server.js")) 15
    + points (contains title (codes "server.js")) 10
    + points (ltb_ℤ (pos 0) opts.backend_pid && (contains title pid_str || contains desc pid_str))
        25
    + points
        (ltb_ℤ (pos 0) opts.backend_port
          && (contains title port_str || contains url port_str || contains desc port_str))
        8
    + points
        (not (is_empty_text root_base)
          && not (bytes_eq root_base (codes "."))
          && (contains title root_base || contains url_norm root_base))
        5

unfoldable pub score_target : InspectTarget → TargetPickOptions → ℤ
score_target t opts =
    let frontend_port = if eq_ℤ opts.backend_port (pos 3000) then pos 0 else pos 3000 in
    if is_empty_text t.web_socket_debugger_url
    then negsuc 0
    else if is_disqualified_target (to_lower t.title) (to_lower t.url) (to_lower t.description)
        frontend_port
    then negsuc 0
    else pos (target_points t opts)
