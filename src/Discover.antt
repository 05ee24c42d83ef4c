-- ===== src/Discover.antt =====
-- pkg/discover/discover.go: the local services of a workspace.
use bug_it.Base.{
  ℕ, ℤ, pos, ◌≡◌, refl, inl, inr, Bool, true, ◌||◌, List, [], ◌∷◌, Option, none, some,
  if◌then◌else◌, ltb_ℤ, leb_ℤ, ◌==◌, arith, Bool-cases,
}
use bug_it.Text.{Bytes, codes, has_prefix}
use bug_it.Text.Search.{cut}
use bug_it.Text.Trim.{trim_space}
use bug_it.Text.Path.{join}
use bug_it.Text.Split.{split_byte}
use bug_it.Inspector.{TargetPickOptions, BackendInspector, InspectTarget}
use bug_it.Inspector.Pick.{resolve_backend_inspector}
use bug_it.Project.{dir_name, config_name, Config}
use bug_it.Project.Disk.{Disk, content, missing, failed, read_file, Coders, load_config}
use bug_it.Project.Ports.{api_url_from_env, first_positive, port_from_url, resolve_backend_port}
use bug_it.Project.Root.{find_capture_root}

pub record Result : Type 0 where
  pub workspace : Bytes
  pub capture_root : Bytes
  pub backend_port : ℤ
  pub frontend_port : ℤ
  pub backend_pid : ℤ
  pub inspect_port : ℤ

-- `strings.Trim(s, "\"' ")`
abbrev is_edge : ℕ → Bool
is_edge c = c == b'"' || c == 39 || c == 32

unfoldable pub trim_edges_left : Bytes → Bytes
trim_edges_left [] = []
trim_edges_left (c ∷ s) = if is_edge c then trim_edges_left s else c ∷ s

unfoldable pub trim_edges_right : Bytes → Bytes
trim_edges_right [] = []
trim_edges_right (c ∷ s) = elim (trim_edges_right s) [
  | [] ↦ if is_edge c then [] else c ∷ []
  | d ∷ t ↦ c ∷ d ∷ t
]

abbrev behind_equals : Bytes × Option Bytes → Bytes
behind_equals (front, none) = []
behind_equals (front, some value) = value

-- The port of one line, 0 where it sets none.
unfoldable pub frontend_line : Bytes → ℤ
frontend_line line =
    let trimmed = trim_space line in
    let value = behind_equals (cut trimmed (b'=' ∷ [])) in
    if has_prefix trimmed (codes "NEXTAUTH_URL=")
      || has_prefix trimmed (codes "NEXT_PUBLIC_APP_URL=")
    then port_from_url (trim_edges_right (trim_edges_left value))
    else pos 0

unfoldable pub first_line_port : List Bytes → ℤ
first_line_port [] = pos 0
first_line_port (line ∷ lines) =
    let rest = first_line_port lines in
    if ltb_ℤ (pos 0) (frontend_line line) then frontend_line line else rest

unfoldable pub frontend_file_port : Disk → Bytes → ℤ
frontend_file_port d path = elim (read_file d path) [
  | content text ↦ first_line_port (split_byte 10 text)
  | missing ↦ pos 0
  | failed ↦ pos 0
]

unfoldable pub frontend_port_from_env : Disk → Bytes → ℤ
frontend_port_from_env d folder =
    first_positive (λ name. frontend_file_port d (join folder name))
      (codes ".env" ∷ codes ".env.local" ∷ [])

-- A later folder that names a port replaces it.
abbrev pub replaced : ℤ → ℤ → ℤ
replaced old new_port = if ltb_ℤ (pos 0) new_port then new_port else old

-- The loop of `Discover` over the folders.
unfoldable pub scan_folders : Disk → List Bytes → ℤ × ℤ → ℤ × ℤ
scan_folders d [] ports = ports
scan_folders d (folder ∷ folders) (backend, frontend) = scan_folders d folders (
  replaced backend (api_url_from_env d folder),
  replaced frontend (frontend_port_from_env d folder),
)

abbrev pub or_default : ℤ → ℤ → ℤ
or_default port default' = if leb_ℤ port (pos 0) then default' else port

abbrev pub folders_of : Bytes → List Bytes
folders_of root =
    root
    ∷ join root (codes "web")
    ∷ join root (codes "frontend")
    ∷ join root (codes "client")
    ∷ join root (codes "apps/web")
    ∷ []

abbrev inspector_port : Option BackendInspector → Config → ℤ
inspector_port (some insp) cfg = pos insp.port
inspector_port none cfg = if ltb_ℤ (pos 0) cfg.inspect_port then cfg.inspect_port else pos 0

-- What is seen outside of the disk: the answers of the inspectors, the listeners and their processes.
pub record Outside : Type 0 where
  pub list_targets : ℕ → Option (List InspectTarget)
  pub is_listening : ℤ → Bool
  pub pid_listening_on : ℤ → ℤ

-- `FindInspectPortForBackend`
unfoldable pub find_inspect_port_for_backend : Outside → Coders → Disk → TargetPickOptions → ℤ
find_inspect_port_for_backend env io d opts =
    inspector_port (resolve_backend_inspector env.list_targets opts)
      (load_config io d (join (join opts.capture_root dir_name) config_name)).0

-- `Discover` of an absolute workspace.
unfoldable pub discover : Outside → Coders → Disk → Bytes → Result
discover env io d workspace =
    let root = find_capture_root io d workspace in
    let (backend, frontend) =
      scan_folders d (folders_of workspace) (resolve_backend_port io d workspace root, pos 0) in
    let backend_port = or_default backend (pos 4000) in
    let pid = if env.is_listening backend_port then env.pid_listening_on backend_port else pos 0 in
    record {
      workspace = workspace;
      capture_root = root;
      backend_port = backend_port;
      frontend_port = or_default frontend (pos 3000);
      backend_pid = pid;
      inspect_port =
          find_inspect_port_for_backend env io d
            (record { backend_port = backend_port; backend_pid = pid; capture_root = root });
    }

or_default-pos : (a b : ℤ) → ltb_ℤ (pos 0) b ≡ true → ltb_ℤ (pos 0) (or_default a b) ≡ true
or_default-pos a b h = elim (Bool-cases (leb_ℤ a (pos 0))) [
  | inl e ↦ rw e h
  | inr e ↦ rw e (ground arith)
]

-- Whatever the files of a workspace hold, the ports that `Discover` reports for the backend and the frontend are
-- positive.
pub discover-pos :
    (env : Outside) (io : Coders) (d : Disk) (workspace : Bytes)
    → let found = discover env io d workspace in
      (ltb_ℤ (pos 0) found.backend_port ≡ true) × (ltb_ℤ (pos 0) found.frontend_port ≡ true)
unfolding discover
discover-pos env io d workspace =
    let root = find_capture_root io d workspace in
    let ports =
      scan_folders d (folders_of workspace) (resolve_backend_port io d workspace root, pos 0) in
    (or_default-pos ports.0 (pos 4000) refl, or_default-pos ports.1 (pos 3000) refl)
