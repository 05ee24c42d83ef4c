-- ===== src/Project/Root.antt =====
-- The folder a capture runs in, and what it runs (pkg/project/project.go).
pub mod Search
pub mod Target
use bug_it.Base.{
  ℕ, zero, suc, ℤ, pos, ◌+◌, ◌≤◌, ◌<◌, ◌≡◌, refl, ap, sym, ◌∙◌, ◌⊎◌, inl, inr, Bool, true, false,
  not, List, [], ◌∷◌, Option, none, some, if◌then◌else◌, leb_ℤ, length, arith, Bool-cases,
  Option-cases,
}
use bug_it.Text.{Bytes, codes, bytes_eq, bytes_eq_sound}
use bug_it.Text.Path.{join, dir, is_abs, before_last}
use bug_it.Inspector.{is_empty_text}
use bug_it.Project.{
  Config, Scripts, dir_name, config_name, package_json, has_dev_scripts, detect_dev_command,
  parse_dev_command, default_config,
}
use bug_it.Project.Disk.{Disk, Coders, load_config, read_scripts, read_file, missing}
use bug_it.Project.Ports.{resolve_backend_port}

-- `hasDevPackageJSON` of a folder.
unfoldable pub has_dev : Coders → Disk → Bytes → Bool
has_dev io d folder = has_dev_scripts (read_scripts io d folder)

-- One round of `readCachedCaptureRoot`.
unfoldable pub cached_at : Coders → Disk → Bytes → Option Bytes
cached_at io d base =
    let (cfg, ok) = load_config io d (join (join base dir_name) config_name) in
    if not ok
    then none
    else if is_empty_text cfg.capture_root
    then none
    else some (if is_abs cfg.capture_root then cfg.capture_root else join base cfg.capture_root)

unfoldable pub read_cached_capture_root : Coders → Disk → Bytes → Option Bytes
read_cached_capture_root io d workspace = elim (cached_at io d workspace) [
  | some root ↦ some root
  | none ↦ cached_at io d (dir workspace)
]

abbrev pub sub_folders : List Bytes
sub_folders =
    codes "backend" ∷ codes "server" ∷ codes "api" ∷ codes "apps/api" ∷ codes "packages/api" ∷ []

unfoldable pub first_with_dev : (Bytes → Bool) → Bytes → List Bytes → Option Bytes
first_with_dev has folder [] = none
first_with_dev has folder (sub ∷ subs) =
    let rest = first_with_dev has folder subs in
    if has (join folder sub) then some (join folder sub) else rest

-- How the loop that walks up ends: by `return`, by `break`, or not within the rounds that it is given.
pub data Walk : Type 0 where
  found : Bytes → Walk
  at_top : Walk
  out_of_rounds : Walk

-- The loop that walks up. Each round shortens the path, so that its length is fuel enough.
unfoldable pub walk_up : (Bytes → Bool) → ℕ → Bytes → Walk
walk_up has zero folder = out_of_rounds
walk_up has (suc fuel) folder =
    let parent = dir folder in
    let rest = walk_up has fuel parent in
    if has folder then found folder else if bytes_eq parent folder then at_top else rest

-- The folder behind the loop.
abbrev pub walked : Walk → Bytes → Bytes
walked (found folder) root = folder
walked at_top root = root
walked out_of_rounds root = root

abbrev pub or_else_root : Option Bytes → Bytes → Bytes
or_else_root none root = root
or_else_root (some found') root = found'

-- The cached folder, where its package.json is there.
unfoldable pub usable_cached : Coders → Disk → Bytes → Option Bytes
usable_cached io d folder = elim (read_cached_capture_root io d folder) [
  | none ↦ none
  | some cached ↦ elim (d.files (join cached package_json)) [
    | none ↦ none
    | some text ↦ some cached
  ]
]

-- `FindCaptureRoot` of an absolute path, behind the cache.
unfoldable pub searched_root : Coders → Disk → Bytes → Bytes
searched_root io d folder =
    if has_dev io d folder
    then folder
    else or_else_root (first_with_dev (has_dev io d) folder sub_folders)
        (walked (walk_up (has_dev io d) (suc (length folder)) folder) folder)

unfoldable pub find_capture_root : Coders → Disk → Bytes → Bytes
find_capture_root io d folder = or_else_root (usable_cached io d folder) (searched_root io d folder)

pub record CaptureTarget : Type 0 where
  pub root : Bytes
  pub dev_command : List Bytes
  pub public_port : ℤ

-- `ResolveCaptureTarget` behind `FindCaptureRoot`: what the settings leave open is detected.
unfoldable pub target_with : Bytes → Config → ℤ → Bytes → CaptureTarget
target_with root cfg detected command = record {
  root = root;
  dev_command =
      parse_dev_command (if is_empty_text cfg.dev_command then command else cfg.dev_command);
  public_port = if leb_ℤ cfg.app_port (pos 0) then detected else cfg.app_port;
}

unfoldable pub capture_target : Coders → Disk → Bytes → Bytes → CaptureTarget
capture_target io d workspace root =
    target_with root (load_config io d (join (join root dir_name) config_name)).0
      (resolve_backend_port io d workspace root) (detect_dev_command (read_scripts io d root))

unfoldable pub resolve_capture_target : Coders → Disk → Bytes → CaptureTarget
resolve_capture_target io d workspace =
    capture_target io d workspace (find_capture_root io d workspace)
