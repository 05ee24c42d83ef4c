-- ===== src/Project/Root/Target.antt =====
-- The port and the command of a capture (pkg/project/project.go and ports.go).
use bug_it.Base.{
  ℤ, pos, ◌≡◌, refl, ap, subst, inl, inr, Bool, true, ◌&&◌, Option, none, some, if◌then◌else◌,
  ltb_ℤ, arith, Bool-cases,
}
use bug_it.Text.{Bytes, codes, bytes_eq}
use bug_it.Text.Path.{join}
use bug_it.Project.{
  Config, Scripts, dir_name, config_name, default_config, parse_dev_command, detect_dev_command,
}
use bug_it.Project.Disk.{Disk, Coders, missing, load_config, config_of, read_file, read_scripts}
use bug_it.Project.Ports.{
  resolve_backend_port, configured_port, detected_port, or_port, app_port_of, fallback_port,
  port_from_env_dirs, api_url_from_env, first_positive, web_folders,
}
use bug_it.Project.Root.{find_capture_root, resolve_capture_target, capture_target, target_with}

-- The settings file of a folder.
abbrev pub config_path : Bytes → Bytes
config_path root = join (join root dir_name) config_name

load_missing :
    (io : Coders) (d : Disk) (path : Bytes)
    → read_file d path ≡ missing
    → load_config io d path ≡ (default_config, true)
unfolding load_config
load_missing io d path e = ap (config_of io) e

target_eq :
    (io : Coders) (d : Disk) (workspace root : Bytes)
    → load_config io d (config_path root) ≡ (default_config, true)
    → capture_target io d workspace root ≡ record {
      root = root;
      dev_command = parse_dev_command (codes "npm run dev");
      public_port = pos 4000;
    }
unfolding capture_target target_with bytes_eq
target_eq io d workspace root e =
    ap
      (λ l.
        target_with root l.0 (resolve_backend_port io d workspace root)
          (detect_dev_command (read_scripts io d root)))
      e

-- Without a settings file, `ResolveCaptureTarget` takes port 4000 and `npm run dev`, whatever port the files of the
-- environment set and whatever scripts package.json has.
pub resolve_capture_target_default :
    (io : Coders) (d : Disk) (workspace : Bytes)
    → read_file d (config_path (find_capture_root io d workspace)) ≡ missing
    → resolve_capture_target io d workspace ≡ record {
      root = find_capture_root io d workspace;
      dev_command = parse_dev_command (codes "npm run dev");
      public_port = pos 4000;
    }
unfolding resolve_capture_target
resolve_capture_target_default io d workspace e =
    target_eq io d workspace (find_capture_root io d workspace)
      (load_missing io d (config_path (find_capture_root io d workspace)) e)

fallback_port-pos : (scripts : Option Scripts) → ltb_ℤ (pos 0) (fallback_port scripts) ≡ true
unfolding fallback_port
fallback_port-pos scripts = ground arith

app_port_of-pos :
    (file : Option Bytes) (loaded : Config × Bool) {p : ℤ}
    → app_port_of file loaded ≡ some p
    → ltb_ℤ (pos 0) p ≡ true
app_port_of-pos none loaded e = absurd (ground arith)
app_port_of-pos (some text) (cfg, ok) {p} e = elim (Bool-cases (ok && ltb_ℤ (pos 0) cfg.app_port)) [
  | inl k ↦
      let same : cfg.app_port ≡ p = ground arith in
      subst (λ r. ltb_ℤ (pos 0) r ≡ true) same (ground arith)
  | inr k ↦ absurd (ground arith)
]

or_port-pos :
    (configured : Option ℤ) (detected : ℤ)
    → ((p : ℤ) → configured ≡ some p → ltb_ℤ (pos 0) p ≡ true)
    → ltb_ℤ (pos 0) detected ≡ true
    → ltb_ℤ (pos 0) (or_port configured detected) ≡ true
or_port-pos none detected h k = k
or_port-pos (some p) detected h k = h p refl

first_of :
    (a b c e : ℤ)
    → ltb_ℤ (pos 0) e ≡ true
    → ltb_ℤ (pos 0) (
        if ltb_ℤ (pos 0) a
        then a
        else if ltb_ℤ (pos 0) b
        then b
        else if ltb_ℤ (pos 0) c
        then c
        else e)
      ≡ true
first_of a b c e h = elim (Bool-cases (ltb_ℤ (pos 0) a)) [
  | inl p ↦ rw p p
  | inr p ↦ elim (Bool-cases (ltb_ℤ (pos 0) b)) [
    | inl q ↦ rw p (rw q q)
    | inr q ↦ elim (Bool-cases (ltb_ℤ (pos 0) c)) [
      | inl r ↦ rw p (rw q (rw r r))
      | inr r ↦ rw p (rw q (rw r h))
    ]
  ]
]

-- `ResolveBackendPort` returns a positive port on every disk.
pub resolve_backend_port-pos :
    (io : Coders) (d : Disk) (workspace capture_root : Bytes)
    → ltb_ℤ (pos 0) (resolve_backend_port io d workspace capture_root) ≡ true
unfolding resolve_backend_port configured_port detected_port
resolve_backend_port-pos io d workspace capture_root =
    or_port-pos _ _
      (λ p e.
        app_port_of-pos (d.files (config_path capture_root))
          (load_config io d (config_path capture_root)) e)
      (first_of (port_from_env_dirs d capture_root)
        (first_positive (λ rel. api_url_from_env d (join workspace rel)) web_folders)
        (api_url_from_env d workspace) (fallback_port (read_scripts io d capture_root))
        (fallback_port-pos (read_scripts io d capture_root)))
