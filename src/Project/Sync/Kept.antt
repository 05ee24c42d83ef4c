-- ===== src/Project/Sync/Kept.antt =====
-- The settings that are saved are those that are loaded again (pkg/project/project.go).
use bug_it.Base.{
  ℤ, pos, ◌≡◌, refl, ap, ◌∙◌, ◌≢◌, inl, inr, Bool, true, false, Option, none, some, if◌then◌else◌,
  arith, Bool-cases, ltb_ℤ, leb_ℤ,
}
use bug_it.Text.{Bytes, codes, bytes_eq}
use bug_it.Inspector.{is_empty_text}
use bug_it.Project.{Config, Scripts, layout_for, prepare_config, detect_dev_command, fmt_host_port}
use bug_it.Project.Disk.{
  Disk, failed, Coders, IsCoder, read_file, load_config, save_config, ensure_layout, read_scripts,
  gitignore_path,
}
use bug_it.Project.Ports.{resolve_backend_port}
use bug_it.Project.Root.Target.{resolve_backend_port-pos}
use bug_it.Project.Sync.{synced_config, saved, sync_loaded, sync_layout, sync_workspace_config}
use bug_it.Project.Sync.Loaded.{decode-encode, load-IsLoaded, loaded_open, loaded_key, load-save}
use bug_it.Project.Sync.Written.{IsWritable, save_config-succeeds, ensure_layout-succeeds}

detect-full : (scripts : Option Scripts) → is_empty_text (detect_dev_command scripts) ≡ false
unfolding detect_dev_command bytes_eq
detect-full none = refl
detect-full (some scripts) = elim (Bool-cases (is_empty_text scripts.dev)) [
  | inr e ↦ rw e refl
  | inl e ↦ elim (Bool-cases (is_empty_text scripts.start)) [
    | inl k ↦ rw e (rw k refl)
    | inr k ↦ rw e (rw k refl)
  ]
]

-- The settings of a synchronised project fit together.
abbrev pub IsSynced : Bytes → Config → Type 0
IsSynced root cfg =
    (ltb_ℤ (pos 0) cfg.app_port ≡ true)
    × (ltb_ℤ (pos 0) cfg.inspect_port ≡ true)
    × (is_empty_text cfg.dev_command ≡ false)
    × (cfg.record_proxy ≡ fmt_host_port (codes "127.0.0.1") cfg.app_port)
    × (cfg.capture_root ≡ root)

positive-or :
    (a b : ℤ) → ltb_ℤ (pos 0) b ≡ true → ltb_ℤ (pos 0) (if leb_ℤ a (pos 0) then b else a) ≡ true
positive-or a b h = elim (Bool-cases (leb_ℤ a (pos 0))) [
  | inl e ↦ rw e h
  | inr e ↦ rw e (ground arith)
]

full-or :
    (a b : Bytes)
    → is_empty_text b ≡ false
    → is_empty_text (if is_empty_text a then b else a) ≡ false
full-or a b h = elim (Bool-cases (is_empty_text a)) [ inl e ↦ rw e h | inr e ↦ rw e e ]

synced_config-IsSynced :
    (root : Bytes) (detected_port : ℤ) (detected_command : Bytes) (cfg : Config)
    → ltb_ℤ (pos 0) detected_port ≡ true
    → is_empty_text detected_command ≡ false
    → IsSynced root (synced_config root detected_port detected_command cfg)
unfolding synced_config prepare_config
synced_config-IsSynced root detected_port detected_command cfg p c =
    let port = positive-or cfg.app_port detected_port p in
    let command = full-or cfg.dev_command detected_command c in
    elim (Bool-cases (ltb_ℤ (pos 0) cfg.inspect_port)) [
      | inl e ↦ rw e (port, e, command, refl, refl)
      | inr e ↦ rw e (port, positive-or cfg.inspect_port (pos 9229) refl, command, refl, refl)
    ]

synced_config-key :
    (root : Bytes) (detected_port : ℤ) (detected_command : Bytes) (cfg : Config)
    → (synced_config root detected_port detected_command cfg).snapshot_key ≡ cfg.snapshot_key
unfolding synced_config prepare_config
synced_config-key root detected_port detected_command cfg =
    elim (Bool-cases (ltb_ℤ (pos 0) cfg.inspect_port)) [ inl e ↦ rw e refl | inr e ↦ rw e refl ]

-- What a synchronisation leaves that has no error: settings that fit together, and that are loaded again.
abbrev pub IsKept : Coders → Bytes → Disk × Option Config → Type 0
IsKept io root (d, none) = ⊥
IsKept io root (d, some cfg) =
    IsSynced root cfg × (load_config io d (layout_for root).config_path ≡ (cfg, true))

saved-IsKept :
    (io : Coders) (root : Bytes) (cfg : Config) (r : Disk × Bool)
    → IsSynced root cfg
    → r.1 ≡ true
    → load_config io r.0 (layout_for root).config_path ≡ (cfg, true)
    → IsKept io root (saved cfg r)
saved-IsKept io root cfg (d, true) s ok h = (s, h)
saved-IsKept io root cfg (d, false) s ok h = absurd (ground arith)

sync_loaded-IsKept :
    (io : Coders) (root : Bytes) (d : Disk) (r : Config × Bool)
    → IsCoder io
    → IsWritable d
    → load_config io d (layout_for root).config_path ≡ r
    → r.1 ≡ true
    → IsKept io root (sync_loaded io root d r)
sync_loaded-IsKept io root d (cfg, false) law w e ok = absurd (ground arith)
sync_loaded-IsKept io root d (cfg, true) law w e ok =
    let path = (layout_for root).config_path in
    let port = resolve_backend_port io d root root in
    let command = detect_dev_command (read_scripts io d root) in
    let new_cfg = synced_config root port command cfg in
    let synced =
      synced_config-IsSynced root port command cfg (resolve_backend_port-pos io d root root)
        (detect-full (read_scripts io d root)) in
    let loaded = load-IsLoaded io d path {cfg = cfg} e in
    let key =
      ap is_empty_text (synced_config-key root port command cfg)
      ∙ loaded_key io d path cfg loaded in
    let done = save_config-succeeds io d path new_cfg w in
    saved-IsKept io root new_cfg (save_config io d path new_cfg) synced done (
      load-save io d path new_cfg (loaded_open io d path cfg loaded)
        (decode-encode io new_cfg law synced.1 synced.2) key done)

sync_layout-IsKept :
    (io : Coders) (root : Bytes) (r : Disk × Bool)
    → IsCoder io
    → r.1 ≡ true
    → IsWritable r.0
    → (load_config io r.0 (layout_for root).config_path).1 ≡ true
    → IsKept io root (sync_layout io root r)
sync_layout-IsKept io root (d, false) law ok w loads = absurd (ground arith)
sync_layout-IsKept io root (d, true) law ok w loads =
    sync_loaded-IsKept io root d (load_config io d (layout_for root).config_path) law w refl loads

-- Where every path can be written, the ignore file can be read if it is there, the settings load without an error
-- once the folders are there, and the coder of the settings loses only the fields left out when empty, a
-- synchronisation succeeds. It returns settings with positive ports, a command, the proxy on the application's
-- port and the folder itself, and the file it wrote is loaded as exactly these settings.
pub sync_workspace_config-IsKept :
    (io : Coders) (d : Disk) (root : Bytes)
    → IsCoder io
    → IsWritable d
    → read_file d (gitignore_path root) ≢ failed
    → (load_config io (ensure_layout d root).0 (layout_for root).config_path).1 ≡ true
    → IsKept io root (sync_workspace_config io d root)
unfolding sync_workspace_config
sync_workspace_config-IsKept io d root law w readable loads =
    let (ok, w') = ensure_layout-succeeds d root w readable in
    sync_layout-IsKept io root (ensure_layout d root) law ok w' loads
