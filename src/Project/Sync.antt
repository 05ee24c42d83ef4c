-- ===== src/Project/Sync.antt =====
-- `SyncWorkspaceConfig` of pkg/project/project.go behind `FindCaptureRoot`.
pub mod Loaded
pub mod Written
pub mod Kept
use bug_it.Base.{ℤ, pos, Bool, true, false, Option, none, some, if◌then◌else◌, ltb_ℤ}
use bug_it.Text.{Bytes}
use bug_it.Project.{Config, Layout, layout_for, prepare_config, detect_dev_command}
use bug_it.Project.Disk.{Disk, Coders, load_config, save_config, ensure_layout, read_scripts}
use bug_it.Project.Ports.{resolve_backend_port}

-- The settings that are saved: prepared, with an inspector's port that was there kept.
unfoldable pub synced_config : Bytes → ℤ → Bytes → Config → Config
synced_config root detected_port detected_command cfg =
    let prepared = prepare_config root detected_port detected_command cfg in
    if ltb_ℤ (pos 0) cfg.inspect_port
    then record prepared { inspect_port = cfg.inspect_port }
    else prepared

abbrev pub saved : Config → Disk × Bool → Disk × Option Config
saved cfg (d, true) = (d, some cfg)
saved cfg (d, false) = (d, none)

abbrev pub sync_loaded : Coders → Bytes → Disk → Config × Bool → Disk × Option Config
sync_loaded io root d (cfg, false) = (d, none)
sync_loaded io root d (cfg, true) =
    let new_cfg =
      synced_config root (resolve_backend_port io d root root)
        (detect_dev_command (read_scripts io d root)) cfg in
    saved new_cfg (save_config io d (layout_for root).config_path new_cfg)

abbrev pub sync_layout : Coders → Bytes → Disk × Bool → Disk × Option Config
sync_layout io root (d, false) = (d, none)
sync_layout io root (d, true) =
    sync_loaded io root d (load_config io d (layout_for root).config_path)

-- `none` is an error.
unfoldable pub sync_workspace_config : Coders → Disk → Bytes → Disk × Option Config
sync_workspace_config io d root = sync_layout io root (ensure_layout d root)
