-- ===== src/Project/Hooks.antt =====
-- pkg/project/hooks.go: the hook files, the inspector's port and the scripts of package.json.
pub mod Patch
pub mod Package
use bug_it.Base.{
  ℕ, zero, suc, ℤ, pos, ◌+◌, ◌-◌, Bool, true, false, ◌&&◌, ◌||◌, not, List, [], ◌∷◌, ◌++◌, Option,
  none, some, if◌then◌else◌, ltb_ℤ, leb_ℤ, eq_ℤ, ◌==◌,
}
use bug_it.Text.{Bytes, codes, bytes_eq, has_prefix}
use bug_it.Text.Search.{contains}
use bug_it.Text.Trim.{fields}
use bug_it.Text.Path.{join}
use bug_it.Text.Split.{join_byte}
use bug_it.LocalCapture.{format_int}
use bug_it.Inspector.{is_empty_text}
use bug_it.Inspector.Pick.{free_port_from}
use bug_it.Project.{
  Config, Scripts, Layout, layout_for, default_config, detect_dev_command, dir_name, config_name,
  package_json,
}
use bug_it.Project.Disk.{
  Disk, Read, content, missing, failed, Coders, read_file, write_file, load_config, save_config,
  ensure_layout, read_scripts,
}

-- `patchDevScript`: the script and whether it is changed.
unfoldable pub is_hooked : Bytes → Bool
is_hooked dev =
    contains dev (codes ".bugit/inspect-bootstrap")
    || contains dev (codes ".bugit/run-with-hooks.cjs")

unfoldable pub patched_words : Bytes → ℤ → List Bytes → Bytes × Bool
patched_words dev inspect_port [] = (dev, false)
patched_words dev inspect_port (word ∷ words) =
    let flag = codes "--inspect=127.0.0.1:" ++ format_int inspect_port in
    if bytes_eq word (codes "npm")
    then (codes "node .bugit/run-with-hooks.cjs " ++ dev, true)
    else if bytes_eq word (codes "nodemon") || bytes_eq word (codes "node")
    then (
      join_byte b' ' (
          word
          ∷ codes "-r .bugit/inspect-bootstrap.cjs"
          ∷ codes "-r .bugit/preload.cjs"
          ∷ flag
          ∷ words),
      true,
    )
    else (dev, false)

unfoldable pub patch_dev_script : Bytes → ℤ → Bytes × Bool
patch_dev_script dev inspect_port =
    if is_hooked dev then (dev, false) else patched_words dev inspect_port (fields dev)

-- `findFreeInspectPort` and `chooseInspectPort`, over the ports on which an inspector listens.
unfoldable pub find_free_inspect_port : (ℕ → Bool) → ℕ
find_free_inspect_port listening = free_port_from listening 10 9230

unfoldable pub choose_inspect_port : Coders → (ℕ → Bool) → Disk → Bytes → ℤ
choose_inspect_port io listening d root =
    let (cfg, ok) = load_config io d (join (join root dir_name) config_name) in
    if ok && (ltb_ℤ (pos 0) cfg.inspect_port && not (eq_ℤ cfg.inspect_port (pos 9229)))
    then cfg.inspect_port
    else if listening 9229
    then pos (find_free_inspect_port listening)
    else pos 9229

-- `persistInspectPort`
abbrev pub persist_loaded : Coders → Disk → Bytes → ℤ → Config × Bool → Disk × Bool
persist_loaded io d path inspect_port (cfg, ok) =
    if ok then save_config io d path (record cfg { inspect_port = inspect_port }) else (d, false)

unfoldable pub persist_inspect_port : Coders → Disk → Bytes → ℤ → Disk × Bool
persist_inspect_port io d path inspect_port =
    persist_loaded io d path inspect_port (load_config io d path)

-- The texts of the hook files, which the functions `writeInspectBootstrap`, `writeRunWithHooks` and
-- `renderPreloadHook` hold.
pub record HookTexts : Type 0 where
  pub inspect_bootstrap : ℤ → Bytes
  pub run_with_hooks : ℤ → Bytes
  pub preload : Bytes → Bytes

abbrev or_text : Bytes → Bytes → Bytes
or_text [] default' = default'
or_text (c ∷ s) default' = c ∷ s

-- A write that follows another, if that succeeded.
abbrev pub and_then : Disk × Bool → (Disk → Disk × Bool) → Disk × Bool
and_then (d, true) next = next d
and_then (d, false) next = (d, false)

-- `SyncPreloadHook`
unfoldable pub sync_preload_hook : Coders → HookTexts → Disk → Bytes → Bytes → Disk × Bool
sync_preload_hook io texts d root collector_http = and_then (ensure_layout d root) (λ d'.
    let loaded = (load_config io d' (layout_for root).config_path).0.collector_http in
    let collector = or_text (or_text collector_http loaded) default_config.collector_http in
    write_file d' (join (layout_for root).bugit_dir (codes "preload.cjs"))
      (texts.preload collector))

-- The three hook files of `SyncDevScript`.
unfoldable pub write_hooks : Coders → HookTexts → Disk → Bytes → ℤ → Disk × Bool
write_hooks io texts d root inspect_port =
    let bugit = (layout_for root).bugit_dir in
    and_then
      (write_file d (join bugit (codes "inspect-bootstrap.cjs"))
        (texts.inspect_bootstrap inspect_port))
      (λ d₁.
        and_then
          (write_file d₁ (join bugit (codes "run-with-hooks.cjs"))
            (texts.run_with_hooks inspect_port))
          (λ d₂. sync_preload_hook io texts d₂ root []))

-- The script that is patched, and the scripts with the patched one in its place.
unfoldable pub dev_script : Scripts → Bytes
dev_script scripts = if is_empty_text scripts.dev then scripts.start else scripts.dev

unfoldable pub with_dev : Scripts → Bytes → Scripts
with_dev scripts new_dev =
    if is_empty_text scripts.dev
    then record scripts { start = new_dev }
    else record scripts { dev = new_dev }

-- What `SyncDevScript` returns besides its port and its message.
pub data Synced : Type 0 where
  sync_failed : Synced
  unchanged : Synced
  patched : Synced

abbrev pub outcome : Synced → Disk × Bool → Disk × Synced
outcome s (d, true) = (d, s)
outcome s (d, false) = (d, sync_failed)

-- The end of `SyncDevScript` where the scripts are to be changed.
unfoldable pub write_package : Coders → Disk → Bytes → ℤ → Scripts → Disk × Synced
write_package io d root inspect_port scripts = outcome patched (
    and_then (write_file d (join root package_json) (io.encode_scripts scripts ++ 10 ∷ []))
      (λ d'. persist_inspect_port io d' (layout_for root).config_path inspect_port))

unfoldable pub sync_scripts : Coders → Disk → Bytes → ℤ → Scripts → Disk × Synced
sync_scripts io d root inspect_port scripts =
    let dev = dev_script scripts in
    let keep =
      outcome unchanged (persist_inspect_port io d (layout_for root).config_path inspect_port) in
    let new_dev = patch_dev_script dev inspect_port in
    if is_empty_text dev
    then keep
    else if is_hooked dev
    then keep
    else if not new_dev.1
    then keep
    else write_package io d root inspect_port (with_dev scripts new_dev.0)

-- A package.json that cannot be read leaves the port to be kept; one that is no JSON text is an error.
abbrev pub decoded_scripts : Coders → Disk → Bytes → ℤ → Option Scripts → Disk × Synced
decoded_scripts io d root inspect_port none = (d, sync_failed)
decoded_scripts io d root inspect_port (some scripts) = sync_scripts io d root inspect_port scripts

abbrev pub sync_read : Coders → Disk → Bytes → ℤ → Read → Disk × Synced
sync_read io d root inspect_port missing =
    outcome unchanged (persist_inspect_port io d (layout_for root).config_path inspect_port)
sync_read io d root inspect_port failed =
    outcome unchanged (persist_inspect_port io d (layout_for root).config_path inspect_port)
sync_read io d root inspect_port (content text) =
    decoded_scripts io d root inspect_port (io.decode_scripts text)

abbrev after_hooks : Coders → Bytes → ℤ → Disk × Bool → Disk × Synced
after_hooks io root inspect_port (d, false) = (d, sync_failed)
after_hooks io root inspect_port (d, true) =
    sync_read io d root inspect_port (read_file d (join root package_json))

abbrev after_layout : Coders → HookTexts → (ℕ → Bool) → Bytes → Disk × Bool → Disk × Synced
after_layout io texts listening root (d, false) = (d, sync_failed)
after_layout io texts listening root (d, true) =
    let inspect_port = choose_inspect_port io listening d root in
    after_hooks io root inspect_port (write_hooks io texts d root inspect_port)

-- `SyncDevScript` of an absolute path.
unfoldable pub sync_dev_script : Coders → HookTexts → (ℕ → Bool) → Disk → Bytes → Disk × Synced
sync_dev_script io texts listening d root =
    after_layout io texts listening root (ensure_layout d root)

abbrev hooked_read : Read → Bool
hooked_read (content text) = is_hooked text
hooked_read missing = false
hooked_read failed = false

-- `IsDevScriptPatched`
unfoldable pub is_dev_script_patched : Disk → Bytes → Bool
is_dev_script_patched d root = hooked_read (read_file d (join root package_json))

abbrev is_there : Option Bytes → Bool
is_there none = false
is_there (some text) = true

-- `IsPreloadConfigured`
unfoldable pub is_preload_configured : Disk → Bytes → Bool
is_preload_configured d root = is_there (d.files (join (join root dir_name) (codes "preload.cjs")))

-- `RecommendedRestartCommand`
unfoldable pub recommended_restart_command : Coders → Disk → Bytes → Bytes
recommended_restart_command io d root =
    let cmd = detect_dev_command (read_scripts io d root) in
    if has_prefix cmd (codes "npm ") then cmd else codes "npm run dev"
