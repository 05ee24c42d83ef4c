-- ===== src/Examples/Projects.antt =====
-- A project on a disk, and what is captured in it.
use bug_it.Base.{
  pos, ◌≡◌, ◌∙◌, sym, refl, Bool, true, false, ◌&&◌, ltb, [], ◌∷◌, ◌++◌, none, some, arith,
}
use bug_it.Text.{Bytes, codes, bytes_eq, has_prefix}
use bug_it.Text.Path.{join}
use bug_it.Text.Trim.{trim_nul, fields}
use bug_it.Text.Search.{contains, index, has_suffix}
use bug_it.Capture.{fill_event}
use bug_it.Project.{Scripts, package_json, parse_dev_command, layout_for}
use bug_it.Project.Disk.{
  Disk, Coders, content, missing, failed, read_file, write_file, load_config, ensure_layout,
  gitignore_path, ensure_gitignore, make_dir, ignores_dir, ignore_line, save_config,
}
use bug_it.Project.Root.{find_capture_root, resolve_capture_target, walk_up}
use bug_it.Project.Root.Search.{WalkResult, walk_up-WalkResult}
use bug_it.Project.Root.Target.{config_path, resolve_capture_target_default}
use bug_it.Project.Hooks.{
  patch_dev_script, dev_script, with_dev, patched, sync_read, sync_scripts, write_package,
  persist_inspect_port, patched_words, is_hooked,
}
use bug_it.Project.Hooks.Patch.{patch_dev_script-patch_dev_script}
use bug_it.Project.Hooks.Package.{sync_read-scripts_only}
use bug_it.Project.Sync.{sync_workspace_config}
use bug_it.Project.Sync.Kept.{IsKept, sync_workspace_config-IsKept}
use bug_it.Runtime.{node, capture_env}
use bug_it.Runtime.Once.{settings, capture_env-settings}
use bug_it.Collector.Server.Posted.{Item, item_event}
use bug_it.LocalCapture.Daemon.{posted_item}
use bug_it.LocalCapture.Daemon.Arrives.{IsText, posted_item-item_event}
use bug_it.Inspector.{TargetPickOptions}
use bug_it.Inspector.Prepare.{Around, prepare_backend_inspector}
use bug_it.Inspector.Prepare.Found.{IsPrepared, prepare_backend_inspector-IsPrepared}
use bug_it.Project.Hooks.{HookTexts}
use bug_it.Examples.{server_failure}
use bug_it.Examples.Settings.{settings_coder, settings_coder-IsCoder}

abbrev root : Bytes
root = codes "/srv/api"

-- Nothing is there, and everything can be read and written.
abbrev empty_disk : Disk
empty_disk = record { files = λ path. none; denied = λ path. false; writable = λ path. true }

-- Only the package.json of the folder is there.
abbrev package_text : Bytes
package_text = codes "{}"

abbrev has_api : Bytes → Bool
has_api folder = bytes_eq folder (codes "/srv")

walk_up-WalkResult_example :
    WalkResult has_api (codes "/srv/api/src") (walk_up has_api 20 (codes "/srv/api/src"))
walk_up-WalkResult_example = walk_up-WalkResult has_api 20 (codes "srv/api/src") (omega arith)

nothing_there : (path : Bytes) → read_file empty_disk path ≡ missing
unfolding read_file
nothing_there path = refl

resolve_capture_target_default_example :
    resolve_capture_target settings_coder empty_disk root ≡ record {
      root = find_capture_root settings_coder empty_disk root;
      dev_command = parse_dev_command (codes "npm run dev");
      public_port = pos 4000;
    }
resolve_capture_target_default_example =
    resolve_capture_target_default settings_coder empty_disk root
      (nothing_there (config_path (find_capture_root settings_coder empty_disk root)))

patch_dev_script-patch_dev_script_example :
    patch_dev_script (patch_dev_script (codes "nodemon server.js") (pos 9230)).0 (pos 9229)
    ≡ ((patch_dev_script (codes "nodemon server.js") (pos 9230)).0, false)
patch_dev_script-patch_dev_script_example =
    patch_dev_script-patch_dev_script (codes "nodemon server.js") (pos 9230) (pos 9229)

capture_env-settings_example :
    settings (
      capture_env
        (codes "NODE_OPTIONS=--trace" ∷ codes "HOME=/root" ∷ [])
        (codes "14000")
        node
        (codes "9229"))
    ≡ 1
capture_env-settings_example =
    capture_env-settings (codes "NODE_OPTIONS=--trace" ∷ codes "HOME=/root" ∷ []) (codes "14000")
      node (codes "9229")

abbrev is_text : Bytes → Bool
is_text [] = true
is_text (c ∷ s) = ltb c 128 && is_text s

is_text-IsText : (s : Bytes) → is_text s ≡ true → IsText s
is_text-IsText [] h = tt
is_text-IsText (c ∷ s) h = (ground arith, is_text-IsText s (ground arith))

posted_item-item_event_example :
    let evt = fill_event 7000 3 0 server_failure (codes "app") in
    (item : Item) × (posted_item (λ s. s) evt ≡ some item) × (item_event item 9000 ≡ evt)
unfolding trim_nul
posted_item-item_event_example =
    posted_item-item_event (λ s. s) 7000 3 0 9000 server_failure (codes "app") (λ s h. refl)
      (is_text-IsText server_failure refl) (is_text-IsText (codes "app") refl) (omega arith)
      (omega arith) (omega arith) (omega arith) (omega arith) refl

loads :
    (load_config settings_coder (ensure_layout empty_disk root).0 (layout_for root).config_path).1
    ≡ true
unfolding load_config ensure_layout ensure_gitignore make_dir read_file write_file join layout_for
    bytes_eq ignores_dir contains index has_prefix ignore_line has_suffix
loads = refl

missing_fails : missing ≡ failed → ⊥
missing_fails e = ground arith

sync_workspace_config-IsKept_example :
    IsKept settings_coder root (sync_workspace_config settings_coder empty_disk root)
sync_workspace_config-IsKept_example =
    sync_workspace_config-IsKept settings_coder empty_disk root settings_coder-IsCoder (λ p. refl)
      (λ e. missing_fails (sym (nothing_there (gitignore_path root)) ∙ e)) loads

-- The scripts that the decoder finds in every text.
abbrev scripts : Scripts
scripts = record { dev = codes "nodemon server.js"; start = []; others = [] }

-- A coder under which every package.json has these scripts.
abbrev plain_coder : Coders
plain_coder = record {
  decode_config = λ start text. (start, true);
  encode_config = λ cfg. [];
  decode_scripts = λ text. some scripts;
  encode_scripts = λ s. s.dev;
}

patches : (sync_read plain_coder empty_disk root (pos 9230) (content package_text)).1 ≡ patched
unfolding sync_scripts dev_script with_dev write_package persist_inspect_port save_config
    load_config patch_dev_script patched_words is_hooked make_dir read_file write_file join
    layout_for bytes_eq contains index has_prefix fields
patches = refl

sync_read-scripts_only_example :
    (sync_read plain_coder empty_disk root (pos 9230) (content package_text)).0.files
      (join root package_json)
    ≡ some (
        plain_coder.encode_scripts
          (with_dev scripts (patch_dev_script (dev_script scripts) (pos 9230)).0)
        ++ 10 ∷ [])
sync_read-scripts_only_example =
    sync_read-scripts_only plain_coder empty_disk root (pos 9230) package_text scripts refl patches

abbrev texts : HookTexts
texts = record {
  inspect_bootstrap = λ port. [];
  run_with_hooks = λ port. [];
  preload = λ collector. [];
}

-- No inspector answers, in two rounds.
abbrev no_inspectors : Around
no_inspectors = record {
  at_first = λ port. none;
  at_look = λ port. none;
  inspect_available = λ port. false;
  rounds =
      record { for_diff = λ port. none; for_all = λ port. none }
      ∷ record { for_diff = λ port. none; for_all = λ port. some [] }
      ∷ [];
}

abbrev backend_options : TargetPickOptions
backend_options = record { backend_port = pos 4000; backend_pid = pos 0; capture_root = root }

prepare_backend_inspector-IsPrepared_example :
    IsPrepared no_inspectors backend_options
      (prepare_backend_inspector settings_coder texts
        (λ port. false)
        no_inspectors
        empty_disk
        root
        backend_options).1
prepare_backend_inspector-IsPrepared_example =
    prepare_backend_inspector-IsPrepared settings_coder texts (λ port. false) no_inspectors
      empty_disk root backend_options
