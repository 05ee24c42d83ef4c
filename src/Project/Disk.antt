-- ===== src/Project/Disk.antt =====
-- The files that pkg/project reads and writes, and the settings file among them.
use bug_it.Base.{
  pos, eq_ℤ, ◌≡◌, Bool, true, false, ◌&&◌, ◌||◌, not, [], ◌∷◌, ◌++◌, Option, none, some,
  if◌then◌else◌,
}
use bug_it.Text.{Bytes, codes, bytes_eq}
use bug_it.Text.Search.{contains, has_suffix}
use bug_it.Text.Path.{join, dir}
use bug_it.Inspector.{is_empty_text}
use bug_it.Project.{Config, Scripts, default_config, dir_name, layout_for, package_json}

-- The contents of the files, which of them cannot be read though they are there, and which paths can be
-- written.
pub record Disk : Type 0 where
  pub files : Bytes → Option Bytes
  pub denied : Bytes → Bool
  pub writable : Bytes → Bool

pub data Read : Type 0 where
  content : Bytes → Read
  missing : Read
  failed : Read

abbrev pub found : Option Bytes → Read
found none = missing
found (some data') = content data'

unfoldable pub read_file : Disk → Bytes → Read
read_file d path = if d.denied path then failed else found (d.files path)

-- `os.WriteFile` and `os.MkdirAll`, whose `false` is an error.
unfoldable pub write_file : Disk → Bytes → Bytes → Disk × Bool
write_file d path text =
    if d.writable path
    then (record d { files = λ p. if bytes_eq p path then some text else d.files p }, true)
    else (d, false)

unfoldable pub make_dir : Disk → Bytes → Bool
make_dir d path = d.writable path

-- The coders of YAML and JSON. `decode_config` starts from the settings it is given and tells whether the text is
-- well formed; `decode_scripts` reads the scripts of a package.json and nothing else.
pub record Coders : Type 0 where
  pub decode_config : Config → Bytes → Config × Bool
  pub encode_config : Config → Bytes
  pub decode_scripts : Bytes → Option Scripts
  pub encode_scripts : Scripts → Bytes

-- What `yaml` documents: a text that it wrote is read back as it was, and a field marked `omitempty` that
-- is empty keeps the value that was there before.
abbrev pub IsCoder : Coders → Type 0
IsCoder io =
    (cfg start : Config)
    → io.decode_config start (io.encode_config cfg) ≡ (
      record cfg {
        runtime = if is_empty_text cfg.runtime then start.runtime else cfg.runtime;
        inspect_port =
            if eq_ℤ cfg.inspect_port (pos 0) then start.inspect_port else cfg.inspect_port;
        capture_root =
            if is_empty_text cfg.capture_root then start.capture_root else cfg.capture_root;
        dev_command = if is_empty_text cfg.dev_command then start.dev_command else cfg.dev_command;
        trigger_4xx = cfg.trigger_4xx || start.trigger_4xx;
      },
      true,
    )

abbrev pub keyed : Config → Config
keyed cfg = record cfg {
  snapshot_key =
      if is_empty_text cfg.snapshot_key then default_config.snapshot_key else cfg.snapshot_key;
}

abbrev pub checked : Config × Bool → Config × Bool
checked (cfg, ok) = if ok then (keyed cfg, true) else (cfg, false)

-- `LoadConfig` of what was read: the settings and whether there is no error.
abbrev pub config_of : Coders → Read → Config × Bool
config_of io missing = (default_config, true)
config_of io failed = (default_config, false)
config_of io (content text) = checked (io.decode_config default_config text)

unfoldable pub load_config : Coders → Disk → Bytes → Config × Bool
load_config io d path = config_of io (read_file d path)

unfoldable pub save_config : Coders → Disk → Bytes → Config → Disk × Bool
save_config io d path cfg =
    if not (make_dir d (dir path)) then (d, false) else write_file d path (io.encode_config cfg)

-- The content of the ignore file, and the line that is added to it.
unfoldable pub ignores_dir : Bytes → Bool
ignores_dir text = contains text (dir_name ++ b'/' ∷ []) || contains text (dir_name ++ b'\\' ∷ [])

unfoldable pub ignore_line : Bytes → Bytes
ignore_line text =
    let line = dir_name ++ b'/' ∷ 10 ∷ [] in
    if not (is_empty_text text) && not (has_suffix text (10 ∷ [])) then 10 ∷ line else line

abbrev pub gitignore_path : Bytes → Bytes
gitignore_path root = join root (codes ".gitignore")

abbrev pub add_ignore : Disk → Bytes → Bytes → Disk × Bool
add_ignore d path text =
    if ignores_dir text then (d, true) else write_file d path (text ++ ignore_line text)

abbrev pub ignore_read : Disk → Bytes → Read → Disk × Bool
ignore_read d path failed = (d, false)
ignore_read d path missing = add_ignore d path []
ignore_read d path (content text) = add_ignore d path text

unfoldable pub ensure_gitignore : Disk → Bytes → Disk × Bool
ensure_gitignore d root = ignore_read d (gitignore_path root) (read_file d (gitignore_path root))

-- `EnsureLayout`, whose layout is `layout_for root` in every case.
unfoldable pub ensure_layout : Disk → Bytes → Disk × Bool
ensure_layout d root =
    let layout = layout_for root in
    if make_dir d layout.bugit_dir
      && make_dir d layout.snapshots_path
      && make_dir d layout.data_path
    then ensure_gitignore d root
    else (d, false)

-- The scripts of the package.json of a folder.
abbrev scripts_of : Coders → Read → Option Scripts
scripts_of io (content text) = io.decode_scripts text
scripts_of io missing = none
scripts_of io failed = none

unfoldable pub read_scripts : Coders → Disk → Bytes → Option Scripts
read_scripts io d root = scripts_of io (read_file d (join root package_json))
