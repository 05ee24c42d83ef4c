-- ===== src/Project.antt =====
-- pkg/project/project.go: the settings of a capture and where its files are.
pub mod Disk
pub mod Ports
pub mod Root
pub mod Hooks
pub mod Sync
use bug_it.Base.{
  ℕ, ℤ, pos, negsuc, Bool, true, false, List, [], ◌∷◌, ◌++◌, leb_ℤ, if◌then◌else◌, ◌+ℤ◌, Option,
  none, some,
}
use bug_it.Text.{Bytes, codes}
use bug_it.Text.Trim.{fields, trim_space}
use bug_it.Text.Path.{join}
use bug_it.LocalCapture.{format_int}
use bug_it.Inspector.{is_empty_text}

abbrev pub dir_name : Bytes
dir_name = codes ".bugit"

abbrev pub config_name : Bytes
config_name = codes "bugit.yaml"

abbrev pub package_json : Bytes
package_json = codes "package.json"

pub record Layout : Type 0 where
  pub root : Bytes
  pub bugit_dir : Bytes
  pub config_path : Bytes
  pub replay_path : Bytes
  pub snapshots_path : Bytes
  pub data_path : Bytes
  pub latest_snapshot : Bytes

pub record Config : Type 0 where
  pub collector_http : Bytes
  pub collector_grpc : Bytes
  pub record_proxy : Bytes
  pub app_port : ℤ
  pub snapshot_key : Bytes
  pub runtime : Bytes
  pub inspect_port : ℤ
  pub capture_root : Bytes
  pub dev_command : Bytes
  pub trigger_4xx : Bool

abbrev pub default_config : Config
default_config = record {
  collector_http = codes "http://127.0.0.1:28080";
  collector_grpc = codes "127.0.0.1:29090";
  record_proxy = codes "127.0.0.1:4000";
  app_port = pos 4000;
  snapshot_key = codes "dev-insecure-key-change-me";
  runtime = [];
  inspect_port = pos 9229;
  capture_root = [];
  dev_command = codes "npm run dev";
  trigger_4xx = false;
}

unfoldable pub layout_for : Bytes → Layout
layout_for root =
    let bugit = join root dir_name in
    record {
      root = root;
      bugit_dir = bugit;
      config_path = join bugit config_name;
      replay_path = join bugit (codes "replay.yaml");
      snapshots_path = join bugit (codes "snapshots");
      data_path = join bugit (codes "data");
      latest_snapshot = join bugit (codes "latest.dre");
    }

abbrev or_npm : List Bytes → List Bytes
or_npm [] = codes "npm" ∷ codes "run" ∷ codes "dev" ∷ []
or_npm (part ∷ parts) = part ∷ parts

unfoldable pub parse_dev_command : Bytes → List Bytes
parse_dev_command cmd = or_npm (fields (trim_space cmd))

unfoldable pub fmt_host_port : Bytes → ℤ → Bytes
fmt_host_port host port = host ++ b':' ∷ format_int port

unfoldable pub internal_port : ℤ → ℤ
internal_port public_port = public_port +ℤ pos 10000

-- The scripts `dev` and `start` of a package.json, empty where it has none, and its other scripts.
pub record Scripts : Type 0 where
  pub dev : Bytes
  pub start : Bytes
  pub others : List (Bytes × Bytes)

-- `DetectDevCommand`; `none` is a package.json that is missing or is not the JSON text.
unfoldable pub detect_dev_command : Option Scripts → Bytes
detect_dev_command none = codes "npm run dev"
detect_dev_command (some scripts) =
    if is_empty_text scripts.dev
    then (if is_empty_text scripts.start then codes "npm run dev" else codes "npm start")
    else codes "npm run dev"

-- `hasDevPackageJSON`
unfoldable pub has_dev_scripts : Option Scripts → Bool
has_dev_scripts none = false
has_dev_scripts (some scripts) =
    if is_empty_text scripts.dev
    then (if is_empty_text scripts.start then false else true)
    else true

-- `PrepareConfig`, with the detected port and command.
unfoldable pub prepare_config : Bytes → ℤ → Bytes → Config → Config
prepare_config root detected_port detected_command cfg =
    let port = if leb_ℤ cfg.app_port (pos 0) then detected_port else cfg.app_port in
    record cfg {
      app_port = port;
      record_proxy = fmt_host_port (codes "127.0.0.1") port;
      dev_command = if is_empty_text cfg.dev_command then detected_command else cfg.dev_command;
      inspect_port =
          if leb_ℤ cfg.inspect_port (pos 0) then default_config.inspect_port else cfg.inspect_port;
      capture_root = root;
    }
