-- ===== src/Project/Ports.antt =====
-- The port of the backend (pkg/project/ports.go, and `portFromEnvFile` of project.go).
use bug_it.Base.{
  ℤ, pos, ◌+◌, Bool, ◌&&◌, ◌||◌, List, [], ◌∷◌, Option, none, some, leb, ◌==◌, if◌then◌else◌, ltb_ℤ,
  length, drop,
}
use bug_it.Text.{Bytes, codes, has_prefix, trim_prefix, to_lower}
use bug_it.Text.Search.{contains, cut, index_byte}
use bug_it.Text.Trim.{trim_space}
use bug_it.Text.Path.{join}
use bug_it.Text.Split.{split_byte, trim_quotes, atoi}
use bug_it.Inspector.{is_empty_text}
use bug_it.Project.{Config, Scripts, dir_name, config_name, has_dev_scripts}
use bug_it.Project.Disk.{
  Disk, content, missing, failed, read_file, Coders, load_config, read_scripts,
}

-- `if p, err := strconv.Atoi(v); err == nil && p > 0`
abbrev positive : Option ℤ → Option ℤ
positive none = none
positive (some p) = if ltb_ℤ (pos 0) p then some p else none

-- The port of one line, where it sets one.
unfoldable pub line_port : Bytes → Option ℤ
line_port line =
    let trimmed = trim_space line in
    if has_prefix trimmed (codes "PORT=")
    then positive (atoi (trim_quotes (trim_prefix trimmed (codes "PORT="))))
    else none

unfoldable pub first_port : List Bytes → ℤ
first_port [] = pos 0
first_port (line ∷ lines) = elim (line_port line) [ some p ↦ p | none ↦ first_port lines ]

unfoldable pub port_from_env_file : Disk → Bytes → ℤ
port_from_env_file d path = elim (read_file d path) [
  | content text ↦ first_port (split_byte 10 text)
  | missing ↦ pos 0
  | failed ↦ pos 0
]

abbrev pub env_names : List Bytes
env_names = codes ".env" ∷ codes ".env.local" ∷ codes ".env.development" ∷ []

-- The loops that try file after file, or folder after folder.
unfoldable pub first_positive : (Bytes → ℤ) → List Bytes → ℤ
first_positive port_of [] = pos 0
first_positive port_of (name ∷ names) =
    let rest = first_positive port_of names in
    if ltb_ℤ (pos 0) (port_of name) then port_of name else rest

unfoldable pub port_from_env_dirs : Disk → Bytes → ℤ
port_from_env_dirs d folder =
    first_positive (λ name. port_from_env_file d (join folder name)) env_names

-- The pieces of the pattern `apiURLRe`, each of which gives the text behind it. Letters match in either case.
abbrev after_fold : Bytes → Bytes → Option Bytes
after_fold p s = if has_prefix (to_lower s) (to_lower p) then some (drop (length p) s) else none

unfoldable pub after_name : Bytes → Option Bytes
after_name s = elim (after_fold (codes "NEXT_PUBLIC_API_URL") s) [
  | some rest ↦ some rest
  | none ↦ elim (after_fold (codes "API_URL") s) [
    | some rest ↦ some rest
    | none ↦ after_fold (codes "VITE_API_URL") s
  ]
]

unfoldable pub skip_spaces : Bytes → Bytes
skip_spaces [] = []
skip_spaces (c ∷ s) =
    if c == 9 || c == 10 || c == 12 || c == 13 || c == 32 then skip_spaces s else c ∷ s

unfoldable pub after_scheme : Bytes → Option Bytes
after_scheme s = elim (after_fold (codes "https://") s) [
  | some rest ↦ some rest
  | none ↦ after_fold (codes "http://") s
]

unfoldable pub leading_digits : Bytes → Bytes
leading_digits [] = []
leading_digits (c ∷ s) = if leb b'0' c && leb c b'9' then c ∷ leading_digits s else []

-- The digits behind the first colon, in front of which there is at least one byte.
unfoldable pub host_digits : Bytes → Option Bytes
host_digits s = elim (index_byte s b':') [
  | none ↦ none
  | some i ↦
      let digits = leading_digits (drop (i + 1) s) in
      if i == 0 || is_empty_text digits then none else some digits
]

abbrev bind_text : Option Bytes → (Bytes → Option Bytes) → Option Bytes
bind_text none f = none
bind_text (some s) f = f s

-- The submatch of the pattern at the start of the text.
unfoldable pub match_api_url : Bytes → Option Bytes
match_api_url s = bind_text (after_name s) (λ rest.
    bind_text (after_fold (codes "=") (skip_spaces rest))
      (λ value. bind_text (after_scheme (skip_spaces value)) host_digits))

-- `apiURLRe.FindStringSubmatch`: the submatch of the leftmost match.
unfoldable pub find_api_url : Bytes → Option Bytes
find_api_url [] = match_api_url []
find_api_url (c ∷ s) = elim (match_api_url (c ∷ s)) [
  | some digits ↦ some digits
  | none ↦ find_api_url s
]

abbrev or_none : Option ℤ → ℤ
or_none none = pos 0
or_none (some p) = p

abbrev api_port_of : Option Bytes → ℤ
api_port_of none = pos 0
api_port_of (some digits) = or_none (positive (atoi digits))

unfoldable pub api_url_port : Disk → Bytes → ℤ
api_url_port d path = elim (read_file d path) [
  | content text ↦ api_port_of (find_api_url text)
  | missing ↦ pos 0
  | failed ↦ pos 0
]

unfoldable pub api_url_from_env : Disk → Bytes → ℤ
api_url_from_env d folder = first_positive (λ name. api_url_port d (join folder name)) env_names

abbrev pub web_folders : List Bytes
web_folders = codes "web" ∷ codes "frontend" ∷ codes "client" ∷ codes "apps/web" ∷ []

-- What is left when the folders of `ResolveBackendPort` name no port.
unfoldable pub fallback_port : Option Scripts → ℤ
fallback_port scripts = if has_dev_scripts scripts then pos 4000 else pos 3000

-- `err == nil && cfg.AppPort > 0`, where the settings file is there.
abbrev pub app_port_of : Option Bytes → Config × Bool → Option ℤ
app_port_of none loaded = none
app_port_of (some text) (cfg, ok) =
    if ok && ltb_ℤ (pos 0) cfg.app_port then some cfg.app_port else none

unfoldable pub configured_port : Coders → Disk → Bytes → Option ℤ
configured_port io d path = app_port_of (d.files path) (load_config io d path)

-- The ports that the files of the environment set, in the order in which they are tried.
unfoldable pub detected_port : Coders → Disk → Bytes → Bytes → ℤ
detected_port io d workspace capture_root =
    let env = port_from_env_dirs d capture_root in
    let web = first_positive (λ rel. api_url_from_env d (join workspace rel)) web_folders in
    let here = api_url_from_env d workspace in
    if ltb_ℤ (pos 0) env
    then env
    else if ltb_ℤ (pos 0) web
    then web
    else if ltb_ℤ (pos 0) here
    then here
    else fallback_port (read_scripts io d capture_root)

abbrev pub or_port : Option ℤ → ℤ → ℤ
or_port none p = p
or_port (some configured) p = configured

-- `ResolveBackendPort` of an absolute workspace.
unfoldable pub resolve_backend_port : Coders → Disk → Bytes → Bytes → ℤ
resolve_backend_port io d workspace capture_root =
    or_port (configured_port io d (join (join capture_root dir_name) config_name))
      (detected_port io d workspace capture_root)

abbrev last_part : Bytes → List Bytes → Bytes
last_part part [] = part
last_part part (next ∷ parts) = last_part next parts

abbrev last_of : List Bytes → Bytes
last_of [] = []
last_of (part ∷ parts) = last_part part parts

abbrev host_port_of : Bytes → Option ℤ
host_port_of host_port =
    if contains host_port (b':' ∷ []) then atoi (last_of (split_byte b':' host_port)) else none

abbrev behind_scheme : Bytes × Option Bytes → Option Bytes
behind_scheme (front, back) = back

-- `portFromURL`
unfoldable pub port_from_url : Bytes → ℤ
port_from_url raw =
    let trimmed = trim_space raw in
    elim (behind_scheme (cut trimmed (codes "://"))) [
      | none ↦ pos 0
      | some rest ↦ elim (host_port_of (trim_prefix rest (codes "/"))) [
        | some p ↦ p
        | none ↦ if contains trimmed (codes ":3000") then pos 3000 else pos 0
      ]
    ]
