-- ===== src/Runtime.antt =====
-- pkg/runtimedetect/detect.go: the runtime of a project and the environment of the process that is captured.
pub mod Once
pub mod Digits
use bug_it.Base.{
  ℕ, zero, suc, ℤ, pos, negsuc, ◌+◌, ◌-◌, ◌/◌, ◌%◌, Bool, true, false, ◌||◌, List, [], ◌∷◌, ◌++◌,
  Option, none, some, ◌==◌, if◌then◌else◌,
}
use bug_it.Text.{Bytes, codes, has_prefix}
use bug_it.Text.Path.{join}
use bug_it.Project.Disk.{Disk}

pub data Runtime : Type 0 where
  node : Runtime
  go : Runtime
  python : Runtime
  unknown : Runtime

abbrev is_some : Option Bytes → Bool
is_some none = false
is_some (some text) = true

unfoldable pub has_file : Disk → Bytes → Bytes → Bool
has_file d root name = is_some (d.files (join root name))

unfoldable pub detect : Disk → Bytes → Runtime
detect d root =
    if has_file d root (codes "go.mod")
    then go
    else if has_file d root (codes "package.json")
    then node
    else if has_file d root (codes "pyproject.toml") || has_file d root (codes "requirements.txt")
    then python
    else unknown

-- The loop of `itoa`, which fills a buffer from its end; `none` is a write in front of the buffer, which
-- panics. `room` is what is left of the buffer.
unfoldable pub itoa_digits : ℕ → ℕ → Bytes → Option Bytes
itoa_digits room zero out = some out
itoa_digits zero (suc n) out = none
itoa_digits (suc room) (suc n) out = itoa_digits room (suc n / 10) ((b'0' + suc n % 10) ∷ out)

-- `itoa`, with its buffer of 16 bytes; a negative number leaves the buffer empty.
unfoldable pub itoa : ℤ → Option Bytes
itoa (pos zero) = some (b'0' ∷ [])
itoa (pos (suc n)) = itoa_digits 16 (suc n) []
itoa (negsuc n) = some []

abbrev pub node_options : Bytes
node_options = codes "NODE_OPTIONS="

-- `EnvAdjustments`, with the text of the port.
unfoldable pub env_adjustments : Runtime → Bytes → List Bytes
env_adjustments node port =
    let token = codes "--inspect=127.0.0.1:" ++ port in
    (codes "BUGIT_NODE_INSPECT=" ++ token) ∷ (node_options ++ token) ∷ []
env_adjustments python port = codes "BUGIT_DEBUGPY=1" ∷ (codes "BUGIT_DEBUGPY_PORT=" ++ port) ∷ []
env_adjustments go port = []
env_adjustments unknown port = []

-- `CleanEnv`
unfoldable pub clean_env : List Bytes → List Bytes
clean_env [] = []
clean_env (e ∷ env) = let out = clean_env env in if has_prefix e node_options then out else e ∷ out

-- `comm` of the daemon.
unfoldable pub comm_of_runtime : Runtime → Bytes
comm_of_runtime node = codes "node"
comm_of_runtime go = codes "go"
comm_of_runtime python = codes "python"
comm_of_runtime unknown = codes "app"

-- The environment of `RunCapture`, with the texts of the internal port and of the inspector's port.
unfoldable pub capture_env : List Bytes → Bytes → Runtime → Bytes → List Bytes
capture_env env port runtime inspect_port =
    clean_env env
    ++ (codes "PORT=" ++ port)
      ∷ codes "BUGIT_RECORD_PROXY=http://127.0.0.1:28082"
      ∷ codes "HTTP_PROXY=http://127.0.0.1:28082"
      ∷ codes "HTTPS_PROXY=http://127.0.0.1:28082"
      ∷ env_adjustments runtime inspect_port
