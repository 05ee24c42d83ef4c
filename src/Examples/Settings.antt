-- ===== src/Examples/Settings.antt =====
-- A coder of the settings that keeps what the code relies on: texts by length, numbers by their two parts.
use bug_it.Base.{
  ℕ, zero, suc, ℤ, pos, negsuc, pos_part, neg_part, eq_ℤ, ◌≡◌, refl, ap, ◌∙◌, Bool, true, false,
  ◌||◌, [], ◌∷◌, ◌++◌, some, if◌then◌else◌, length, take, drop, take-append, drop-append,
}
use bug_it.Text.{Bytes, codes}
use bug_it.Inspector.{is_empty_text}
use bug_it.Project.{Config}
use bug_it.Project.Disk.{Coders, IsCoder}

put_text : Bytes → Bytes → Bytes
put_text s rest = length s ∷ s ++ rest

take_text : {R : Type 0} → Bytes → (Bytes → Bytes → R) → R
take_text [] k = k [] []
take_text (n ∷ s) k = k (take n s) (drop n s)

take_text-put_text :
    {R : Type 0} (s rest : Bytes) (k : Bytes → Bytes → R) → take_text (put_text s rest) k ≡ k s rest
unfolding take_text put_text
take_text-put_text s rest k =
    ap (λ t. k t (drop (length s) (s ++ rest))) (take-append s rest) ∙ ap (k s) (drop-append s rest)

put_int : ℤ → Bytes → Bytes
put_int n rest = pos_part n ∷ neg_part n ∷ rest

from_parts : ℕ → ℕ → ℤ
from_parts a zero = pos a
from_parts a (suc b) = negsuc b

get_int : {R : Type 0} → Bytes → (ℤ → Bytes → R) → R
get_int [] k = k (pos 0) []
get_int (a ∷ []) k = k (pos 0) []
get_int (a ∷ b ∷ rest) k = k (from_parts a b) rest

get_int-put_int :
    {R : Type 0} (n : ℤ) (rest : Bytes) (k : ℤ → Bytes → R) → get_int (put_int n rest) k ≡ k n rest
unfolding get_int put_int from_parts
get_int-put_int (pos n) rest k = refl
get_int-put_int (negsuc n) rest k = refl

put_flag : Bool → Bytes → Bytes
put_flag true rest = 1 ∷ rest
put_flag false rest = 0 ∷ rest

get_flag : Bytes → Bool
get_flag [] = false
get_flag (zero ∷ rest) = false
get_flag (suc n ∷ rest) = true

get_flag-put_flag : (b : Bool) → get_flag (put_flag b []) ≡ b
unfolding get_flag put_flag
get_flag-put_flag true = refl
get_flag-put_flag false = refl

encode_config : Config → Bytes
encode_config c = put_text c.collector_http (
    put_text c.collector_grpc (
      put_text c.record_proxy (
        put_int c.app_port (
          put_text c.snapshot_key (
            put_text c.runtime (
              put_int c.inspect_port
                (put_text c.capture_root (put_text c.dev_command (put_flag c.trigger_4xx [])))))))))

abbrev merged :
    Config → Bytes → Bytes → Bytes → ℤ → Bytes → Bytes → ℤ → Bytes → Bytes → Bool → Config × Bool
merged start http grpc proxy port key runtime inspect root command trigger = (
  record {
    collector_http = http;
    collector_grpc = grpc;
    record_proxy = proxy;
    app_port = port;
    snapshot_key = key;
    runtime = if is_empty_text runtime then start.runtime else runtime;
    inspect_port = if eq_ℤ inspect (pos 0) then start.inspect_port else inspect;
    capture_root = if is_empty_text root then start.capture_root else root;
    dev_command = if is_empty_text command then start.dev_command else command;
    trigger_4xx = trigger || start.trigger_4xx;
  },
  true,
)

decode_config : Config → Bytes → Config × Bool
decode_config start b₀ = take_text b₀ (λ http b₁. take_text b₁ (λ grpc b₂. take_text b₂ (λ proxy b₃.
    get_int b₃ (λ port b₄. take_text b₄ (λ key b₅. take_text b₅ (λ runtime b₆.
      get_int b₆ (λ inspect b₇. take_text b₇ (λ root b₈. take_text b₈ (λ command b₉.
        merged start http grpc proxy port key runtime inspect root command (get_flag b₉))))))))))

pub settings_coder : Coders
settings_coder = record {
  decode_config = decode_config;
  encode_config = encode_config;
  decode_scripts =
      λ text. some (record { dev = codes "nodemon server.js"; start = []; others = [] });
  encode_scripts = λ scripts. scripts.dev;
}

pub settings_coder-IsCoder : IsCoder settings_coder
unfolding settings_coder encode_config decode_config
settings_coder-IsCoder c start =
    take_text-put_text c.collector_http _ _
    ∙ take_text-put_text c.collector_grpc _ _
    ∙ take_text-put_text c.record_proxy _ _
    ∙ get_int-put_int c.app_port _ _
    ∙ take_text-put_text c.snapshot_key _ _
    ∙ take_text-put_text c.runtime _ _
    ∙ get_int-put_int c.inspect_port _ _
    ∙ take_text-put_text c.capture_root _ _
    ∙ take_text-put_text c.dev_command _ _
    ∙ ap
        (merged start c.collector_http c.collector_grpc c.record_proxy c.app_port c.snapshot_key
          c.runtime c.inspect_port c.capture_root c.dev_command)
        (get_flag-put_flag c.trigger_4xx)
