-- ===== src/Project/Sync/Loaded.antt =====
-- Settings that are written and loaded again (pkg/project/project.go).
use bug_it.Base.{
  ℤ, pos, ◌≡◌, refl, ap, sym, subst, ◌∙◌, inl, inr, Bool, true, false, ◌||◌, [], if◌then◌else◌,
  arith, Bool-cases, ltb_ℤ, eq_ℤ,
}
use bug_it.Text.{Bytes, bytes_eq, bytes_eq_sound, bytes_eq_refl}
use bug_it.Text.Path.{dir}
use bug_it.Inspector.{is_empty_text}
use bug_it.Project.{Config, default_config}
use bug_it.Project.Disk.{
  Disk, Read, content, missing, failed, Coders, IsCoder, read_file, write_file, make_dir, config_of,
  checked, keyed, load_config, save_config,
}

empty_same : (s : Bytes) → (if is_empty_text s then [] else s) ≡ s
empty_same s = elim (Bool-cases (is_empty_text s)) [
  | inl e ↦ rw e (sym (bytes_eq_sound s [] e))
  | inr e ↦ rw e refl
]

or-false : (b : Bool) → (b || false) ≡ b
or-false b = ground arith

not_zero : (n : ℤ) → ltb_ℤ (pos 0) n ≡ true → eq_ℤ n (pos 0) ≡ false
not_zero n h = ground arith

-- Settings that are written and read back, where no field that is left out differs from its default.
pub decode-encode :
    (io : Coders) (cfg : Config)
    → IsCoder io
    → ltb_ℤ (pos 0) cfg.inspect_port ≡ true
    → is_empty_text cfg.dev_command ≡ false
    → io.decode_config default_config (io.encode_config cfg) ≡ (cfg, true)
decode-encode io cfg law port command =
    law cfg default_config
    ∙ (rw (empty_same cfg.runtime) (
        rw (not_zero cfg.inspect_port port)
          (rw (empty_same cfg.capture_root) (rw command (rw (or-false cfg.trigger_4xx) refl)))))

read-write :
    (d : Disk) (path text : Bytes)
    → d.denied path ≡ false
    → (write_file d path text).1 ≡ true
    → read_file (write_file d path text).0 path ≡ content text
unfolding read_file write_file
read-write d path text open' h = elim (Bool-cases (d.writable path)) [
  | inl w ↦ rw w (rw open' (rw (bytes_eq_refl path) refl))
  | inr w ↦ absurd (ground arith)
]

-- Settings that were loaded without an error come from a file that can be read, and they have a key.
pub IsLoaded : Coders → Disk → Bytes → Config → Type 0
IsLoaded io d path cfg = (d.denied path ≡ false) × (is_empty_text cfg.snapshot_key ≡ false)

pub loaded_open :
    (io : Coders) (d : Disk) (path : Bytes) (cfg : Config)
    → IsLoaded io d path cfg
    → d.denied path ≡ false
unfolding IsLoaded
loaded_open io d path cfg h = h.0

pub loaded_key :
    (io : Coders) (d : Disk) (path : Bytes) (cfg : Config)
    → IsLoaded io d path cfg
    → is_empty_text cfg.snapshot_key ≡ false
unfolding IsLoaded
loaded_key io d path cfg h = h.1

keyed_key : (cfg : Config) → is_empty_text (keyed cfg).snapshot_key ≡ false
keyed_key cfg = elim (Bool-cases (is_empty_text cfg.snapshot_key)) [
  | inl e ↦ rw e (unfold bytes_eq in refl)
  | inr e ↦ rw e e
]

checked_key :
    (r : Config × Bool) {cfg : Config}
    → checked r ≡ (cfg, true)
    → is_empty_text cfg.snapshot_key ≡ false
checked_key (c, true) {cfg} e =
    subst (λ x. is_empty_text x.snapshot_key ≡ false) (ap (λ r. r.0) e) (keyed_key c)
checked_key (c, false) {cfg} e = absurd (let k = ap (λ r. r.1) e in ground arith)

config_of-key :
    (io : Coders) (r : Read) {cfg : Config}
    → config_of io r ≡ (cfg, true)
    → is_empty_text cfg.snapshot_key ≡ false
config_of-key io missing {cfg} e =
    subst (λ x. is_empty_text x.snapshot_key ≡ false) (ap (λ r. r.0) e) (unfold bytes_eq in refl)
config_of-key io failed {cfg} e = absurd (let k = ap (λ r. r.1) e in ground arith)
config_of-key io (content text) {cfg} e =
    checked_key (io.decode_config default_config text) {cfg = cfg} e

pub load-IsLoaded :
    (io : Coders) (d : Disk) (path : Bytes) {cfg : Config}
    → load_config io d path ≡ (cfg, true)
    → IsLoaded io d path cfg
unfolding load_config read_file IsLoaded
load-IsLoaded io d path {cfg} e = (
  elim (Bool-cases (d.denied path)) [ inr k ↦ k | inl k ↦ absurd (denied_fails k) ],
  config_of-key io (read_file d path) {cfg = cfg} e,
)
  where
    denied_fails : d.denied path ≡ true → ⊥
    denied_fails k =
        let same : read_file d path ≡ failed = rw k refl in
        let fails = ap (λ r. r.1) (sym (ap (config_of io) same) ∙ e) in absurd (ground arith)

pub load-save :
    (io : Coders) (d : Disk) (path : Bytes) (cfg : Config)
    → d.denied path ≡ false
    → io.decode_config default_config (io.encode_config cfg) ≡ (cfg, true)
    → is_empty_text cfg.snapshot_key ≡ false
    → (save_config io d path cfg).1 ≡ true
    → load_config io (save_config io d path cfg).0 path ≡ (cfg, true)
unfolding save_config load_config
load-save io d path cfg open' read key h = elim (Bool-cases (make_dir d (dir path))) [
  | inr k ↦ absurd (ground arith)
  | inl k ↦
      let done : (write_file d path (io.encode_config cfg)).1 ≡ true = ground arith in
      rw k (
        ap (config_of io) (read-write d path (io.encode_config cfg) open' done)
        ∙ ap checked read
        ∙ ap (λ c. (c, true)) (rw key refl))
]
