-- ===== src/Project/Hooks/Package.antt =====
-- What is left of a package.json whose script has been patched (pkg/project/hooks.go).
use bug_it.Base.{
  ℕ, ℤ, ◌≡◌, refl, ap, sym, ◌∙◌, inl, inr, Bool, true, false, [], ◌∷◌, ◌++◌, some, if◌then◌else◌,
  arith, Bool-cases, append_assoc, not,
}
use bug_it.Text.{Bytes, bytes_eq, bytes_eq_refl}
use bug_it.Text.Path.{join, dir}
use bug_it.Inspector.{is_empty_text}
use bug_it.Project.{Config, Scripts, layout_for, dir_name, config_name, package_json}
use bug_it.Project.Disk.{Disk, Coders, content, write_file, save_config, make_dir, load_config}
use bug_it.Project.Hooks.{
  is_hooked, patch_dev_script, persist_inspect_port, persist_loaded, dev_script, with_dev, Synced,
  unchanged, patched, outcome, and_then, write_package, sync_scripts, sync_read, decoded_scripts,
}

bytes_eq-append : (r a b : Bytes) → bytes_eq (r ++ a) (r ++ b) ≡ bytes_eq a b
unfolding bytes_eq
bytes_eq-append [] a b = refl
bytes_eq-append (c ∷ r) a b = ground (arith, bytes_eq-append r a b)

not_slash :
    (c : ℕ) (s : Bytes) (d : ℕ) (t : Bytes) → bytes_eq (c ∷ (s ++ d ∷ t)) (b'/' ∷ []) ≡ false
unfolding bytes_eq
not_slash c [] d t = ground arith
not_slash c (e ∷ s) d t = ground arith

join_plain :
    (c : ℕ) (s name : Bytes)
    → bytes_eq (c ∷ s) (b'/' ∷ []) ≡ false
    → join (c ∷ s) name ≡ (c ∷ s) ++ b'/' ∷ name
unfolding join
join_plain c s name e = rw e refl

join_top :
    (c : ℕ) (s name : Bytes) → bytes_eq (c ∷ s) (b'/' ∷ []) ≡ true → join (c ∷ s) name ≡ b'/' ∷ name
unfolding join
join_top c s name e = rw e refl

-- The settings file and the package.json of a folder are two files.
paths-differ :
    (root : Bytes)
    → bytes_eq (join root package_json) (join (join root dir_name) config_name) ≡ false
paths-differ [] = unfold join bytes_eq in refl
paths-differ (c ∷ s) = elim (Bool-cases (bytes_eq (c ∷ s) (b'/' ∷ []))) [
  | inl top ↦
      rw (join_top c s package_json top)
        (rw (join_top c s dir_name top) (unfold join bytes_eq in refl))
  | inr plain ↦ rw (join_plain c s package_json plain) (
      rw (join_plain c s dir_name plain) (
        rw (join_plain c (s ++ b'/' ∷ dir_name) config_name (not_slash c s b'/' dir_name)) (
          rw (append_assoc s (b'/' ∷ dir_name) (b'/' ∷ config_name)) (
            bytes_eq-append (c ∷ s) (b'/' ∷ package_json) (b'/' ∷ dir_name ++ b'/' ∷ config_name)
            ∙ (unfold bytes_eq in refl)))))
]

write_file-other :
    (d : Disk) (path text p : Bytes)
    → bytes_eq p path ≡ false
    → (write_file d path text).0.files p ≡ d.files p
unfolding write_file
write_file-other d path text p e = elim (Bool-cases (d.writable path)) [
  | inl w ↦ rw w (rw e refl)
  | inr w ↦ rw w refl
]

pub write_file-here :
    (d : Disk) (path text : Bytes)
    → (write_file d path text).1 ≡ true
    → (write_file d path text).0.files path ≡ some text
unfolding write_file
write_file-here d path text h = elim (Bool-cases (d.writable path)) [
  | inl w ↦ rw w (rw (bytes_eq_refl path) refl)
  | inr w ↦ absurd (ground arith)
]

save_config-other :
    (io : Coders) (d : Disk) (path : Bytes) (cfg : Config) (p : Bytes)
    → bytes_eq p path ≡ false
    → (save_config io d path cfg).0.files p ≡ d.files p
unfolding save_config
save_config-other io d path cfg p e = elim (Bool-cases (make_dir d (dir path))) [
  | inl w ↦ rw w (write_file-other d path (io.encode_config cfg) p e)
  | inr w ↦ rw w refl
]

persist_loaded-other :
    (io : Coders) (d : Disk) (path : Bytes) (inspect_port : ℤ) (loaded : Config × Bool) (p : Bytes)
    → bytes_eq p path ≡ false
    → (persist_loaded io d path inspect_port loaded).0.files p ≡ d.files p
persist_loaded-other io d path inspect_port (cfg, true) p e = save_config-other io d path _ p e
persist_loaded-other io d path inspect_port (cfg, false) p e = refl

-- Only a write that succeeded is followed by the other one.
outcome-patched :
    (w : Disk × Bool) (next : Disk → Disk × Bool) (p : Bytes)
    → ((d : Disk) → (next d).0.files p ≡ d.files p)
    → (outcome patched (and_then w next)).1 ≡ patched
    → (w.1 ≡ true) × ((outcome patched (and_then w next)).0.files p ≡ w.0.files p)
outcome-patched (d, false) next p keep e = absurd (ground arith)
outcome-patched (d, true) next p keep e = (refl, outcome_files (next d) ∙ keep d)
  where
    outcome_files : (r : Disk × Bool) → (outcome patched r).0.files p ≡ r.0.files p
    outcome_files (d', true) = refl
    outcome_files (d', false) = refl

write_package-text :
    (io : Coders) (d : Disk) (root : Bytes) (inspect_port : ℤ) (scripts : Scripts)
    → (write_package io d root inspect_port scripts).1 ≡ patched
    → (write_package io d root inspect_port scripts).0.files (join root package_json)
      ≡ some (io.encode_scripts scripts ++ 10 ∷ [])
unfolding write_package persist_inspect_port layout_for
write_package-text io d root inspect_port scripts e =
    let path = join (join root dir_name) config_name in
    let (ok, same) =
      outcome-patched (write_file d (join root package_json) (io.encode_scripts scripts ++ 10 ∷ []))
        (λ d'. persist_loaded io d' path inspect_port (load_config io d' path))
        (join root package_json)
        (λ d'.
          persist_loaded-other io d' path inspect_port (load_config io d' path)
            (join root package_json) (paths-differ root))
        e in
    same ∙ write_file-here d (join root package_json) (io.encode_scripts scripts ++ 10 ∷ []) ok

outcome-unchanged : (r : Disk × Bool) → (outcome unchanged r).1 ≡ patched → ⊥
outcome-unchanged (d, true) e = absurd (ground arith)
outcome-unchanged (d, false) e = absurd (ground arith)

-- Behind the early returns, which all leave the package.json alone, stands the last step.
chain-last :
    (a b c : Bool) (r : Disk × Bool) (last : Disk × Synced)
    → (if a
        then outcome unchanged r
        else if b
        then outcome unchanged r
        else if c
        then outcome unchanged r
        else last).1
      ≡ patched
    → ((if a
          then outcome unchanged r
          else if b
          then outcome unchanged r
          else if c
          then outcome unchanged r
          else last)
        ≡ last)
      × (last.1 ≡ patched)
chain-last true b c r last e = absurd (outcome-unchanged r e)
chain-last false true c r last e = absurd (outcome-unchanged r e)
chain-last false false true r last e = absurd (outcome-unchanged r e)
chain-last false false false r last e = (refl, e)

sync_scripts-text :
    (io : Coders) (d : Disk) (root : Bytes) (inspect_port : ℤ) (scripts : Scripts)
    → (sync_scripts io d root inspect_port scripts).1 ≡ patched
    → (sync_scripts io d root inspect_port scripts).0.files (join root package_json)
      ≡ some (
          io.encode_scripts
            (with_dev scripts (patch_dev_script (dev_script scripts) inspect_port).0)
          ++ 10 ∷ [])
unfolding sync_scripts
sync_scripts-text io d root inspect_port scripts e =
    let (same, done) =
      chain-last (is_empty_text (dev_script scripts)) (is_hooked (dev_script scripts))
        (not (patch_dev_script (dev_script scripts) inspect_port).1)
        (persist_inspect_port io d (layout_for root).config_path inspect_port)
        (write_package io d root inspect_port
          (with_dev scripts (patch_dev_script (dev_script scripts) inspect_port).0))
        e in
    ap (λ r. r.0.files (join root package_json)) same
    ∙ write_package-text io d root inspect_port
        (with_dev scripts (patch_dev_script (dev_script scripts) inspect_port).0) done

-- Where `SyncDevScript` patches a package.json, the file then holds the scripts that were read from it, with the
-- patched script in its place, and nothing else of what it held.
pub sync_read-scripts_only :
    (io : Coders) (d : Disk) (root : Bytes) (inspect_port : ℤ) (text : Bytes) (scripts : Scripts)
    → io.decode_scripts text ≡ some scripts
    → let after = sync_read io d root inspect_port (content text) in
      after.1 ≡ patched
      → after.0.files (join root package_json)
        ≡ some (
            io.encode_scripts
              (with_dev scripts (patch_dev_script (dev_script scripts) inspect_port).0)
            ++ 10 ∷ [])
sync_read-scripts_only io d root inspect_port text scripts read e =
    let same = ap (decoded_scripts io d root inspect_port) read in
    ap (λ r. r.0.files (join root package_json)) same
    ∙ sync_scripts-text io d root inspect_port scripts (sym (ap (λ r. r.1) same) ∙ e)
