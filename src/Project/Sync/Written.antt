-- ===== src/Project/Sync/Written.antt =====
-- Writes that succeed (pkg/project/project.go).
use bug_it.Base.{◌≡◌, refl, ◌≢◌, inl, inr, true, [], ◌++◌, Bool-cases}
use bug_it.Text.{Bytes}
use bug_it.Text.Path.{dir}
use bug_it.Project.{Config, layout_for}
use bug_it.Project.Disk.{
  Disk, Read, content, missing, failed, Coders, read_file, write_file, make_dir, save_config,
  ensure_layout, ignores_dir, ignore_line, add_ignore, ignore_read, ensure_gitignore,
  gitignore_path,
}

-- Every path can be written.
abbrev pub IsWritable : Disk → Type 0
IsWritable d = (p : Bytes) → d.writable p ≡ true

write_file-succeeds :
    (d : Disk) (path text : Bytes)
    → IsWritable d
    → ((write_file d path text).1 ≡ true) × IsWritable (write_file d path text).0
unfolding write_file
write_file-succeeds d path text w = rw (w path) (refl, w)

pub save_config-succeeds :
    (io : Coders) (d : Disk) (path : Bytes) (cfg : Config)
    → IsWritable d
    → (save_config io d path cfg).1 ≡ true
unfolding save_config make_dir
save_config-succeeds io d path cfg w =
    rw (w (dir path)) (write_file-succeeds d path (io.encode_config cfg) w).0

add_ignore-succeeds :
    (d : Disk) (path text : Bytes)
    → IsWritable d
    → ((add_ignore d path text).1 ≡ true) × IsWritable (add_ignore d path text).0
add_ignore-succeeds d path text w = elim (Bool-cases (ignores_dir text)) [
  | inl e ↦ rw e (refl, w)
  | inr e ↦ rw e (write_file-succeeds d path (text ++ ignore_line text) w)
]

ignore_read-succeeds :
    (d : Disk) (path : Bytes) (r : Read)
    → IsWritable d
    → r ≢ failed
    → ((ignore_read d path r).1 ≡ true) × IsWritable (ignore_read d path r).0
ignore_read-succeeds d path failed w ok = absurd (ok refl)
ignore_read-succeeds d path missing w ok = add_ignore-succeeds d path [] w
ignore_read-succeeds d path (content text) w ok = add_ignore-succeeds d path text w

pub ensure_layout-succeeds :
    (d : Disk) (root : Bytes)
    → IsWritable d
    → read_file d (gitignore_path root) ≢ failed
    → ((ensure_layout d root).1 ≡ true) × IsWritable (ensure_layout d root).0
unfolding ensure_layout ensure_gitignore make_dir
ensure_layout-succeeds d root w ok = rw (w (layout_for root).bugit_dir) (
    rw (w (layout_for root).snapshots_path) (
      rw (w (layout_for root).data_path)
        (ignore_read-succeeds d (gitignore_path root) (read_file d (gitignore_path root)) w ok)))
