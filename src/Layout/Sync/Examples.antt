-- ===== src/Layout/Sync/Examples.antt =====
-- Runs of `Create` and `Update` on a small file system.
use mathlib.Core.Path.{subst}
use apptainer.Prelude.{
  clean, dir, base, join_path, is_abs, String, List, [], ◌∷◌, ◌++◌, Bool, true, false, Option, none,
  some, if◌then◌else◌, contains, lookup, insert, ◌≡◌, refl,
}
use apptainer.Layout.Manager.{
  Manager, Ids, file_entry, dir_entry, set_root_path, add_file, chown, create_parent_dir,
  check_path,
}
use apptainer.Layout.Manager.Listed.{
  Listed, Command, new_file, new_owner, apply_all, apply_all-Listed,
}
use apptainer.Layout.Sync.{Vfs, VfsError, exists, masked, sync}
use apptainer.Layout.Sync.Marks.{Grown}
use apptainer.Layout.Sync.Again.{Created, masked_only, sync-again}

-- The file system is the list of the paths that exist.
abbrev create : List String → String → List String × Option VfsError
create w p = if contains w p then (w, some exists) else (w ++ p ∷ [], none)

abbrev vfs : Vfs (List String)
vfs = record {
  stat = contains;
  os_stat = contains;
  mkdir = λ w p mode. create w p;
  chown = λ w p uid gid. (w, none);
  lchown = λ w p uid gid. (w, none);
  write_file = λ w p content mode. create w p;
  symlink = λ w target p. create w p;
  readlink = λ w p. none;
  umask = λ w mask. (w, 18);
}

abbrev ids : Ids
ids = record { uid = 1000; gid = 1000 }

abbrev layout : Bool → Manager
layout created = record {
  dir_mode = 493;
  file_mode = 420;
  root_path = "/session";
  entries =
      ("/", dir_entry (record { created = false; mode = 493; uid = 1000; gid = 1000 }))
      ∷ ("/etc", dir_entry (record { created = created; mode = 493; uid = 0; gid = 1000 }))
      ∷ (
        "/etc/hosts",
        file_entry
            (record { created = created; mode = 420; uid = 1000; gid = 1000; content = "x" }),
      )
      ∷ [];
  dirs = "/" ∷ "/etc" ∷ [];
  ov_dirs = [];
}

abbrev after : List String
after = "/session" ∷ "/session/etc" ∷ "/session/etc/hosts" ∷ []

sync_test : sync vfs ids (layout false) ("/session" ∷ []) ≡ ((layout true, after), none)
unfolding sync masked lookup insert
sync_test = refl

-- The same layout, by the operations.
abbrev empty : Manager
empty = record {
  dir_mode = 0;
  file_mode = 0;
  root_path = "";
  entries = [];
  dirs = [];
  ov_dirs = [];
}

abbrev commands : List Command
commands = new_file "/etc/hosts" "x" ∷ new_owner "/etc" 0 1000 ∷ []

abbrev rooted_layout : Manager
rooted_layout = (set_root_path ids true "/session" empty).0

rooted_test : set_root_path ids true "/session" empty ≡ (rooted_layout, none)
unfolding set_root_path
rooted_test = refl

built_test : apply_all ids commands rooted_layout ≡ layout false
unfolding set_root_path add_file chown create_parent_dir lookup insert clean dir base join_path
    is_abs check_path
built_test = refl

sync-again_example :
    Grown (layout false) (layout true)
    × Created (layout true)
    × ((v : List String) → sync vfs ids (layout true) v ≡ ((layout true, masked_only vfs v), none))
sync-again_example =
    sync-again vfs ids (layout false) (layout true) ("/session" ∷ []) after
      (subst Listed built_test
        (apply_all-Listed ids true "/session" empty rooted_layout commands refl refl rooted_test))
      sync_test
