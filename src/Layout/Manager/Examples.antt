-- ===== src/Layout/Manager/Examples.antt =====
-- Runs of the operations of a layout.
use apptainer.Prelude.{[], ◌∷◌, true, false, none, some, lookup, ◌≡◌, refl, clean}
use apptainer.Layout.Manager.{Manager, Ids, dir_entry, root_is_set, set_root_path, add_file, chmod}
use apptainer.Layout.Manager.Checks.{Tried, Placed, new_file, add_file-Placed}

abbrev ids : Ids
ids = record { uid = 1000; gid = 1000 }

abbrev empty : Manager
empty = record {
  dir_mode = 0;
  file_mode = 0;
  root_path = "";
  entries = [];
  dirs = [];
  ov_dirs = [];
}

abbrev rooted : Manager
rooted = record {
  dir_mode = 493;
  file_mode = 420;
  root_path = "/session";
  entries = ("/", dir_entry (record { created = false; mode = 493; uid = 1000; gid = 1000 })) ∷ [];
  dirs = "/" ∷ [];
  ov_dirs = [];
}

set_root_path_test : set_root_path ids true "/session/" empty ≡ (rooted, none)
unfolding set_root_path clean
set_root_path_test = refl

-- A second root is refused, and the root path has changed.
set_root_path_again_test :
    set_root_path ids true "/other" rooted
    ≡ (record rooted { root_path = "/other" }, some root_is_set)
unfolding set_root_path clean
set_root_path_again_test = refl

-- The check passes for a path that is not clean, and nothing is changed.
chmod_unclean_test : chmod "//" 448 rooted ≡ (rooted, none)
unfolding chmod clean lookup
chmod_unclean_test = refl

add_file-Placed_example :
    Tried rooted "/etc/hosts"
      (λ m'. Placed ids rooted m' (clean "/etc/hosts") (new_file ids rooted "x"))
      (add_file ids "/etc/hosts" "x" rooted)
add_file-Placed_example = add_file-Placed ids "/etc/hosts" "x" rooted
