-- ===== src/Layout/Session.antt =====
-- session_linux.go: the paths of a session. A session is a manager and, where it has a layer, the
-- directory of the layer.
use apptainer.Prelude.{String, Option, none, some, join_path}
use apptainer.Layout.Manager.{Manager, Result, ok, err, get_path, override_dir}

pub record Session : Type 0 where
  pub manager : Manager
  pub layer : Option String

abbrev pub root_fs_dir : String
root_fs_dir = "/rootfs"

abbrev pub final_dir : String
final_dir = "/final"

abbrev pub path_or_empty : Result String → String
path_or_empty (ok path) = path
path_or_empty (err x) = ""

-- `path, _ := s.GetPath(path)`
abbrev pub known_path : String → Manager → String
known_path path m = path_or_empty (get_path path m)

-- `Path`
abbrev pub session_path : Session → String
session_path s = known_path "/" s.manager

-- `RootFsPath`
abbrev pub root_fs_path : Session → String
root_fs_path s = known_path root_fs_dir s.manager

abbrev final_of : Option String → Session → String
final_of none s = root_fs_path s
final_of (some layer) s = known_path final_dir s.manager

-- `FinalPath`
abbrev pub final_path : Session → String
final_path s = final_of s.layer s

abbrev in_layer : Option String → String → String
in_layer none path = path
in_layer (some layer) path = join_path layer path

-- `OverrideDir`
abbrev pub override_session_dir : String → String → Session → Session
override_session_dir path realpath s = record s {
  manager = override_dir (in_layer s.layer path) realpath s.manager;
}
