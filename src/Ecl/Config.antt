-- ===== src/Ecl/Config.antt =====
-- `EclConfig`, `ValidateConfig` and `getExecGroup` of syecl.go. What the file system answers to
-- `filepath.EvalSymlinks` and `filepath.Abs` is an argument; `none` is an error.
mod Examples
pub mod Valid
use apptainer.Prelude.{
  ℕ, String, List, [], ◌∷◌, Bool, true, false, not, ◌&&◌, ◌||◌, Option, none, some, length,
  contains, ◌==◌, eqb, if◌then◌else◌, dir,
}
use apptainer.Ecl.Hex.{Fingerprint, hex_decode}

pub record Execgroup : Type 0 where
  pub tag_name : String
  pub list_mode : String
  pub dir_path : String
  pub key_fps : List String

pub record EclConfig : Type 0 where
  pub activated : Bool
  pub legacy : Bool
  pub exec_groups : List Execgroup

pub data EclError : Type 0 where
  duplicate_dirpath : String → EclError
  unresolved_dirpath : EclError
  unclean_dirpath : EclError
  unknown_mode : EclError
  bad_fingerprint : EclError

-- `decoded, err := hex.DecodeString(k)`
abbrev is_fingerprint_of : Option Fingerprint → Bool
is_fingerprint_of none = false
is_fingerprint_of (some fp) = eqb (length fp) 20

pub is_fingerprint : String → Bool
is_fingerprint k = is_fingerprint_of (hex_decode k)

pub check_fingerprints : List String → Option EclError
check_fingerprints [] = none
check_fingerprints (k ∷ ks) =
    if is_fingerprint k then check_fingerprints ks else some bad_fingerprint

pub is_mode : String → Bool
is_mode m = m == "whitelist" || m == "whitestrict" || m == "blacklist"

-- The first error of two checks.
abbrev pub or_else : Option EclError → Option EclError → Option EclError
or_else none e = e
or_else (some e) f = some e

module _ (eval_symlinks abs : String → Option String) where
  pub check_resolved : String → Option String → Option EclError
  check_resolved path none = some unresolved_dirpath
  check_resolved path (some a) = if path == a then none else some unclean_dirpath

  pub check_abs : String → Option String → Option EclError
  unfolding check_resolved
  check_abs path none = some unresolved_dirpath
  check_abs path (some p) = check_resolved path (abs p)

  pub check_dirpath : String → Option EclError
  unfolding check_abs
  check_dirpath path = if path == "" then none else check_abs path (eval_symlinks path)

  pub check_group : Execgroup → Option EclError
  unfolding check_dirpath check_fingerprints
  check_group g =
      or_else (check_dirpath g.dir_path)
        (if is_mode g.list_mode then check_fingerprints g.key_fps else some unknown_mode)

  -- `seen` is the map of the directories of the groups before.
  pub check_groups : List String → List Execgroup → Option EclError
  check_groups seen [] = none
  check_groups seen (g ∷ gs) =
      if contains seen g.dir_path
      then some (duplicate_dirpath g.dir_path)
      else or_else (check_group g) (check_groups (g.dir_path ∷ seen) gs)

  -- `none` is the nil error.
  unfoldable pub validate_config : EclConfig → Option EclError
  unfolding check_groups check_group
  validate_config ecl = check_groups [] ecl.exec_groups

pub first_in : String → List Execgroup → Option Execgroup
first_in d [] = none
first_in d (g ∷ gs) = if d == g.dir_path then some g else first_in d gs

abbrev pub or_fallback : Option Execgroup → List Execgroup → Option Execgroup
or_fallback (some g) groups = some g
or_fallback none groups = first_in "" groups

-- The group of an image by the name under which its file was opened: the first group of the file's
-- directory, or else the first with an empty one.
unfoldable pub get_exec_group : EclConfig → String → Option Execgroup
unfolding first_in
get_exec_group ecl name = or_fallback (first_in (dir name) ecl.exec_groups) ecl.exec_groups
