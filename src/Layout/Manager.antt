-- ===== src/Layout/Manager.antt =====
-- manager.go: the entries of a layout. The nil map of a manager without a root is the empty list: the
-- root is in the map as soon as there is one, and no operation deletes an entry. A directory of `dirs`
-- is named by its path, since no entry is replaced. `IsDir`, `Getuid` and `Getgid` are arguments.

pub mod Adding
pub mod Checks
pub mod Keeping
pub mod Listed
pub mod Ways
mod Examples
use mathlib.Core.List
use mathlib.Core.Option
use apptainer.Prelude.{
  ℕ, String, List, [], ◌∷◌, ◌++◌, Bool, true, false, not, ◌||◌, Option, none, some, if◌then◌else◌,
  eqb, ◌==◌, append, split, Assoc, lookup, insert, is_some, contains, clean, is_abs, dir, base,
  join_path,
}

pub record File : Type 0 where
  pub created : Bool
  pub mode : ℕ
  pub uid : ℕ
  pub gid : ℕ
  pub content : String

pub record Dir : Type 0 where
  pub created : Bool
  pub mode : ℕ
  pub uid : ℕ
  pub gid : ℕ

pub record Symlink : Type 0 where
  pub created : Bool
  pub uid : ℕ
  pub gid : ℕ
  pub target : String

pub data Entry : Type 0 where
  file_entry : File → Entry
  dir_entry : Dir → Entry
  symlink_entry : Symlink → Entry

-- A list of override directories: the bound one, and the ones to create.
pub record Override : Type 0 where
  pub bound : String
  pub nested : List String

pub record Manager : Type 0 where
  pub dir_mode : ℕ
  pub file_mode : ℕ
  pub root_path : String
  pub entries : Assoc Entry
  pub dirs : List String
  pub ov_dirs : Assoc Override

pub record Ids : Type 0 where
  pub uid : ℕ
  pub gid : ℕ

pub data LayoutError : Type 0 where
  no_root not_absolute already_exists missing not_a_dir root_is_set : LayoutError
  mkdir_failed chown_failed write_failed symlink_failed wrong_target : LayoutError

pub data Result {ℓ} (A : Type ℓ) : Type ℓ where
  ok : A → Result A
  err : LayoutError → Result A

abbrev pub is_empty : Assoc Entry → Bool
is_empty [] = true
is_empty (_ ∷ _) = false

unfoldable pub check_path : Manager → String → Bool → Result String
check_path m path check_exist =
    let p = clean path in
    if is_empty m.entries
    then err no_root
    else if not (is_abs p)
    then err not_absolute
    else if check_exist
    then if is_some (lookup p m.entries) then err already_exists else ok p
    else if is_some (lookup p m.entries)
    then ok p
    else err missing

abbrev pub with_override : String → Option Override → Override
with_override realpath none = record { bound = realpath; nested = [] }
with_override realpath (some o) =
    if o.bound == realpath || contains o.nested realpath
    then o
    else record o { nested = o.nested ++ realpath ∷ [] }

unfoldable pub override_dir : String → String → Manager → Manager
override_dir path realpath m = record m {
  ov_dirs = insert path (with_override realpath (lookup path m.ov_dirs)) m.ov_dirs;
}

-- A directory below an overridden one is created there, too.
abbrev pub override_below : String → Option Override → Manager → Manager
override_below p none m = m
override_below p (some o) m = override_dir p (join_path o.bound (base p)) m

abbrev pub new_dir : Ids → String → Manager → Manager
new_dir ids p m = record m {
  entries =
      insert p
        (dir_entry (record { created = false; mode = m.dir_mode; uid = ids.uid; gid = ids.gid }))
        m.entries;
  dirs = m.dirs ++ p ∷ [];
}

abbrev pub make_dir : Ids → String → Manager → Manager
make_dir ids p m =
    if is_some (lookup p m.entries)
    then m
    else override_below p (lookup (dir p) m.ov_dirs) (new_dir ids p m)

-- The loop: `p` is the path so far.
unfoldable pub make_parents : Ids → String → List String → Manager → Manager
unfolding override_dir
make_parents ids p [] m = m
make_parents ids p (s ∷ ss) m =
    let p' = append p (append "/" s) in
    make_parents ids p' ss (if not (s == "") then make_dir ids p' m else m)

abbrev pub after_first : List String → List String
after_first [] = []
after_first (x ∷ xs) = xs

unfoldable pub create_parent_dir : Ids → String → Manager → Manager
unfolding make_parents
create_parent_dir ids path m = make_parents ids "" (after_first (split b'/' path)) m

abbrev mode_or : ℕ → ℕ → ℕ
mode_or default mode = if eqb mode 0 then default else mode

-- 0o755 and 0o644
abbrev pub default_dir_mode : ℕ
default_dir_mode = 493

abbrev pub default_file_mode : ℕ
default_file_mode = 420

-- The root path changes also where the call fails since there is one.
unfoldable pub set_root_path : Ids → Bool → String → Manager → Manager × Option LayoutError
set_root_path ids is_dir path m =
    let m' = record m { root_path = clean path } in
    if not is_dir
    then (m, some not_a_dir)
    else if not (is_empty m.entries)
    then (m', some root_is_set)
    else let mode = mode_or default_dir_mode m.dir_mode in
      (
        record m' {
          dir_mode = mode;
          file_mode = mode_or default_file_mode m.file_mode;
          entries =
              (
                "/",
                dir_entry (record { created = false; mode = mode; uid = ids.uid; gid = ids.gid }),
              )
              ∷ [];
          dirs = m.dirs ++ "/" ∷ [];
        },
        none,
      )

abbrev pub if_checked : Manager → Result String → (String → Manager) → Manager × Option LayoutError
if_checked m (err x) f = (m, some x)
if_checked m (ok p) f = (f p, none)

unfoldable pub add_dir : Ids → String → Manager → Manager × Option LayoutError
unfolding check_path create_parent_dir
add_dir ids path m = if_checked m (check_path m path true) (λ p. create_parent_dir ids p m)

abbrev pub put_entry : String → Entry → Manager → Manager
put_entry p e m = record m { entries = insert p e m.entries }

unfoldable pub add_file : Ids → String → String → Manager → Manager × Option LayoutError
unfolding check_path create_parent_dir
add_file ids path content m = if_checked m (check_path m path true) (λ p.
    put_entry p
      (file_entry (record {
        created = false;
        mode = m.file_mode;
        uid = ids.uid;
        gid = ids.gid;
        content = content;
      }))
      (create_parent_dir ids (dir p) m))

unfoldable pub add_symlink : Ids → String → String → Manager → Manager × Option LayoutError
unfolding check_path create_parent_dir
add_symlink ids path target m = if_checked m (check_path m path true) (λ p.
    put_entry p
      (symlink_entry (record { created = false; uid = ids.uid; gid = ids.gid; target = target }))
      (create_parent_dir ids (dir p) m))

abbrev pub bound_of : Option Override → Option String
bound_of none = none
bound_of (some o) = some o.bound

unfoldable pub get_override_path : String → Manager → Option String
get_override_path path m = bound_of (lookup path m.ov_dirs)

abbrev pub full_path : Manager → String → Result String → Result String
full_path m path (ok p) = ok (join_path m.root_path path)
full_path m path (err x) = err x

unfoldable pub get_path : String → Manager → Result String
unfolding check_path
get_path path m = full_path m path (check_path m path false)

abbrev pub change_entry : String → (Entry → Entry) → Option Entry → Manager → Manager
change_entry path f none m = m
change_entry path f (some e) m = put_entry path (f e) m

abbrev pub set_mode : ℕ → Entry → Entry
set_mode mode (file_entry f) = file_entry (record f { mode = mode })
set_mode mode (dir_entry d) = dir_entry (record d { mode = mode })
set_mode mode (symlink_entry s) = symlink_entry s

-- The check cleans the path, and the entry is looked up by the path as it was given.
unfoldable pub chmod : String → ℕ → Manager → Manager × Option LayoutError
unfolding check_path
chmod path mode m =
    if_checked m (check_path m path false)
      (λ p. change_entry path (set_mode mode) (lookup path m.entries) m)

abbrev pub set_owner : ℕ → ℕ → Entry → Entry
set_owner uid gid (file_entry f) = file_entry (record f { uid = uid; gid = gid })
set_owner uid gid (dir_entry d) = dir_entry (record d { uid = uid; gid = gid })
set_owner uid gid (symlink_entry s) = symlink_entry (record s { uid = uid; gid = gid })

unfoldable pub chown : String → ℕ → ℕ → Manager → Manager × Option LayoutError
unfolding check_path
chown path uid gid m =
    if_checked m (check_path m path false)
      (λ p. change_entry path (set_owner uid gid) (lookup path m.entries) m)
