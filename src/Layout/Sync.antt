-- ===== src/Layout/Sync.antt =====
-- manager.go: `Create` and `Update`, which bring a layout to the file system. The file system is an
-- argument: a record of what its calls do to a state of the world. The runtime chooses the order in
-- which the map of the entries is ranged over; here it is that of the list.

pub mod Marks
pub mod Settled
pub mod Again
mod Examples
use mathlib.Core.List
use mathlib.Core.Option
use apptainer.Prelude.{
  ℕ, String, List, [], ◌∷◌, ◌++◌, Bool, true, false, not, ◌&&◌, ◌||◌, Option, none, some,
  if◌then◌else◌, eqb, ◌==◌, append, Assoc, lookup, insert, keys, dir, base, join_path,
}
use apptainer.Layout.Manager.{
  File, Dir, Symlink, Entry, file_entry, dir_entry, symlink_entry, Override, Manager, Ids,
  LayoutError, no_root, mkdir_failed, chown_failed, write_failed, symlink_failed, wrong_target,
  put_entry, after_first, get_override_path,
}

-- Is the error one of `os.IsExist`?
pub data VfsError : Type 0 where
  exists other : VfsError

-- The interface VFS, and `os.Stat`. The texts are those that the source passes.
pub record Vfs (W : Type 0) : Type 0 where
  pub stat : W → String → Bool
  pub os_stat : W → String → Bool
  pub mkdir : W → String → ℕ → W × Option VfsError
  pub chown : W → String → ℕ → ℕ → W × Option VfsError
  pub lchown : W → String → ℕ → ℕ → W × Option VfsError
  pub write_file : W → String → String → ℕ → W × Option VfsError
  pub symlink : W → String → String → W × Option VfsError
  pub readlink : W → String → Option String
  pub umask : W → ℕ → W × ℕ

-- The manager and the world after some calls, and the error that ended them.
abbrev pub Outcome : Type 0 → Type 0
Outcome W = (Manager × W) × Option LayoutError

abbrev pub override_list : Option Override → List String
override_list none = []
override_list (some o) = o.bound ∷ o.nested

abbrev pub dir_done : String → Dir → Manager → Manager
dir_done p d m = put_entry p (dir_entry (record d { created = true })) m

abbrev pub real_path : String → Manager → Option String → String
real_path p m none = append m.root_path p
real_path p m (some over) = join_path over (base p)

abbrev pub file_done : String → File → Manager → Manager
file_done p f m = put_entry p (file_entry (record f { created = true })) m

abbrev pub symlink_done : String → Symlink → Manager → Manager
symlink_done p s m = put_entry p (symlink_entry (record s { created = true })) m

-- Does the symlink that is there point elsewhere?
abbrev pub points_elsewhere : Symlink → Option String → Bool
points_elsewhere s none = false
points_elsewhere s (some target) = not (target == s.target)

module _ {W : Type 0} where
  abbrev pub and_then : Outcome W → (Manager → W → Outcome W) → Outcome W
  and_then (s, some x) f = (s, some x)
  and_then ((m, w), none) f = f m w

  -- From the result of a call that must succeed on.
  abbrev pub need : Manager → LayoutError → W × Option VfsError → Outcome W
  need m x (w, none) = ((m, w), none)
  need m x (w, some e) = ((m, w), some x)

  unfoldable pub make_overrides : Vfs W → Manager → List String → W → Outcome W
  make_overrides vfs m [] w = ((m, w), none)
  make_overrides vfs m (o ∷ os) w =
      and_then
        (if vfs.stat w o then ((m, w), none) else need m mkdir_failed (vfs.mkdir w o m.dir_mode))
        (λ m' w'. make_overrides vfs m' os w')

  -- A call that gives the entry its owner, if it is not the caller's.
  abbrev pub own : Ids → Manager → ℕ → ℕ → (ℕ → ℕ → W × Option VfsError) → W → Outcome W
  own ids m uid gid call w =
      if not (eqb uid ids.uid) || not (eqb gid ids.gid)
      then need m chown_failed (call uid gid)
      else ((m, w), none)

  abbrev pub made_dir : Vfs W → Ids → String → Dir → Manager → W × Option VfsError → Outcome W
  made_dir vfs ids p d m (w, some exists) = ((dir_done p d m, w), none)
  made_dir vfs ids p d m (w, some other) = ((m, w), some mkdir_failed)
  made_dir vfs ids p d m (w, none) =
      and_then (own ids m d.uid d.gid (vfs.chown w (append m.root_path p)) w)
        (λ m' w'. ((dir_done p d m', w'), none))

  abbrev pub sync_dir : Vfs W → Ids → String → Option Entry → Manager → W → Outcome W
  sync_dir vfs ids p (some (dir_entry d)) m w =
      if d.created
      then ((m, w), none)
      else and_then (make_overrides vfs m (override_list (lookup p m.ov_dirs)) w) (λ m' w'.
        made_dir vfs ids p d m' (
          vfs.mkdir w' (append m'.root_path p)
            (if not (eqb d.mode m'.dir_mode) then d.mode else m'.dir_mode)))
  sync_dir vfs ids p _ m w = ((m, w), none)

  unfoldable pub sync_dirs : Vfs W → Ids → List String → Manager → W → Outcome W
  unfolding make_overrides
  sync_dirs vfs ids [] m w = ((m, w), none)
  sync_dirs vfs ids (p ∷ ps) m w =
      and_then (sync_dir vfs ids p (lookup p m.entries) m w) (λ m' w'. sync_dirs vfs ids ps m' w')

  abbrev pub wrote :
      Vfs W → Ids → String → String → File → Manager → W × Option VfsError → Outcome W
  wrote vfs ids p path f m (w, some exists) = ((file_done p f m, w), none)
  wrote vfs ids p path f m (w, some other) =
      if vfs.os_stat w path then ((file_done p f m, w), none) else ((m, w), some write_failed)
  wrote vfs ids p path f m (w, none) =
      and_then (own ids m f.uid f.gid (vfs.chown w path) w)
        (λ m' w'. ((file_done p f m', w'), none))

  abbrev pub linked :
      Vfs W → Ids → String → String → Symlink → Manager → W × Option VfsError → Outcome W
  linked vfs ids p path s m (w, some other) = ((m, w), some symlink_failed)
  linked vfs ids p path s m (w, some exists) =
      if points_elsewhere s (vfs.readlink w path)
      then ((m, w), some wrong_target)
      else ((symlink_done p s m, w), none)
  linked vfs ids p path s m (w, none) =
      and_then (own ids m s.uid s.gid (vfs.lchown w path) w)
        (λ m' w'. ((symlink_done p s m', w'), none))

  abbrev pub sync_entry : Vfs W → Ids → String → String → Option Entry → Manager → W → Outcome W
  sync_entry vfs ids p path (some (file_entry f)) m w =
      if f.created
      then ((m, w), none)
      else wrote vfs ids p path f m (vfs.write_file w path f.content f.mode)
  sync_entry vfs ids p path (some (symlink_entry s)) m w =
      if s.created then ((m, w), none) else linked vfs ids p path s m (vfs.symlink w s.target path)
  sync_entry vfs ids p path _ m w = ((m, w), none)

  unfoldable pub sync_entries : Vfs W → Ids → List String → Manager → W → Outcome W
  unfolding get_override_path
  sync_entries vfs ids [] m w = ((m, w), none)
  sync_entries vfs ids (p ∷ ps) m w =
      and_then
        (sync_entry vfs ids p (real_path p m (get_override_path (dir p) m)) (lookup p m.entries) m
          w)
        (λ m' w'. sync_entries vfs ids ps m' w')

  -- Both loops.
  unfoldable pub sync_all : Vfs W → Ids → Manager → W → Outcome W
  unfolding sync_dirs sync_entries
  sync_all vfs ids m w =
      and_then (sync_dirs vfs ids (after_first m.dirs) m w)
        (λ m' w'. sync_entries vfs ids (keys m'.entries) m' w')

  -- The deferred call
  abbrev pub restore : Vfs W → ℕ → Outcome W → Outcome W
  restore vfs mask ((m, w), x) = ((m, (vfs.umask w mask).0), x)

  unfoldable pub masked : Vfs W → Ids → Manager → W × ℕ → Outcome W
  unfolding sync_all
  masked vfs ids m (w, mask) = restore vfs mask (sync_all vfs ids m w)

  abbrev pub rooted : Vfs W → Ids → Manager → W → Assoc Entry → Outcome W
  rooted vfs ids m w [] = ((m, w), some no_root)
  rooted vfs ids m w (_ ∷ _) = masked vfs ids m (vfs.umask w 0)

  unfoldable pub sync : Vfs W → Ids → Manager → W → Outcome W
  unfolding sync_all
  sync vfs ids m w = rooted vfs ids m w m.entries
