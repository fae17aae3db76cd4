-- ===== src/Layout/Underlay.antt =====
-- underlay_linux.go: the layer that creates the mount points which the image does not have. The calls of
-- VFS that only look are a record of answers in a state of the world; a warning is left out.
pub mod Kept
pub mod Planned
pub mod Served
pub mod Layers
pub mod Examples
use mathlib.Core.List
use apptainer.Prelude.{
  ℕ, ◌+◌, String, List, [], ◌∷◌, ◌++◌, Bool, true, false, not, ◌&&◌, ◌||◌, Option, none, some,
  if◌then◌else◌, ◌==◌, leb, ltb, append, split, contains, has_prefix, clean, dir, join_path,
  is_some,
}
use apptainer.Layout.Manager
use apptainer.Layout.Manager.{
  Manager, Ids, LayoutError, Result, add_dir, add_file, add_symlink, get_path, after_first,
}
use apptainer.Layout.Session.{
  Session, root_fs_dir, known_path, session_path, root_fs_path, final_path,
}
use apptainer.Layout.Sync.{Vfs, sync}
use apptainer.Mount.Flags.{Flags, ms_bind, ms_rec, ms_remount, no_flags, or_mask, convert_options}
use apptainer.Mount.Points
use apptainer.Mount.Points.{Go, Point, Points, MountError, get_by_tag}
use apptainer.Mount.Adders.{add_bind, add_remount}
use apptainer.Mount.System.{count_slashes, get_tag_list}

abbrev pub underlay_dir : String
underlay_dir = "/underlay"

abbrev pub pre_layer_tag : String
pre_layer_tag = "prelayer"

abbrev pub layer_tag : String
layer_tag = "layer"

pub record DirEntry : Type 0 where
  pub name : String
  pub is_dir : Bool
  pub is_symlink : Bool

-- `Stat` tells whether there is a directory or another file.
pub record Look : Type 0 where
  pub stat : String → Option Bool
  pub eval_relative : String → String → String
  pub read_dir : String → Option (List DirEntry)
  pub readlink : String → Option String

pub data UnderlayError : Type 0 where
  layout_error : LayoutError → UnderlayError
  mount_error : MountError → UnderlayError
  no_root_fs no_link too_deep : UnderlayError

-- What the functions change: the session and the mount points, also where they fail.
pub record Work : Type 0 where
  pub session : Session
  pub points : Points

abbrev pub Done : Type 0
Done = Work × Option UnderlayError

abbrev pub and_then : Done → (Work → Done) → Done
and_then (w, none) f = f w
and_then (w, some x) f = (w, some x)

abbrev with_manager : Work → Manager → Work
with_manager w m = record w { session = record (w.session) { manager = m } }

abbrev pub layout_done : Work → Manager × Option LayoutError → Done
layout_done w (m, none) = (with_manager w m, none)
layout_done w (m, some x) = (with_manager w m, some (layout_error x))

abbrev pub points_done : Work → Points.Result Points → Done
points_done w (Points.ok p) = (record w { points = p }, none)
points_done w (Points.err x) = (w, some (mount_error x))

-- Is the path an entry of the session?
abbrev pub has_path : String → Work → Bool
has_path path w = is_ok (get_path path w.session.manager)
  where
    is_ok : Result String → Bool
    is_ok (Manager.ok p) = true
    is_ok (Manager.err x) = false

unfoldable pub add_entry : Ids → Bool → String → Work → Done
add_entry ids true path w = layout_done w (add_dir ids path w.session.manager)
add_entry ids false path w = layout_done w (add_file ids path "" w.session.manager)

-- `filepath.Join` of three elements that are not empty
abbrev pub join_three : String → String → String → String
join_three a b c = clean (append a (append "/" (append b (append "/" c))))

-- A bind of the image's file on the entry that was added.
unfoldable pub bind_entry : Go → String → String → Work → Done
bind_entry go src dst w = points_done w (
    add_bind go w.points pre_layer_tag src (known_path dst w.session.manager)
      (or_mask no_flags (ms_bind ∷ [])) [])

abbrev link_to : Ids → String → Option String → Work → Done
link_to ids dst none w = (w, some no_link)
link_to ids dst (some target) w = layout_done w (add_symlink ids dst target w.session.manager)

-- One file of a directory of the image, at its place in the underlay.
unfoldable pub duplicate_file : Go → Look → Ids → String → String → DirEntry → Work → Done
unfolding add_entry bind_entry
duplicate_file go look ids dst src file w =
    if has_path dst w
    then (w, none)
    else if file.is_dir
    then and_then (add_entry ids true dst w) (bind_entry go src dst)
    else if file.is_symlink
    then link_to ids dst (look.readlink src) w
    else and_then (add_entry ids false dst w) (bind_entry go src dst)

unfoldable pub duplicate_files : Go → Look → Ids → String → String → List DirEntry → Work → Done
unfolding duplicate_file
duplicate_files go look ids dir_ path [] w = (w, none)
duplicate_files go look ids dir_ path (file ∷ files) w =
    and_then
      (duplicate_file go look ids (join_three underlay_dir dir_ file.name)
        (join_path path file.name) file w)
      (duplicate_files go look ids dir_ path files)

abbrev files_or_none : Option (List DirEntry) → List DirEntry
files_or_none none = []
files_or_none (some files) = files

-- `duplicateDir`. A directory that cannot be read has nothing to duplicate.
unfoldable pub duplicate_dir : Go → Look → Ids → String → Work → Done
unfolding duplicate_files
duplicate_dir go look ids dir_ w =
    let path = join_path (root_fs_path w.session) dir_ in
    duplicate_files go look ids dir_ path (files_or_none (look.read_dir path)) w

-- The variables of the first loop.
pub record Visit : Type 0 where
  pub work : Work
  pub created : List (String × ℕ)
  pub destinations : List String

-- A path that was created, with the number of its separators as a uint16.
abbrev record_created : String → Visit → Done → Visit × Option UnderlayError
record_created dst v (w, some x) = (record v { work = w }, some x)
record_created dst v (w, none) =
    if leb (count_slashes dst) 65535
    then (record v { work = w; created = v.created ++ (dst, count_slashes dst) ∷ [] }, none)
    else (record v { work = w }, some too_deep)

abbrev create_point : Ids → String → Option Bool → Visit → Visit × Option UnderlayError
create_point ids dst none v = (v, none)
create_point ids dst (some is_dir) v =
    let path = join_path underlay_dir dst in
    if has_path path v.work
    then (v, none)
    else record_created dst v (add_entry ids is_dir path v.work)

-- A mount point whose destination the image does not have is created in the underlay.
unfoldable pub visit_point :
    Look → Ids → String → String → Point → Visit → Visit × Option UnderlayError
unfolding add_entry
visit_point look ids root session_dir point v =
    if (convert_options point.options).0 ms_remount
    then (v, none)
    else if has_prefix point.destination session_dir
    then (v, none)
    else let dst = look.eval_relative point.destination root in
      let seen = record v { destinations = dst ∷ v.destinations } in
      if is_some (look.stat (join_path root dst))
      then (seen, none)
      else create_point ids dst (look.stat point.source) seen

abbrev pub visit_next :
    Visit × Option UnderlayError
    → (Visit → Visit × Option UnderlayError)
    → Visit × Option UnderlayError
visit_next (v, none) f = f v
visit_next (v, some x) f = (v, some x)

unfoldable pub visit_points :
    Look → Ids → String → String → List Point → Visit → Visit × Option UnderlayError
unfolding visit_point
visit_points look ids root session_dir [] v = (v, none)
visit_points look ids root session_dir (x ∷ xs) v =
    visit_next (visit_point look ids root session_dir x v)
      (visit_points look ids root session_dir xs)

-- The loop over the tags reads the points of the beginning, which it does not change.
unfoldable pub visit_tags :
    Look → Ids → String → String → Points → List String → Visit → Visit × Option UnderlayError
unfolding visit_points
visit_tags look ids root session_dir points [] v = (v, none)
visit_tags look ids root session_dir points (tag ∷ tags) v =
    visit_next (visit_points look ids root session_dir (get_by_tag points tag) v)
      (visit_tags look ids root session_dir points tags)

-- `sort.SliceStable` by the number of separators
unfoldable pub insert_path : String × ℕ → List (String × ℕ) → List (String × ℕ)
insert_path x [] = x ∷ []
insert_path x (y ∷ ys) =
    let rest = insert_path x ys in if ltb (y.1) (x.1) then y ∷ rest else x ∷ y ∷ ys

unfoldable pub sort_paths : List (String × ℕ) → List (String × ℕ)
unfolding insert_path
sort_paths [] = []
sort_paths (x ∷ xs) = insert_path x (sort_paths xs)

-- A directory on the way to a new path, at the root of the session
abbrev on_the_way : Ids → String → Work → Done
on_the_way ids p w = if has_path p w then (w, none) else add_entry ids true p w

-- The loop over the elements of a path, up to one that a mount point overrides.
unfoldable pub duplicate_parents :
    Go → Look → Ids → List String → String → List String → Work → Done
unfolding add_entry duplicate_dir
duplicate_parents go look ids destinations p [] w = (w, none)
duplicate_parents go look ids destinations p (s ∷ ss) w =
    let p' = append p (append "/" s) in
    let further = duplicate_parents go look ids destinations p' ss in
    if s == ""
    then further w
    else and_then (on_the_way ids p' w) λ w'.
      if contains destinations p'
      then (w', none)
      else and_then (duplicate_dir go look ids p' w') further

unfoldable pub duplicate_paths : Go → Look → Ids → List String → List (String × ℕ) → Work → Done
unfolding duplicate_parents
duplicate_paths go look ids destinations [] w = (w, none)
duplicate_paths go look ids destinations (x ∷ xs) w =
    and_then
      (duplicate_parents go look ids destinations "" (after_first (split b'/' (dir (x.0)))) w)
      (duplicate_paths go look ids destinations xs)

abbrev pub layer_flags : Flags
layer_flags = or_mask no_flags (ms_bind ∷ ms_rec ∷ 0 ∷ [])

-- The underlay is bound to the final directory.
unfoldable pub bind_layer : Go → Work → Done
bind_layer go w =
    let final = final_path w.session in
    and_then
      (points_done w (
        add_bind go w.points layer_tag (known_path underlay_dir w.session.manager) final layer_flags
          []))
      λ w'. points_done w' (add_remount go w'.points layer_tag final layer_flags)

abbrev from_visit : Go → Look → Ids → Visit × Option UnderlayError → Done
from_visit go look ids (v, some x) = (v.work, some x)
from_visit go look ids (v, none) =
    and_then (duplicate_paths go look ids v.destinations (sort_paths v.created) v.work)
      λ w. and_then (duplicate_dir go look ids "/" w) (bind_layer go)

-- `createLayer` without the update of the session at its end
unfoldable pub plan_layer : Go → Look → Ids → String → Work → Done
unfolding visit_tags duplicate_paths sort_paths duplicate_dir bind_layer get_tag_list
plan_layer go look ids root w = from_visit go look ids (
    visit_tags look ids root (session_path w.session) w.points get_tag_list
      (record { work = w; created = []; destinations = [] }))

module _ {W : Type 0} where
  abbrev pub updated : Work → (Manager × W) × Option LayoutError → (Work × W) × Option UnderlayError
  updated w ((m, v), none) = ((with_manager w m, v), none)
  updated w ((m, v), some x) = ((with_manager w m, v), some (layout_error x))

  -- The update of the session, where its layer could be planned.
  unfoldable pub update_session : Vfs W → Ids → W → Done → (Work × W) × Option UnderlayError
  unfolding sync
  update_session vfs ids v (w, some x) = ((w, v), some x)
  update_session vfs ids v (w, none) = updated w (sync vfs ids w.session.manager v)

  -- `createLayer`
  unfoldable pub create_layer :
      Vfs W → Go → (W → Look) → Ids → String → Work → W → (Work × W) × Option UnderlayError
  unfolding plan_layer update_session
  create_layer vfs go look ids root w v =
      update_session vfs ids v (plan_layer go (look v) ids root w)

  -- `createUnderlay`
  unfoldable pub create_underlay :
      Vfs W → Go → (W → Look) → Ids → Work → W → (Work × W) × Option UnderlayError
  unfolding create_layer
  create_underlay vfs go look ids w v = elim (get_by_tag w.points "rootfs") [
    | [] ↦ ((w, v), some no_root_fs)
    | point ∷ others ↦ create_layer vfs go look ids point.destination w v
  ]
