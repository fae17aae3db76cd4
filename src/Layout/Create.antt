-- ===== src/Layout/Create.antt =====
-- `createLayout` of session_linux.go, which runs after the session is mounted and gives entries to the
-- mount points below overridden directories. The search for such a directory has fuel; `none` is a
-- search that does not end.
pub mod Made
mod Examples
use mathlib.Core.Option
use apptainer.Prelude.{
  ℕ, zero, suc, String, List, [], ◌∷◌, Bool, true, false, not, ◌||◌, Option, none, some,
  if◌then◌else◌, ◌==◌, length, split, dir, is_some,
}
use apptainer.Layout.Manager.{Manager, Ids, LayoutError, get_override_path}
use apptainer.Layout.Sync.{Vfs}
use apptainer.Layout.Underlay.{UnderlayError, Work, Done, has_path, add_entry, update_session}
use apptainer.Mount.Flags.{ms_bind, convert_options}
use apptainer.Mount.Points.{Point, get_by_tag}
use apptainer.Mount.System.{get_tag_list}

-- Is the directory or one above it overridden, the root left out?
unfoldable pub search_overridden : ℕ → String → Manager → Option Bool
unfolding get_override_path
search_overridden zero base_dir m = none
search_overridden (suc fuel) base_dir m =
    let further = search_overridden fuel (dir base_dir) m in
    if base_dir == "/"
    then some false
    else if is_some (get_override_path base_dir m)
    then some true
    else further

-- A round for every element of the destination.
abbrev pub overridden_above : String → Manager → Option Bool
overridden_above dest m = search_overridden (suc (length (split b'/' dest))) (dir dest) m

-- `Stat` of the source tells whether there is a directory or another file.
abbrev pub create_from : Ids → String → Option Bool → Work → Done
create_from ids dest none w = (w, none)
create_from ids dest (some is_dir) w = add_entry ids is_dir dest w

abbrev pub create_below : Ids → (String → Option Bool) → Point → Work → Bool → Done
create_below ids stat x w overridden =
    if not overridden || has_path x.destination w || not ((convert_options x.options).0 ms_bind)
    then (w, none)
    else create_from ids x.destination (stat x.source) w

abbrev pub below_known : Ids → (String → Option Bool) → Point → Work → Option Bool → Option Done
below_known ids stat x w none = none
below_known ids stat x w (some overridden) = some (create_below ids stat x w overridden)

unfoldable pub create_point : Ids → (String → Option Bool) → Point → Work → Option Done
unfolding search_overridden add_entry
create_point ids stat x w =
    if x.source == ""
    then some (w, none)
    else below_known ids stat x w (overridden_above x.destination w.session.manager)

abbrev pub and_next : Option Done → (Work → Option Done) → Option Done
and_next none f = none
and_next (some (w, none)) f = f w
and_next (some (w, some x)) f = some (w, some x)

unfoldable pub create_points : Ids → (String → Option Bool) → List Point → Work → Option Done
unfolding create_point
create_points ids stat [] w = some (w, none)
create_points ids stat (x ∷ xs) w = and_next (create_point ids stat x w) (create_points ids stat xs)

unfoldable pub create_tags : Ids → (String → Option Bool) → List String → Work → Option Done
unfolding create_points
create_tags ids stat [] w = some (w, none)
create_tags ids stat (tag ∷ tags) w =
    and_next (create_points ids stat (get_by_tag w.points tag) w) (create_tags ids stat tags)

module _ {W : Type 0} where
  -- The entries are created at the end.
  unfoldable pub create_layout :
      Vfs W
      → (W → String → Option Bool)
      → Ids
      → Work
      → W
      → Option ((Work × W) × Option UnderlayError)
  unfolding create_tags get_tag_list update_session
  create_layout vfs stat ids w v =
      Option.map (update_session vfs ids v) (create_tags ids (stat v) get_tag_list w)
