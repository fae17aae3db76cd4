-- ===== src/Mount/System/Examples.antt =====
-- Runs of `MountAll` and of the sort.
use apptainer.Prelude.{
  ℕ, String, List, [], ◌∷◌, ◌++◌, true, none, some, ◌≡◌, refl, select, lookup, append, insert,
  clean, split, join, is_abs,
}
use apptainer.Mount.Points.{Point, authorized_tags}
use apptainer.Mount.System.{
  Step, Calls, System, sort, mount_all, get_tag_list, byte_length, count_slashes,
}
use apptainer.Mount.System.Sorting.{ordered, has_key, sort-IsSorted}

abbrev point : String → Point
point dest = record {
  source = "/data";
  destination = dest;
  fstype = "";
  options = [];
  internal = [];
}

abbrev binds : List Point
binds = point "/a/b" ∷ point "/c" ∷ point "/d" ∷ point "/" ∷ []

sort-IsSorted_example :
    (ordered (sort binds) ≡ true)
    × ((d n : ℕ) → select (has_key d n) (sort binds) ≡ select (has_key d n) binds)
sort-IsSorted_example = sort-IsSorted binds

get_tag_list_test :
    get_tag_list
    ≡ "sessiondir" ∷ "rootfs" ∷ "imagebind" ∷ "prelayer" ∷ "layer" ∷ "shared" ∷ "dev" ∷ "hostfs"
      ∷ "binds" ∷ "kernel" ∷ "home" ∷ "tmp" ∷ "scratch" ∷ "files" ∷ "userbinds" ∷ "cwd" ∷ "other"
      ∷ "final" ∷ []
unfolding get_tag_list
get_tag_list_test = refl

-- Hooks that set the mount function and that add a point, and a mount function that notes the point.
data Hook : Type 0 where
  set_mount : Hook
  add_point : String → Hook

abbrev run_hook : Hook → Step Hook Unit (List String)
run_hook set_mount b = (record b { mount = some tt }, true)
run_hook (add_point dest) b =
    (record b { points = record (b.points) { points = ("cwd", point dest ∷ []) ∷ [] } }, true)

abbrev calls : Calls Hook Unit (List String)
calls = record {
  hook = run_hook;
  mount =
      λ m x b. (record b { world = b.world ++ (append b.current_tag x.destination) ∷ [] }, true);
}

abbrev system : System Hook Unit (List String)
system = record {
  points = record {
    context = "";
    points = ("userbinds", binds) ∷ ("rootfs", point "/root" ∷ []) ∷ [];
  };
  mount = none;
  current_tag = "";
  before = ("cwd", add_point "/work" ∷ []) ∷ [];
  after = ("binds", set_mount ∷ []) ∷ [];
  world = [];
}

-- The mount function is set after the system binds, so that the root is not mounted, and the point that a
-- hook adds before its tag is mounted.
mount_all_test :
    (mount_all calls system).0.world
    ≡ "userbinds/" ∷ "userbinds/c" ∷ "userbinds/d" ∷ "userbinds/a/b" ∷ "cwd/work" ∷ []
unfolding mount_all lookup sort insert authorized_tags clean split join is_abs byte_length
    count_slashes
mount_all_test = refl
