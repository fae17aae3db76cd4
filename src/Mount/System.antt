-- ===== src/Mount/System.antt =====
-- The order in which the points are mounted: GetTagList and PointList.Sort of mount_linux.go, and
-- system_linux.go. A hook and the mount function may change all of the system and the world.
mod Examples
pub mod Sorting
use mathlib.Core.Option
use mathlib.Core.Nat
use Prim.Native.Char.{code}
use Prim.Native.String
use apptainer.Prelude.{
  ℕ, zero, suc, ◌+◌, String, List, [], ◌∷◌, ◌++◌, Bool, true, false, not, ◌&&◌, ◌||◌, Option, none,
  some, eqb, ltb, if◌then◌else◌, ◌==◌, Assoc, lookup, insert, is_some, clean,
}
use apptainer.Mount.Points.{Point, Points, TagInfo, authorized_tags, get_by_tag}

unfoldable pub count_slashes : String → ℕ
count_slashes String.[] = 0
count_slashes (String.◌∷◌ c s) = if eqb (code c) b'/' then 1 + count_slashes s else count_slashes s

-- `len` of a text: its bytes in UTF-8
unfoldable pub byte_length : String → ℕ
byte_length String.[] = 0
byte_length (String.◌∷◌ c s) =
    (if ltb (code c) 128
      then 1
      else if ltb (code c) 2048
      then 2
      else if ltb (code c) 65536
      then 3
      else 4)
    + byte_length s

unfoldable pub less : Point → Point → Bool
unfolding clean
less x y =
    let i = clean x.destination in
    let j = clean y.destination in
    if eqb (count_slashes i) (count_slashes j)
    then ltb (byte_length i) (byte_length j)
    else ltb (count_slashes i) (count_slashes j)

-- `sort.Stable`: an element goes before the first one that it is not after.
unfoldable pub insert_point : Point → List Point → List Point
insert_point x [] = x ∷ []
insert_point x (y ∷ ys) = let rest = insert_point x ys in if less y x then y ∷ rest else x ∷ y ∷ ys

unfoldable pub sort : List Point → List Point
unfolding insert_point less
sort [] = []
sort (x ∷ xs) = insert_point x (sort xs)

-- `tagList[i] = tag`
unfoldable pub set_at : ℕ → String → List String → List String
set_at i tag [] = []
set_at zero tag (x ∷ xs) = tag ∷ xs
set_at (suc i) tag (x ∷ xs) = x ∷ set_at i tag xs

unfoldable pub blanks : Assoc TagInfo → List String
blanks [] = []
blanks (x ∷ m) = "" ∷ blanks m

unfoldable pub place_tags : Assoc TagInfo → List String → List String
unfolding set_at
place_tags [] tags = tags
place_tags ((tag, info) ∷ m) tags = place_tags m (set_at info.order tag tags)

unfoldable pub get_tag_list : List String
unfolding place_tags blanks authorized_tags
get_tag_list = place_tags authorized_tags (blanks authorized_tags)

-- `System`, and the world that its hooks and its mount function act on. A hook and a mount function
-- are named by values of `H` and `M`, since they take the system themselves and may change it.
pub record System (H M W : Type 0) : Type 0 where
  pub points : Points
  pub mount : Option M
  pub current_tag : String
  pub before : Assoc (List H)
  pub after : Assoc (List H)
  pub world : W

-- A step, and whether it succeeds.
abbrev pub Step : Type 0 → Type 0 → Type 0 → Type 0
Step H M W = System H M W → System H M W × Bool

-- What the named functions do
pub record Calls (H M W : Type 0) : Type 0 where
  pub hook : H → Step H M W
  pub mount : M → Point → Step H M W

abbrev pub hooks_of : {H : Type 0} → Option (List H) → List H
hooks_of none = []
hooks_of (some fs) = fs

abbrev pub is_sorted_mount : Option TagInfo → Bool
is_sorted_mount none = false
is_sorted_mount (some t) = t.sorted_mount

abbrev pub sort_list : String → Option (List Point) → Points → Points
sort_list tag none p = p
sort_list tag (some xs) p = record p { points = insert tag (sort xs) p.points }

module _ {H M W : Type 0} where
  -- `none` is the error for a tag that is not authorized.
  unfoldable pub run_before_tag : String → H → System H M W → Option (System H M W)
  run_before_tag tag fn b =
      if not (is_some (lookup tag authorized_tags))
      then none
      else some
          (record b { before = insert tag (hooks_of (lookup tag b.before) ++ fn ∷ []) b.before })

  unfoldable pub run_after_tag : String → H → System H M W → Option (System H M W)
  run_after_tag tag fn b =
      if not (is_some (lookup tag authorized_tags))
      then none
      else some (record b { after = insert tag (hooks_of (lookup tag b.after) ++ fn ∷ []) b.after })

  -- The next step is taken where the one before succeeds.
  abbrev pub then_step : System H M W × Bool → Step H M W → System H M W × Bool
  then_step (b, true) f = f b
  then_step (b, false) f = (b, false)

  -- The loop over the hooks of a tag, as they are when it begins
  unfoldable pub run_hooks : Calls H M W → List H → Step H M W
  run_hooks c [] b = (b, true)
  run_hooks c (h ∷ hs) b = then_step (c.hook h b) (run_hooks c hs)

  -- `Mount`, where it is set
  abbrev pub mount_point : Calls H M W → Option M → Point → Step H M W
  mount_point c none x b = (b, true)
  mount_point c (some m) x b = c.mount m x b

  -- The loop over the points of a tag, which looks for `Mount` at each point
  unfoldable pub mount_points : Calls H M W → List Point → Step H M W
  mount_points c [] b = (b, true)
  mount_points c (x ∷ xs) b = then_step (mount_point c b.mount x b) (mount_points c xs)

  -- The sort is in place.
  abbrev pub sort_tag : String → System H M W → System H M W
  sort_tag tag b =
      if is_sorted_mount (lookup tag authorized_tags)
      then record b { points = sort_list tag (lookup tag b.points.points) b.points }
      else b

  unfoldable pub mount_sorted : Calls H M W → String → Step H M W
  unfolding mount_points
  mount_sorted c tag b = let b' = sort_tag tag b in mount_points c (get_by_tag b'.points tag) b'

  unfoldable pub mount_tag : Calls H M W → String → Step H M W
  unfolding run_hooks mount_sorted
  mount_tag c tag b =
      then_step
        (then_step (run_hooks c (hooks_of (lookup tag b.before)) (record b { current_tag = tag }))
          (mount_sorted c tag))
        (λ b'. run_hooks c (hooks_of (lookup tag b'.after)) b')

  unfoldable pub mount_tags : Calls H M W → List String → Step H M W
  unfolding mount_tag
  mount_tags c [] b = (b, true)
  mount_tags c (tag ∷ tags) b = then_step (mount_tag c tag b) (mount_tags c tags)

  unfoldable pub mount_all : Calls H M W → Step H M W
  unfolding get_tag_list mount_tags
  mount_all c b = mount_tags c get_tag_list b
