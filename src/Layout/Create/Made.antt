-- ===== src/Layout/Create/Made.antt =====
-- That the search for an overridden directory ends, and what the layout has afterwards.
use mathlib.Core.Option
use apptainer.Prelude.{
  any, lookup, All, if◌then◌else◌, ℕ, zero, suc, String, List, [], ◌∷◌, Bool, true, not, ◌||◌,
  Option, none, some, ◌==◌, length, split, dir, is_some, ◌≡◌,
}
use apptainer.Layout.Manager.Listed.{Listed}
use apptainer.Layout.Manager.Ways.{has_entry}
use apptainer.Layout.Manager.{Manager, Ids}
use apptainer.Layout.Sync.{Vfs}
use apptainer.Layout.Sync.Marks.{Grown}
use apptainer.Layout.Sync.Again.{Created}
use apptainer.Layout.Underlay.{Work, Done}
use apptainer.Layout.Underlay.Kept.{Kept}
use apptainer.Mount.Flags.{ms_bind, convert_options}
use apptainer.Mount.Points.{Point, Points, get_by_tag}
use apptainer.Mount.System.{get_tag_list}

-- A path and the directories above it, the root left out
abbrev pub ascent : ℕ → String → List String
ascent zero p = []
ascent (suc n) p = let rest = ascent n (dir p) in if p == "/" then [] else p ∷ rest

-- One of the directories is overridden.
abbrev pub any_over : Manager → List String → Bool
any_over m ds = any (λ d. is_some (lookup d m.ov_dirs)) ds

-- A directory above the destination, the root left out, is overridden.
abbrev pub below_override : Manager → String → Bool
below_override m dest = any_over m (ascent (suc (length (split b'/' dest))) (dir dest))

-- The point has no source, lies below no overridden directory, is no bind or has a source that does
-- not exist, or its destination is an entry of the layout.
abbrev pub is_laid : (String → Option Bool) → Manager → Point → Work → Bool
is_laid stat before x w =
    x.source == ""
    || not (below_override before x.destination)
    || not ((convert_options x.options).0 ms_bind)
    || not (is_some (stat x.source))
    || has_entry x.destination w.session.manager

-- The work is done, not out of fuel, keeps the entries of the layout and the mount points, and at
-- success the condition holds.
abbrev Reached : Work → (Work → Type 0) → Option Done → Type 0
Reached w Q r =
    (d : Done) × (r ≡ some d) × Kept w d.0 × (d.0.points ≡ w.points) × (d.1 ≡ none → Q d.0)

module _ (ids : Ids) (stat : String → Option Bool) (before : Manager) where
  Laid : Point → Work → Type 0
  Laid x w = is_laid stat before x w ≡ true

  AllLaid : List Point → Work → Type 0
  AllLaid xs w = All (λ x. Laid x w) xs

  AllTags : Points → List String → Work → Type 0
  AllTags points tags w = All (λ tag. AllLaid (get_by_tag points tag) w) tags

-- What a successful createLayout leaves: a layout that has all entries of before and one for every
-- mount point that needs it, of which the creation changed only the marks, and after which every
-- entry but the root is created. The mount points stay.
pub record LaidOut (stat : String → Option Bool) (w w' : Work) : Type 0 where
  pub planned : Work
  pub kept : Kept w planned
  pub laid :
      All
        (λ tag.
          All (λ x. is_laid stat w.session.manager x planned ≡ true) (get_by_tag w.points tag))
        get_tag_list
  pub grown : Grown planned.session.manager w'.session.manager
  pub created : Created w'.session.manager
  pub points : w'.points ≡ w.points

module _ {W : Type 0} (vfs : Vfs W) (stat : W → String → Option Bool) (ids : Ids) (v : W) where
  Planned : Work → Work → Type 0
  Planned w p =
      Kept w p
      × AllTags ids (stat v) w.session.manager w.points get_tag_list p
      × (p.points ≡ w.points)
