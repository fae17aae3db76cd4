-- ===== src/Layout/Underlay/Layers.antt =====
-- What planning and creating an underlay does to the layout and the mount points.
use apptainer.Prelude.{String, [], ◌∷◌, ◌++◌, false, none, some, ◌==◌, lookup, ◌≡◌}
use apptainer.Layout.Manager.{Entry, Manager}
use apptainer.Layout.Manager.Listed.{Listed}
use apptainer.Layout.Sync.Marks.{Grown}
use apptainer.Layout.Sync.Again.{Created}
use apptainer.Layout.Session.{known_path, session_path, final_path}
use apptainer.Mount.Points
use apptainer.Mount.Points.{Point, Points, get_by_tag, add}
use apptainer.Mount.System.{get_tag_list}
use apptainer.Layout.Underlay.{underlay_dir, pre_layer_tag, layer_tag, Look, Work, Done}
use apptainer.Layout.Underlay.Kept.{Kept}
use apptainer.Layout.Underlay.Served.{Serves}

-- The entries of the layout stay, and so do the points of every tag but the two of the layer.
pub record Apart (w w' : Work) : Type 0 where
  pub entries :
      (p : String) (e : Entry)
      → lookup p w.session.manager.entries ≡ some e
      → lookup p w'.session.manager.entries ≡ some e
  pub tags :
      (t : String)
      → (pre_layer_tag == t) ≡ false
      → (layer_tag == t) ≡ false
      → get_by_tag w'.points t ≡ get_by_tag w.points t
  pub listed : Listed w.session.manager → Listed w'.session.manager

-- The layer has two points more, of the underlay on the final directory.
pub record Bound (w w' : Work) : Type 0 where
  pub bind : Point
  pub remount : Point
  pub points : get_by_tag w'.points layer_tag ≡ get_by_tag w.points layer_tag ++ bind ∷ remount ∷ []
  pub source : bind.source ≡ known_path underlay_dir w'.session.manager
  pub destination : bind.destination ≡ final_path w'.session
  pub remounted : remount.destination ≡ final_path w'.session

abbrev Ending : Work → Done → Type 0
Ending w d = Apart w d.0 × (d.1 ≡ none → Bound w d.0)

-- What a successful createLayer leaves: a planned layout that has all entries of before and one for
-- every mount point that needs it, of which the update changed only the marks, and after which every
-- entry but the root is created.
pub record Layered (look : Look) (root : String) (w w' : Work) : Type 0 where
  pub planned : Work
  pub apart : Apart w planned
  pub serves : Serves look root (session_path w.session) w.points get_tag_list planned
  pub bound : Bound w planned
  pub grown : Grown planned.session.manager w'.session.manager
  pub created : Created w'.session.manager
  pub points : w'.points ≡ planned.points
