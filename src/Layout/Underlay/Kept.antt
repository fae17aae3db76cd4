-- ===== src/Layout/Underlay/Kept.antt =====
-- What the steps that plan an underlay leave as it is.
use mathlib.Core.Path.{subst}
use apptainer.Prelude.{eq_iff}
use apptainer.Prelude.{
  String, List, [], ◌∷◌, ◌++◌, Bool, true, false, Option, none, some, ◌==◌, if◌then◌else◌,
  has_prefix, join, lookup, clean, Bool-cases, inl, inr, ◌≡◌, refl, sym, ◌∙◌,
}
use apptainer.Layout.Manager.{Entry, Manager, Ids, LayoutError, add_dir, add_file, add_symlink}
use apptainer.Layout.Manager.Checks.{
  Tried, Free, Placed, add_dir-Extended, add_file-Placed, add_symlink-Placed,
}
use apptainer.Layout.Manager.Keeping.{
  Over, Over-keeps, add_dir-keeps, add_file-keeps, add_symlink-keeps,
}
use apptainer.Layout.Manager.Listed.{Listed, add_dir-Listed, add_file-Listed, add_symlink-Listed}
use apptainer.Mount.Flags.{Flags, ms_bind, or_mask}
use apptainer.Mount.Points
use apptainer.Mount.Points.{Go, Point, Points, get_by_tag, add}
use apptainer.Mount.Points.Adding.{point_for, add-Extends}
use apptainer.Mount.Adders.{add_bind}
use apptainer.Layout.Underlay.{
  pre_layer_tag, Work, Done, and_then, layout_done, points_done, add_entry, bind_entry,
}

-- The entries of the layout stay, and so do the points of every tag but the one before the layer.
pub record Kept (w w' : Work) : Type 0 where
  pub entries :
      (p : String) (e : Entry)
      → lookup p w.session.manager.entries ≡ some e
      → lookup p w'.session.manager.entries ≡ some e
  pub tags :
      (t : String) → (pre_layer_tag == t) ≡ false → get_by_tag w'.points t ≡ get_by_tag w.points t
  pub layer : w'.session.layer ≡ w.session.layer
  pub listed : Listed w.session.manager → Listed w'.session.manager
  pub over : Over w.session.manager w'.session.manager

pub Kept-refl : (w : Work) → Kept w w
Kept-refl w = record {
  entries = λ p e h. h;
  tags = λ t h. refl;
  layer = refl;
  listed = λ l. l;
  over = λ d h. h;
}

pub Kept-trans : (a b c : Work) → Kept a b → Kept b c → Kept a c
Kept-trans a b c h k = record {
  entries = λ p e l. k.entries p e (h.entries p e l);
  tags = λ t n. k.tags t n ∙ h.tags t n;
  layer = k.layer ∙ h.layer;
  listed = λ l. k.listed (h.listed l);
  over = λ d o. k.over d (h.over d o);
}

pub and_then-Kept :
    (w : Work) (d : Done) (f : Work → Done)
    → Kept w d.0
    → ((w' : Work) → Kept w' (f w').0)
    → Kept w (and_then d f).0
and_then-Kept w (w', none) f h k = Kept-trans w w' (f w').0 h (k w')
and_then-Kept w (w', some x) f h k = h

some-none : {A : Type 0} {o : Option A} {a : A} → o ≡ some a → o ≡ none → ⊥
some-none h k = cc

-- The entries of a manager stay.
abbrev Stays : Manager → Manager → Type 0
Stays m m' = (p : String) (e : Entry) → lookup p m.entries ≡ some e → lookup p m'.entries ≡ some e

layout_done-Kept :
    (w : Work) (r : Manager × Option LayoutError)
    → Stays w.session.manager r.0
    → (Listed w.session.manager → Listed r.0)
    → Over w.session.manager r.0
    → Kept w (layout_done w r).0
layout_done-Kept w (m, none) h l o = record {
  entries = h;
  tags = λ t n. refl;
  layer = refl;
  listed = l;
  over = o;
}
layout_done-Kept w (m, some x) h l o = record {
  entries = h;
  tags = λ t n. refl;
  layer = refl;
  listed = l;
  over = o;
}

Tried-Stays :
    (m : Manager) (path : String) (P : Manager → Type 0) (r : Manager × Option LayoutError)
    → Tried m path P r
    → ((m' : Manager) → Free m path → P m' → Stays m m')
    → Stays m r.0
unfolding Tried
Tried-Stays m path P r (inl (x, e, reason)) k = rw e (λ p e l. l)
Tried-Stays m path P r (inr (m', e, free, h)) k = rw e (k m' free h)

Placed-Stays :
    (ids : Ids) (m m' : Manager) (path : String) (e : Entry)
    → Free m path
    → Placed ids m m' (clean path) e
    → Stays m m'
unfolding Free
Placed-Stays ids m m' path e free h q old l = elim (Bool-cases (clean path == q)) [
  | inl same ↦
      let at = (eq_iff (clean path) q).0 same in
      let nothing = free.2 in
      absurd (some-none (subst (λ p. lookup p m.entries ≡ some old) (sym at) l) nothing)
  | inr other ↦ h.others q other ∙ h.extended.old q old l
]

add_dir-Kept :
    (ids : Ids) (path : String) (w : Work)
    → Kept w (layout_done w (add_dir ids path w.session.manager)).0
add_dir-Kept ids path w =
    layout_done-Kept w (add_dir ids path w.session.manager)
      (Tried-Stays w.session.manager path _ (add_dir ids path w.session.manager)
        (add_dir-Extended ids path w.session.manager) λ m' free h. h.old)
      (add_dir-Listed ids path w.session.manager)
      (add_dir-keeps ids (Over w.session.manager) (Over-keeps ids w.session.manager) path
        w.session.manager (λ d h. h))

pub add_entry-Kept :
    (ids : Ids) (is_dir : Bool) (path : String) (w : Work) → Kept w (add_entry ids is_dir path w).0
unfolding add_entry
add_entry-Kept ids true path w = add_dir-Kept ids path w
add_entry-Kept ids false path w =
    layout_done-Kept w (add_file ids path "" w.session.manager)
      (Tried-Stays w.session.manager path _ (add_file ids path "" w.session.manager)
        (add_file-Placed ids path "" w.session.manager)
        λ m' free h. Placed-Stays ids w.session.manager m' path _ free h)
      (add_file-Listed ids path "" w.session.manager)
      (add_file-keeps ids (Over w.session.manager) (Over-keeps ids w.session.manager) path ""
        w.session.manager (λ d h. h))

pub add_symlink-Kept :
    (ids : Ids) (path target : String) (w : Work)
    → Kept w (layout_done w (add_symlink ids path target w.session.manager)).0
add_symlink-Kept ids path target w =
    layout_done-Kept w (add_symlink ids path target w.session.manager)
      (Tried-Stays w.session.manager path _ (add_symlink ids path target w.session.manager)
        (add_symlink-Placed ids path target w.session.manager)
        λ m' free h. Placed-Stays ids w.session.manager m' path _ free h)
      (add_symlink-Listed ids path target w.session.manager)
      (add_symlink-keeps ids (Over w.session.manager) (Over-keeps ids w.session.manager) path target
        w.session.manager (λ d h. h))

points_done-Kept :
    (w : Work) (r : Points.Result Points)
    → ((q : Points)
        → r ≡ Points.ok q
        → (t : String) → (pre_layer_tag == t) ≡ false
        → get_by_tag q t ≡ get_by_tag w.points t)
    → Kept w (points_done w r).0
points_done-Kept w (Points.ok q) h = record {
  entries = λ p e l. l;
  tags = h q refl;
  layer = refl;
  listed = λ l. l;
  over = λ d o. o;
}
points_done-Kept w (Points.err x) h = Kept-refl w

-- One point more of a tag, at its end, and no other change to the points.
pub record Adds (p q : Points) (tag src dest : String) : Type 0 where
  pub point : Point
  pub source : point.source ≡ src
  pub destination : point.destination ≡ dest
  pub tags :
      (t : String)
      → get_by_tag q t ≡ (if tag == t then get_by_tag p tag ++ point ∷ [] else get_by_tag p t)

pub Adds-other :
    (p q : Points) (tag src dest t : String)
    → Adds p q tag src dest
    → (tag == t) ≡ false
    → get_by_tag q t ≡ get_by_tag p t
Adds-other p q tag src dest t h n = let one = h.tags t in rw n at one

pub add-Adds :
    (go : Go) (p q : Points) (tag src dest fstype : String) (flags : Flags) (options : String)
    → add go p tag src dest fstype flags options ≡ Points.ok q
    → Adds p q tag src dest
add-Adds go p q tag src dest fstype flags options h =
    let (accepted, points) = add-Extends go p tag src dest fstype flags options {q = q} h in
    record {
      point = point_for go p src dest fstype flags options;
      source = refl;
      destination = refl;
      tags = points;
    }

pub add_bind-Adds :
    (go : Go) (p q : Points) (tag src dest : String) (flags : Flags) (options : List String)
    → add_bind go p tag src dest flags options ≡ Points.ok q
    → Adds p q tag src dest
unfolding add_bind
add_bind-Adds go p q tag src dest flags options h = elim (Bool-cases (src == "")) [
  | inl e ↦ let failed = rw e at h in cc
  | inr e ↦ elim (Bool-cases (has_prefix src "/")) [
    | inr a ↦ let failed = rw (e, a) at h in cc
    | inl a ↦
        add-Adds go p q tag src dest "" (or_mask flags (ms_bind ∷ [])) (join "," options)
          (rw (e, a) at h)
  ]
]

pub bind_entry-Kept : (go : Go) (src dst : String) (w : Work) → Kept w (bind_entry go src dst w).0
unfolding bind_entry
bind_entry-Kept go src dst w = points_done-Kept w _ λ q h t n.
    Adds-other w.points q pre_layer_tag src _ t
      (add_bind-Adds go w.points q pre_layer_tag src _ _ [] h) n
