-- ===== src/Layout/Underlay/Served.antt =====
-- The mount points for which the underlay has an entry.
use text.Mathlib.TextLemmas.{append_assoc}
use apptainer.Prelude.{
  String, List, [], ◌∷◌, Bool, true, false, not, ◌||◌, Option, none, some, ◌==◌, append, has_prefix,
  has_prefix-append, lookup, is_some, clean, is_abs, join_path, join, All, clean-Rooted, leb, ◌≡◌,
  refl, ap, ◌∙◌, arith, Bool-cases, inl, inr,
}
use apptainer.Layout.Manager.{
  Entry, Manager, Ids, LayoutError, add_dir, add_file, get_path, check_path,
}
use apptainer.Layout.Manager.Listed.{Listed}
use apptainer.Layout.Manager.Ways.{has_entry, add_dir-has, add_file-has}
use apptainer.Mount.Flags.{ms_remount, convert_options}
use apptainer.Mount.Points.{Point, Points, get_by_tag}
use apptainer.Mount.System.{count_slashes}
use apptainer.Layout.Underlay.{
  underlay_dir, Look, UnderlayError, Work, Done, Visit, has_path, layout_done, add_entry,
  record_created, create_point, visit_point, visit_next, visit_points, visit_tags,
}
use apptainer.Layout.Underlay.Kept.{Kept}
use apptainer.Layout.Underlay.Planned.{visit_point-Kept, visit_points-Kept, visit_tags-Kept}

layout_done-has :
    (Q : Manager → Type 0) (w : Work) (r : Manager × Option LayoutError)
    → ((m : Manager) → r ≡ (m, none) → Q m)
    → (layout_done w r).1 ≡ none
    → Q (layout_done w r).0.session.manager
layout_done-has Q w (m, none) f h = f m refl
layout_done-has Q w (m, some x) f h = cc

pub add_entry-has :
    (ids : Ids) (is_dir : Bool) (path : String) (w : Work)
    → is_abs path ≡ true
    → Listed w.session.manager
    → (add_entry ids is_dir path w).1 ≡ none
    → has_entry path (add_entry ids is_dir path w).0.session.manager ≡ true
unfolding add_entry
add_entry-has ids true path w a l h =
    layout_done-has (λ m. has_entry path m ≡ true) w (add_dir ids path w.session.manager)
      (λ m e. add_dir-has ids path w.session.manager m a l e) h
add_entry-has ids false path w a l h =
    layout_done-has (λ m. has_entry path m ≡ true) w (add_file ids path "" w.session.manager)
      (λ m e. add_file-has ids path "" w.session.manager m e) h

pub has_path-has_entry :
    (path : String) (w : Work) → has_path path w ≡ true → has_entry path w.session.manager ≡ true
unfolding get_path check_path
has_path-has_entry path w h = ground arith

-- Entries that stay stay.
pub has_entry-stays :
    (path : String) (m m' : Manager)
    → ((p : String) (e : Entry) → lookup p m.entries ≡ some e → lookup p m'.entries ≡ some e)
    → has_entry path m ≡ true
    → has_entry path m' ≡ true
has_entry-stays path m m' s h = stays (lookup (clean path) m.entries) refl h
  where
    stays :
        (o : Option Entry)
        → lookup (clean path) m.entries ≡ o
        → is_some o ≡ true
        → has_entry path m' ≡ true
    stays none e k = cc
    stays (some x) e k = ap is_some (s (clean path) x e)

clean-is_abs : (p : String) → is_abs p ≡ true → is_abs (clean p) ≡ true
unfolding is_abs
clean-is_abs p h =
    let (es, same, plain, fits) = clean-Rooted p h in
    ap is_abs same ∙ has_prefix-append "/" (join "/" es)

joined-is_abs : (dst : String) → is_abs (join_path underlay_dir dst) ≡ true
unfolding join_path is_abs
joined-is_abs dst = elim (Bool-cases (dst == "")) [
  | inl e ↦ rw e (clean-is_abs underlay_dir refl)
  | inr e ↦ rw e (
      clean-is_abs (append underlay_dir (append "/" dst)) (
        ap is_abs (append_assoc "/" "underlay" (append "/" dst))
        ∙ has_prefix-append "/" (append "underlay" (append "/" dst))))
]

module _ (look : Look) (root session_dir : String) where
  -- The point is a remount or lies in the session, the image has the destination, the source does not
  -- exist, or the underlay has an entry.
  abbrev pub is_served : Point → Work → Bool
  is_served x w =
      let dst = look.eval_relative x.destination root in
      (convert_options x.options).0 ms_remount
      || has_prefix x.destination session_dir
      || is_some (look.stat (join_path root dst))
      || not (is_some (look.stat x.source))
      || has_entry (join_path underlay_dir dst) w.session.manager

  abbrev pub AllServed : List Point → Work → Type 0
  AllServed xs w = All (λ x. is_served x w ≡ true) xs

  -- Every point of the tags
  abbrev pub Serves : Points → List String → Work → Type 0
  Serves points tags w = All (λ tag. AllServed (get_by_tag points tag) w) tags

  is_served-stays :
      (x : Point) (w w' : Work)
      → ((p : String) (e : Entry)
          → lookup p w.session.manager.entries ≡ some e
          → lookup p w'.session.manager.entries ≡ some e)
      → is_served x w ≡ true
      → is_served x w' ≡ true
  is_served-stays x w w' s h =
      let dst = look.eval_relative x.destination root in
      ground
        (arith, has_entry-stays (join_path underlay_dir dst) w.session.manager w'.session.manager s)

  AllServed-stays :
      (xs : List Point) (w w' : Work)
      → ((p : String) (e : Entry)
          → lookup p w.session.manager.entries ≡ some e
          → lookup p w'.session.manager.entries ≡ some e)
      → AllServed xs w
      → AllServed xs w'
  AllServed-stays [] w w' s h = tt
  AllServed-stays (x ∷ xs) w w' s (h, hs) =
      (is_served-stays x w w' s h, AllServed-stays xs w w' s hs)

  pub Serves-stays :
      (points : Points) (tags : List String) (w w' : Work)
      → ((p : String) (e : Entry)
          → lookup p w.session.manager.entries ≡ some e
          → lookup p w'.session.manager.entries ≡ some e)
      → Serves points tags w
      → Serves points tags w'
  Serves-stays points [] w w' s h = tt
  Serves-stays points (tag ∷ tags) w w' s (h, hs) =
      (AllServed-stays (get_by_tag points tag) w w' s h, Serves-stays points tags w w' s hs)

record_created-done :
    (dst : String) (v : Visit) (d : Done)
    → (record_created dst v d).1 ≡ none
    → (d.1 ≡ none) × ((record_created dst v d).0.work ≡ d.0)
record_created-done dst v (w, some x) h = cc
record_created-done dst v (w, none) h = elim (Bool-cases (leb (count_slashes dst) 65535)) [
  | inl e ↦ rw e (refl, refl)
  | inr e ↦ let failed = rw e at h in cc
]

module _ (look : Look) (ids : Ids) (root session_dir : String) where
  create_point-serves :
      (dst : String) (o : Option Bool) (v : Visit)
      → Listed v.work.session.manager
      → (create_point ids dst o v).1 ≡ none
      → (not (is_some o)
          || has_entry
              (join_path underlay_dir dst)
              (create_point ids dst o v).0.work.session.manager)
        ≡ true
  create_point-serves dst none v l h = refl
  create_point-serves dst (some is_dir) v l h =
      let path = join_path underlay_dir dst in
      elim (Bool-cases (has_path path v.work)) [
        | inl e ↦ rw e (has_path-has_entry path v.work e)
        | inr e ↦
            let (done, same) =
              record_created-done dst v (add_entry ids is_dir path v.work) (rw e at h) in
            rw (e, same) (add_entry-has ids is_dir path v.work (joined-is_abs dst) l done)
      ]

  visit_point-serves :
      (x : Point) (v : Visit)
      → Listed v.work.session.manager
      → (visit_point look ids root session_dir x v).1 ≡ none
      → is_served look root session_dir x (visit_point look ids root session_dir x v).0.work ≡ true
  unfolding visit_point
  visit_point-serves x v l n =
      let dst = look.eval_relative x.destination root in
      let seen = record v { destinations = dst ∷ v.destinations } in
      elim (Bool-cases ((convert_options x.options).0 ms_remount)) [
        | inl e ↦ rw e refl
        | inr e ↦ elim (Bool-cases (has_prefix x.destination session_dir)) [
          | inl h ↦ rw (e, h) refl
          | inr h ↦ elim (Bool-cases (is_some (look.stat (join_path root dst)))) [
            | inl k ↦ rw (e, h, k) refl
            | inr k ↦
                rw (visit_point, e, h, k)
                  (create_point-serves dst (look.stat x.source) seen l
                    (rw (visit_point, e, h, k) at n))
          ]
        ]
      ]

  visit_points-serves :
      (xs : List Point) (v : Visit)
      → Listed v.work.session.manager
      → (visit_points look ids root session_dir xs v).1 ≡ none
      → AllServed look root session_dir xs (visit_points look ids root session_dir xs v).0.work
  unfolding visit_points
  visit_points-serves [] v l n = tt
  visit_points-serves (x ∷ xs) v l n =
      go_on (visit_point look ids root session_dir x v)
        (visit_point-Kept look ids root session_dir x v) (visit_point-serves x v l)
        (visit_points-serves xs) n
    where
      go_on :
          (r : Visit × Option UnderlayError)
          → Kept v.work r.0.work
          → (r.1 ≡ none → is_served look root session_dir x r.0.work ≡ true)
          → ((u : Visit)
              → Listed u.work.session.manager
              → (visit_points look ids root session_dir xs u).1 ≡ none
              → AllServed look root session_dir xs
                  (visit_points look ids root session_dir xs u).0.work)
          → (visit_next r (visit_points look ids root session_dir xs)).1 ≡ none
          → AllServed look root session_dir
              (x ∷ xs)
              (visit_next r (visit_points look ids root session_dir xs)).0.work
      go_on (u, some e) k s next f = cc
      go_on (u, none) k s next f = (
        is_served-stays look root session_dir x u.work
            (visit_points look ids root session_dir xs u).0.work
            (visit_points-Kept look ids root session_dir xs u).entries (s refl),
        next u (k.listed l) f,
      )

  pub visit_tags-Serves :
      (points : Points) (tags : List String) (v : Visit)
      → Listed v.work.session.manager
      → (visit_tags look ids root session_dir points tags v).1 ≡ none
      → Serves look root session_dir points tags
          (visit_tags look ids root session_dir points tags v).0.work
  unfolding visit_tags
  visit_tags-Serves points [] v l n = tt
  visit_tags-Serves points (tag ∷ tags) v l n =
      go_on (visit_points look ids root session_dir (get_by_tag points tag) v)
        (visit_points-Kept look ids root session_dir (get_by_tag points tag) v)
        (visit_points-serves (get_by_tag points tag) v l) (visit_tags-Serves points tags) n
    where
      go_on :
          (r : Visit × Option UnderlayError)
          → Kept v.work r.0.work
          → (r.1 ≡ none → AllServed look root session_dir (get_by_tag points tag) r.0.work)
          → ((u : Visit)
              → Listed u.work.session.manager
              → (visit_tags look ids root session_dir points tags u).1 ≡ none
              → Serves look root session_dir points tags
                  (visit_tags look ids root session_dir points tags u).0.work)
          → (visit_next r (visit_tags look ids root session_dir points tags)).1 ≡ none
          → Serves look root session_dir points
              (tag ∷ tags)
              (visit_next r (visit_tags look ids root session_dir points tags)).0.work
      go_on (u, some e) k s next f = cc
      go_on (u, none) k s next f = (
        AllServed-stays look root session_dir (get_by_tag points tag) u.work
            (visit_tags look ids root session_dir points tags u).0.work
            (visit_tags-Kept look ids root session_dir points tags u).entries (s refl),
        next u (k.listed l) f,
      )
