-- ===== src/Layout/Underlay/Planned.antt =====
-- What the loops that plan an underlay leave as it is.
use apptainer.Prelude.{
  ℕ, String, List, [], ◌∷◌, Bool, true, false, Option, none, some, ◌==◌, has_prefix, is_some,
  append, split, dir, join_path, contains, leb, Bool-cases, inl, inr,
}
use apptainer.Layout.Manager.{Ids, after_first}
use apptainer.Mount.Flags.{ms_remount, convert_options}
use apptainer.Mount.Points.{Go, Point, Points, get_by_tag}
use apptainer.Mount.System.{count_slashes}
use apptainer.Layout.Underlay.{
  underlay_dir, DirEntry, Look, UnderlayError, Work, Done, Visit, has_path, add_entry, bind_entry,
  link_to, join_three, duplicate_file, duplicate_files, files_or_none, duplicate_dir,
  record_created, create_point, visit_point, visit_next, visit_points, visit_tags, on_the_way,
  duplicate_parents, duplicate_paths,
}
use apptainer.Layout.Session.{root_fs_path}
use apptainer.Layout.Underlay.Kept.{
  Kept, Kept-refl, Kept-trans, and_then-Kept, add_entry-Kept, add_symlink-Kept, bind_entry-Kept,
}

link_to-Kept :
    (ids : Ids) (dst : String) (o : Option String) (w : Work) → Kept w (link_to ids dst o w).0
link_to-Kept ids dst none w = Kept-refl w
link_to-Kept ids dst (some target) w = add_symlink-Kept ids dst target w

module _ (go : Go) (look : Look) (ids : Ids) where
  duplicate_file-Kept :
      (dst src : String) (file : DirEntry) (w : Work)
      → Kept w (duplicate_file go look ids dst src file w).0
  unfolding duplicate_file
  duplicate_file-Kept dst src file w = elim (Bool-cases (has_path dst w)) [
    | inl e ↦ rw (duplicate_file, e) (Kept-refl w)
    | inr e ↦
        rw (duplicate_file, e)
          (elim (Bool-cases file.is_dir) [
            | inl d ↦ rw d (
                and_then-Kept w (add_entry ids true dst w) (bind_entry go src dst)
                  (add_entry-Kept ids true dst w) (bind_entry-Kept go src dst))
            | inr d ↦ rw d (elim (Bool-cases file.is_symlink) [
              | inl l ↦ rw l (link_to-Kept ids dst (look.readlink src) w)
              | inr l ↦ rw l (
                  and_then-Kept w (add_entry ids false dst w) (bind_entry go src dst)
                    (add_entry-Kept ids false dst w) (bind_entry-Kept go src dst))
            ])
          ])
  ]

  duplicate_files-Kept :
      (dir_ path : String) (files : List DirEntry) (w : Work)
      → Kept w (duplicate_files go look ids dir_ path files w).0
  unfolding duplicate_files
  duplicate_files-Kept dir_ path [] w = Kept-refl w
  duplicate_files-Kept dir_ path (file ∷ files) w =
      and_then-Kept w _ _
        (duplicate_file-Kept (join_three underlay_dir dir_ file.name) (join_path path file.name)
          file w)
        (duplicate_files-Kept dir_ path files)

  pub duplicate_dir-Kept : (dir_ : String) (w : Work) → Kept w (duplicate_dir go look ids dir_ w).0
  unfolding duplicate_dir
  duplicate_dir-Kept dir_ w =
      let path = join_path (root_fs_path w.session) dir_ in
      duplicate_files-Kept dir_ path (files_or_none (look.read_dir path)) w

  on_the_way-Kept : (p : String) (w : Work) → Kept w (on_the_way ids p w).0
  on_the_way-Kept p w = elim (Bool-cases (has_path p w)) [
    | inl h ↦ rw h (Kept-refl w)
    | inr h ↦ rw h (add_entry-Kept ids true p w)
  ]

  duplicate_parents-Kept :
      (destinations : List String) (p : String) (ss : List String) (w : Work)
      → Kept w (duplicate_parents go look ids destinations p ss w).0
  unfolding duplicate_parents
  duplicate_parents-Kept ds p [] w = Kept-refl w
  duplicate_parents-Kept ds p (s ∷ ss) w =
      let p' = append p (append "/" s) in
      let further = duplicate_parents-Kept ds p' ss in
      elim (Bool-cases (s == "")) [
        | inl n ↦ rw (duplicate_parents, n) (further w)
        | inr n ↦
            rw (duplicate_parents, n)
              (and_then-Kept w (on_the_way ids p' w) _ (on_the_way-Kept p' w) λ w'.
                elim (Bool-cases (contains ds p')) [
                  | inl e ↦ rw e (Kept-refl w')
                  | inr e ↦ rw e (
                      and_then-Kept w' (duplicate_dir go look ids p' w') _
                        (duplicate_dir-Kept p' w') further)
                ])
      ]

  pub duplicate_paths-Kept :
      (destinations : List String) (created : List (String × ℕ)) (w : Work)
      → Kept w (duplicate_paths go look ids destinations created w).0
  unfolding duplicate_paths
  duplicate_paths-Kept ds [] w = Kept-refl w
  duplicate_paths-Kept ds (x ∷ xs) w =
      and_then-Kept w _ _ (duplicate_parents-Kept ds "" (after_first (split b'/' (dir x.0))) w)
        (duplicate_paths-Kept ds xs)

record_created-Kept :
    (w : Work) (dst : String) (v : Visit) (d : Done)
    → Kept w d.0
    → Kept w (record_created dst v d).0.work
record_created-Kept w dst v (w', some x) h = h
record_created-Kept w dst v (w', none) h = elim (Bool-cases (leb (count_slashes dst) 65535)) [
  | inl e ↦ rw e h
  | inr e ↦ rw e h
]

module _ (look : Look) (ids : Ids) (root session_dir : String) where
  create_point-Kept :
      (dst : String) (o : Option Bool) (v : Visit) → Kept v.work (create_point ids dst o v).0.work
  create_point-Kept dst none v = Kept-refl v.work
  create_point-Kept dst (some is_dir) v =
      let path = join_path underlay_dir dst in
      elim (Bool-cases (has_path path v.work)) [
        | inl e ↦ rw e (Kept-refl v.work)
        | inr e ↦ rw e (
            record_created-Kept v.work dst v (add_entry ids is_dir path v.work)
              (add_entry-Kept ids is_dir path v.work))
      ]

  pub visit_point-Kept :
      (x : Point) (v : Visit) → Kept v.work (visit_point look ids root session_dir x v).0.work
  unfolding visit_point
  visit_point-Kept x v =
      let dst = look.eval_relative x.destination root in
      let seen = record v { destinations = dst ∷ v.destinations } in
      elim (Bool-cases ((convert_options x.options).0 ms_remount)) [
        | inl e ↦ rw (visit_point, e) (Kept-refl v.work)
        | inr e ↦ elim (Bool-cases (has_prefix x.destination session_dir)) [
          | inl h ↦ rw (visit_point, e, h) (Kept-refl v.work)
          | inr h ↦ elim (Bool-cases (is_some (look.stat (join_path root dst)))) [
            | inl k ↦ rw (visit_point, e, h, k) (Kept-refl v.work)
            | inr k ↦ rw (visit_point, e, h, k) (create_point-Kept dst (look.stat x.source) seen)
          ]
        ]
      ]

  visit_next-Kept :
      (w : Work) (r : Visit × Option UnderlayError) (f : Visit → Visit × Option UnderlayError)
      → Kept w r.0.work
      → ((v : Visit) → Kept v.work (f v).0.work)
      → Kept w (visit_next r f).0.work
  visit_next-Kept w (v, none) f h k = Kept-trans w v.work (f v).0.work h (k v)
  visit_next-Kept w (v, some x) f h k = h

  pub visit_points-Kept :
      (xs : List Point) (v : Visit)
      → Kept v.work (visit_points look ids root session_dir xs v).0.work
  unfolding visit_points
  visit_points-Kept [] v = Kept-refl v.work
  visit_points-Kept (x ∷ xs) v =
      visit_next-Kept v.work _ _ (visit_point-Kept x v) (visit_points-Kept xs)

  pub visit_tags-Kept :
      (points : Points) (tags : List String) (v : Visit)
      → Kept v.work (visit_tags look ids root session_dir points tags v).0.work
  unfolding visit_tags
  visit_tags-Kept points [] v = Kept-refl v.work
  visit_tags-Kept points (tag ∷ tags) v =
      visit_next-Kept v.work _ _ (visit_points-Kept (get_by_tag points tag) v)
        (visit_tags-Kept points tags)
