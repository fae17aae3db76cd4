-- ===== src/Layout/Sync/Settled.antt =====
-- What `Create` and `Update` leave of the layout, and what they do on a layout that is there.
use mathlib.Core.Path.{subst}
use apptainer.Prelude.{
  ℕ, String, List, [], ◌∷◌, not, ◌||◌, Option, none, some, if◌then◌else◌, lookup, All, ◌≡◌, refl,
  sym, ap, ◌∙◌, Bool-cases, inl, inr, eqb, dir, append,
}
use apptainer.Layout.Manager.{
  File, Dir, Symlink, Entry, file_entry, dir_entry, symlink_entry, Manager, Ids, LayoutError,
  mkdir_failed, get_override_path,
}
use apptainer.Layout.Sync.{
  Vfs, VfsError, exists, other, Outcome, and_then, need, make_overrides, override_list, own,
  made_dir, sync_dir, sync_dirs, real_path, wrote, points_elsewhere, linked, sync_entry,
  sync_entries,
}
use apptainer.Layout.Sync.Marks.{
  mark, Grown, Grown-refl, Grown-trans, put_entry-Grown, put_entry-lookup, dir_made, leaf_made,
  DirAt, LeafAt, DirAt-keeps, LeafAt-keeps,
}

module _ {W : Type 0} where
  -- Whatever happens, only marks change, and at success the condition holds.
  abbrev pub Ends : Manager → (Manager → Type 0) → Outcome W → Type 0
  Ends m P ((m', w), none) = Grown m m' × P m'
  Ends m P ((m', w), some x) = Grown m m'

  Ends-after :
      (m n : Manager) (P : Manager → Type 0) (r : Outcome W) → Grown m n → Ends n P r → Ends m P r
  Ends-after m n P ((m', w), none) g (h, k) = (Grown-trans m n m' g h, k)
  Ends-after m n P ((m', w), some x) g h = Grown-trans m n m' g h

  pub Ends-map :
      (m : Manager) (P Q : Manager → Type 0) (r : Outcome W)
      → ((m' : Manager) → Grown m m' → P m' → Q m')
      → Ends m P r
      → Ends m Q r
  Ends-map m P Q ((m', w), none) f (g, h) = (g, f m' g h)
  Ends-map m P Q ((m', w), some x) f g = g

  pub and_then-Ends :
      (m : Manager) (P Q : Manager → Type 0) (r : Outcome W) (f : Manager → W → Outcome W)
      → Ends m P r
      → ((m' : Manager) (w : W) → Grown m m' → P m' → Ends m' Q (f m' w))
      → Ends m Q (and_then r f)
  and_then-Ends m P Q ((m', w), none) f (g, h) k = Ends-after m m' Q (f m' w) g (k m' w g h)
  and_then-Ends m P Q ((m', w), some x) f g k = g

  Stays : Manager → Outcome W → Type 0
  Stays m r = r.0.0 ≡ m

  and_then-Stays :
      (m : Manager) (Q : Manager → Type 0) (r : Outcome W) (f : Manager → W → Outcome W)
      → Stays m r
      → ((w : W) → Ends m Q (f m w))
      → Ends m Q (and_then r f)
  unfolding Stays
  and_then-Stays m Q ((m', w), none) f h k = subst (λ n. Ends m Q (f n w)) (sym h) (k w)
  and_then-Stays m Q ((m', w), some x) f h k = subst (λ n. Grown m n) (sym h) (Grown-refl m)

  need-Stays : (m : Manager) (x : LayoutError) (r : W × Option VfsError) → Stays m (need m x r)
  unfolding Stays
  need-Stays m x (w, none) = refl
  need-Stays m x (w, some e) = refl

  own-Stays :
      (ids : Ids) (m : Manager) (uid gid : ℕ) (call : ℕ → ℕ → W × Option VfsError) (w : W)
      → Stays m (own ids m uid gid call w)
  unfolding Stays
  own-Stays ids m uid gid call w =
      elim (Bool-cases (not (eqb uid ids.uid) || not (eqb gid ids.gid))) [
        | inl e ↦ rw e (need-Stays m _ (call uid gid))
        | inr e ↦ rw e refl
      ]

  both-Stay :
      (m : Manager) (r : Outcome W) (f : Manager → W → Outcome W)
      → Stays m r
      → ((w : W) → Stays m (f m w))
      → Stays m (and_then r f)
  unfolding Stays
  both-Stay m ((m', w), none) f h k = subst (λ n. (f n w).0.0 ≡ m) (sym h) (k w)
  both-Stay m ((m', w), some x) f h k = h

  make_overrides-Stays :
      (vfs : Vfs W) (m : Manager) (os : List String) (w : W) → Stays m (make_overrides vfs m os w)
  unfolding make_overrides Stays
  make_overrides-Stays vfs m [] w = refl
  make_overrides-Stays vfs m (o ∷ os) w =
      both-Stay m
        (if vfs.stat w o then ((m, w), none) else need m mkdir_failed (vfs.mkdir w o m.dir_mode))
        (λ m' w'. make_overrides vfs m' os w') one (λ w'. make_overrides-Stays vfs m os w')
    where
      one :
          (if vfs.stat w o
            then ((m, w), none)
            else need m mkdir_failed (vfs.mkdir w o m.dir_mode)).0.0
          ≡ m
      one = elim (Bool-cases (vfs.stat w o)) [
        | inl e ↦ rw e refl
        | inr e ↦ rw e (need-Stays m mkdir_failed (vfs.mkdir w o m.dir_mode))
      ]

  made_dir-Ends :
      (vfs : Vfs W) (ids : Ids) (p : String) (d : Dir) (m : Manager) (r : W × Option VfsError)
      → lookup p m.entries ≡ some (dir_entry d)
      → Ends m (DirAt p) (made_dir vfs ids p d m r)
  made_dir-Ends vfs ids p d m (w, some exists) h =
      (put_entry-Grown p (dir_entry d) m h, ap dir_made (put_entry-lookup p (mark (dir_entry d)) m))
  made_dir-Ends vfs ids p d m (w, some other) h = Grown-refl m
  made_dir-Ends vfs ids p d m (w, none) h =
      and_then-Stays m (DirAt p) (own ids m d.uid d.gid (vfs.chown w (append m.root_path p)) w) _
        (own-Stays ids m d.uid d.gid (vfs.chown w (append m.root_path p)) w)
        (λ w'. (
          put_entry-Grown p (dir_entry d) m h,
          ap dir_made (put_entry-lookup p (mark (dir_entry d)) m),
        ))

  sync_dir-Ends :
      (vfs : Vfs W) (ids : Ids) (p : String) (o : Option Entry) (m : Manager) (w : W)
      → lookup p m.entries ≡ o
      → Ends m (DirAt p) (sync_dir vfs ids p o m w)
  sync_dir-Ends vfs ids p none m w h = (Grown-refl m, ap dir_made h)
  sync_dir-Ends vfs ids p (some (file_entry f)) m w h = (Grown-refl m, ap dir_made h)
  sync_dir-Ends vfs ids p (some (symlink_entry f)) m w h = (Grown-refl m, ap dir_made h)
  sync_dir-Ends vfs ids p (some (dir_entry d)) m w h = elim (Bool-cases d.created) [
    | inl e ↦ rw e (Grown-refl m, ap dir_made h ∙ e)
    | inr e ↦ rw e (
        and_then-Stays m (DirAt p) (make_overrides vfs m (override_list (lookup p m.ov_dirs)) w) _
          (make_overrides-Stays vfs m (override_list (lookup p m.ov_dirs)) w)
          (λ w'. made_dir-Ends vfs ids p d m _ h))
  ]

  pub sync_dirs-Ends :
      (vfs : Vfs W) (ids : Ids) (ps : List String) (m : Manager) (w : W)
      → Ends m (λ m'. All (λ p. DirAt p m') ps) (sync_dirs vfs ids ps m w)
  unfolding sync_dirs
  sync_dirs-Ends vfs ids [] m w = (Grown-refl m, tt)
  sync_dirs-Ends vfs ids (p ∷ ps) m w =
      and_then-Ends m (DirAt p) (λ m'. All (λ p. DirAt p m') (p ∷ ps))
        (sync_dir vfs ids p (lookup p m.entries) m w) _
        (sync_dir-Ends vfs ids p (lookup p m.entries) m w refl)
        (λ m1 w1 g h.
          Ends-map m1 (λ m'. All (λ p. DirAt p m') ps) (λ m'. All (λ p. DirAt p m') (p ∷ ps))
            (sync_dirs vfs ids ps m1 w1) (λ m2 g2 k. (DirAt-keeps p m1 m2 g2 h, k))
            (sync_dirs-Ends vfs ids ps m1 w1))

  wrote-Ends :
      (vfs : Vfs W) (ids : Ids) (p path : String) (f : File) (m : Manager) (r : W × Option VfsError)
      → lookup p m.entries ≡ some (file_entry f)
      → Ends m (LeafAt p) (wrote vfs ids p path f m r)
  wrote-Ends vfs ids p path f m (w, some exists) h = (
    put_entry-Grown p (file_entry f) m h,
    ap leaf_made (put_entry-lookup p (mark (file_entry f)) m),
  )
  wrote-Ends vfs ids p path f m (w, some other) h = elim (Bool-cases (vfs.os_stat w path)) [
    | inl e ↦ rw e (
      put_entry-Grown p (file_entry f) m h,
      ap leaf_made (put_entry-lookup p (mark (file_entry f)) m),
    )
    | inr e ↦ rw e (Grown-refl m)
  ]
  wrote-Ends vfs ids p path f m (w, none) h =
      and_then-Stays m (LeafAt p) (own ids m f.uid f.gid (vfs.chown w path) w) _
        (own-Stays ids m f.uid f.gid (vfs.chown w path) w)
        (λ w'. (
          put_entry-Grown p (file_entry f) m h,
          ap leaf_made (put_entry-lookup p (mark (file_entry f)) m),
        ))

  linked-Ends :
      (vfs : Vfs W) (ids : Ids) (p path : String) (s : Symlink) (m : Manager)
      (r : W × Option VfsError)
      → lookup p m.entries ≡ some (symlink_entry s)
      → Ends m (LeafAt p) (linked vfs ids p path s m r)
  linked-Ends vfs ids p path s m (w, some other) h = Grown-refl m
  linked-Ends vfs ids p path s m (w, some exists) h =
      elim (Bool-cases (points_elsewhere s (vfs.readlink w path))) [
        | inl e ↦ rw e (Grown-refl m)
        | inr e ↦ rw e (
          put_entry-Grown p (symlink_entry s) m h,
          ap leaf_made (put_entry-lookup p (mark (symlink_entry s)) m),
        )
      ]
  linked-Ends vfs ids p path s m (w, none) h =
      and_then-Stays m (LeafAt p) (own ids m s.uid s.gid (vfs.lchown w path) w) _
        (own-Stays ids m s.uid s.gid (vfs.lchown w path) w)
        (λ w'. (
          put_entry-Grown p (symlink_entry s) m h,
          ap leaf_made (put_entry-lookup p (mark (symlink_entry s)) m),
        ))

  sync_entry-Ends :
      (vfs : Vfs W) (ids : Ids) (p path : String) (o : Option Entry) (m : Manager) (w : W)
      → lookup p m.entries ≡ o
      → Ends m (LeafAt p) (sync_entry vfs ids p path o m w)
  sync_entry-Ends vfs ids p path none m w h = (Grown-refl m, ap leaf_made h)
  sync_entry-Ends vfs ids p path (some (dir_entry d)) m w h = (Grown-refl m, ap leaf_made h)
  sync_entry-Ends vfs ids p path (some (file_entry f)) m w h = elim (Bool-cases f.created) [
    | inl e ↦ rw e (Grown-refl m, ap leaf_made h ∙ e)
    | inr e ↦ rw e (wrote-Ends vfs ids p path f m _ h)
  ]
  sync_entry-Ends vfs ids p path (some (symlink_entry s)) m w h = elim (Bool-cases s.created) [
    | inl e ↦ rw e (Grown-refl m, ap leaf_made h ∙ e)
    | inr e ↦ rw e (linked-Ends vfs ids p path s m _ h)
  ]

  pub sync_entries-Ends :
      (vfs : Vfs W) (ids : Ids) (ps : List String) (m : Manager) (w : W)
      → Ends m (λ m'. All (λ p. LeafAt p m') ps) (sync_entries vfs ids ps m w)
  unfolding sync_entries
  sync_entries-Ends vfs ids [] m w = (Grown-refl m, tt)
  sync_entries-Ends vfs ids (p ∷ ps) m w =
      and_then-Ends m (LeafAt p) (λ m'. All (λ p. LeafAt p m') (p ∷ ps))
        (sync_entry vfs ids p (real_path p m (get_override_path (dir p) m)) (lookup p m.entries) m
          w)
        _ (sync_entry-Ends vfs ids p _ (lookup p m.entries) m w refl)
        (λ m1 w1 g h.
          Ends-map m1 (λ m'. All (λ p. LeafAt p m') ps) (λ m'. All (λ p. LeafAt p m') (p ∷ ps))
            (sync_entries vfs ids ps m1 w1) (λ m2 g2 k. (LeafAt-keeps p m1 m2 g2 h, k))
            (sync_entries-Ends vfs ids ps m1 w1))
