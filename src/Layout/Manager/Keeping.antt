-- ===== src/Layout/Manager/Keeping.antt =====
-- What the operations that add entries keep: a condition that a new directory, an override and a new
-- file or symlink keep.
use apptainer.Prelude.{
  String, List, [], ◌∷◌, Bool, true, false, Option, none, some, if◌then◌else◌, ◌==◌, append, split,
  lookup, lookup-insert, is_some, dir, ◌≡◌, refl, Bool-cases, inl, inr,
}
use apptainer.Layout.Manager.{
  Entry, dir_entry, Override, Manager, Ids, Result, ok, err, override_dir, override_below, new_dir,
  make_dir, make_parents, after_first, create_parent_dir, if_checked, check_path, put_entry,
  add_dir, add_file, add_symlink,
}

abbrev pub is_leaf : Entry → Bool
is_leaf (dir_entry d) = false
is_leaf _ = true

pub record Keeps (ids : Ids) (P : Manager → Type 0) : Type 0 where
  pub directory : (p : String) (m : Manager) → P m → P (new_dir ids p m)
  pub override : (p realpath : String) (m : Manager) → P m → P (override_dir p realpath m)
  pub leaf : (p : String) (e : Entry) (m : Manager) → is_leaf e ≡ true → P m → P (put_entry p e m)

-- Also where the operation refuses
pub if_checked-keeps :
    (P : Manager → Type 0) (m : Manager) (r : Result String) (f : String → Manager)
    → P m
    → ((p : String) → P (f p))
    → P (if_checked m r f).0
if_checked-keeps P m (err x) f h k = h
if_checked-keeps P m (ok p) f h k = k p

module _ (ids : Ids) (P : Manager → Type 0) (keeps : Keeps ids P) where
  override_below-keeps :
      (p : String) (o : Option Override) (m : Manager) → P m → P (override_below p o m)
  override_below-keeps p none m h = h
  override_below-keeps p (some o) m h = keeps.override p _ m h

  make_dir-keeps : (p : String) (m : Manager) → P m → P (make_dir ids p m)
  make_dir-keeps p m h = elim (Bool-cases (is_some (lookup p m.entries))) [
    | inl e ↦ rw e h
    | inr e ↦ rw e (
        override_below-keeps p (lookup (dir p) m.ov_dirs) (new_dir ids p m) (keeps.directory p m h))
  ]

  make_parents-keeps :
      (p : String) (ss : List String) (m : Manager) → P m → P (make_parents ids p ss m)
  unfolding make_parents
  make_parents-keeps p [] m h = h
  make_parents-keeps p (s ∷ ss) m h =
      let p' = append p (append "/" s) in
      elim (Bool-cases (s == "")) [
        | inl e ↦ rw e (make_parents-keeps p' ss m h)
        | inr e ↦ rw e (make_parents-keeps p' ss (make_dir ids p' m) (make_dir-keeps p' m h))
      ]

  create_parent_dir-keeps : (path : String) (m : Manager) → P m → P (create_parent_dir ids path m)
  unfolding create_parent_dir
  create_parent_dir-keeps path m h = make_parents-keeps "" (after_first (split b'/' path)) m h

  pub add_dir-keeps : (path : String) (m : Manager) → P m → P (add_dir ids path m).0
  unfolding add_dir
  add_dir-keeps path m h =
      if_checked-keeps P m (check_path m path true) (λ p. create_parent_dir ids p m) h
        λ p. create_parent_dir-keeps p m h

  pub add_file-keeps :
      (path content : String) (m : Manager) → P m → P (add_file ids path content m).0
  unfolding add_file
  add_file-keeps path content m h = if_checked-keeps P m (check_path m path true) _ h λ p.
      keeps.leaf p _ (create_parent_dir ids (dir p) m) refl (create_parent_dir-keeps (dir p) m h)

  pub add_symlink-keeps :
      (path target : String) (m : Manager) → P m → P (add_symlink ids path target m).0
  unfolding add_symlink
  add_symlink-keeps path target m h = if_checked-keeps P m (check_path m path true) _ h λ p.
      keeps.leaf p _ (create_parent_dir ids (dir p) m) refl (create_parent_dir-keeps (dir p) m h)

-- What is overridden stays so.
abbrev pub Over : Manager → Manager → Type 0
Over m m' =
    (d : String) → is_some (lookup d m.ov_dirs) ≡ true → is_some (lookup d m'.ov_dirs) ≡ true

if_some :
    {A : Type 0} (b : Bool) (a : A) (o : Option A)
    → is_some o ≡ true
    → is_some (if b then some a else o) ≡ true
if_some true a o h = refl
if_some false a o h = h

pub Over-keeps : (ids : Ids) (m : Manager) → Keeps ids (Over m)
unfolding override_dir
Over-keeps ids m = record {
  directory = λ p n h. h;
  override = λ p r n h d k. rw lookup-insert (if_some (p == d) _ (lookup d n.ov_dirs) (h d k));
  leaf = λ p e n l h. h;
}
