-- ===== src/Layout/Manager/Adding.antt =====
-- What the operations that add entries do to a layout.
use apptainer.Prelude.{
  String, List, [], ◌∷◌, true, false, not, Option, none, some, if◌then◌else◌, ◌==◌, eq_iff, eq_refl,
  append, split, Assoc, lookup, lookup-insert, is_some, contains, All, ◌≡◌, refl, ap, ◌∙◌, arith,
  Bool-cases, Option-cases, ◌⊎◌, inl, inr, dir,
}
use apptainer.Layout.Manager.{
  Entry, dir_entry, Override, Manager, Ids, override_dir, override_below, new_dir, make_dir,
  make_parents, after_first, create_parent_dir,
}

-- The directories on the way to a path.
unfoldable pub prefixes : String → List String → List String
prefixes p [] = []
prefixes p (s ∷ ss) =
    let p' = append p (append "/" s) in
    let rest = prefixes p' ss in if not (s == "") then p' ∷ rest else rest

abbrev pub fresh : Ids → Manager → Entry
fresh ids m =
    dir_entry (record { created = false; mode = m.dir_mode; uid = ids.uid; gid = ids.gid })

-- The paths are entries, the new ones among them fresh directories, and nothing else changes.
pub record Extended (ids : Ids) (m m' : Manager) (ps : List String) : Type 0 where
  pub has : All (λ p. is_some (lookup p m'.entries) ≡ true) ps
  pub old : (p : String) (e : Entry) → lookup p m.entries ≡ some e → lookup p m'.entries ≡ some e
  pub new :
      (p : String)
      → lookup p m.entries ≡ none
      → (lookup p m'.entries ≡ none)
        ⊎ ((contains ps p ≡ true) × (lookup p m'.entries ≡ some (fresh ids m)))
  pub mode : m'.dir_mode ≡ m.dir_mode
  pub file_mode : m'.file_mode ≡ m.file_mode
  pub root : m'.root_path ≡ m.root_path

override_below-rest :
    (p : String) (o : Option Override) (m : Manager)
    → override_below p o m ≡ record m { ov_dirs = (override_below p o m).ov_dirs }
unfolding override_dir
override_below-rest p none m = refl
override_below-rest p (some o) m = refl

-- The manager with the directory.
abbrev made : Ids → String → Manager → Manager
made ids p m = override_below p (lookup (dir p) m.ov_dirs) (new_dir ids p m)

made-field {ℓ} :
    {A : Type ℓ} (f : Manager → A) (ids : Ids) (p : String) (m : Manager)
    → ((n : Manager) (o : Assoc Override) → f (record n { ov_dirs = o }) ≡ f n)
    → f (made ids p m) ≡ f (new_dir ids p m)
made-field f ids p m h =
    ap f (override_below-rest p (lookup (dir p) m.ov_dirs) (new_dir ids p m))
    ∙ h (new_dir ids p m) (made ids p m).ov_dirs

Extended-refl : (ids : Ids) (m : Manager) → Extended ids m m []
Extended-refl ids m = record {
  has = tt;
  old = λ p e h. h;
  new = λ p h. inl h;
  mode = refl;
  file_mode = refl;
  root = refl;
}

kept-is_some :
    (o o' : Option Entry)
    → ((e : Entry) → o ≡ some e → o' ≡ some e)
    → is_some o ≡ true
    → is_some o' ≡ true
kept-is_some none o' f h = cc
kept-is_some (some e) o' f h = ap is_some (f e refl)

made-Extended :
    (ids : Ids) (p : String) (m : Manager)
    → lookup p m.entries ≡ none
    → Extended ids m (made ids p m) (p ∷ [])
made-Extended ids p m free = record {
  has = (rw (at p, eq_refl p) refl, tt);
  old = λ q e h. elim (Bool-cases (p == q)) [
    | inl k ↦ ground (arith, h, free, ap (λ x. lookup x m.entries) ((eq_iff p q).0 k))
    | inr k ↦ rw (at q, k) h
  ];
  new = λ q h. elim (Bool-cases (p == q)) [
    | inl k ↦ inr (rw k refl, rw (at q, k) refl)
    | inr k ↦ inl (rw (at q, k) h)
  ];
  mode = made-field (λ n. n.dir_mode) ids p m (λ n o. refl);
  file_mode = made-field (λ n. n.file_mode) ids p m (λ n o. refl);
  root = made-field (λ n. n.root_path) ids p m (λ n o. refl);
}
  where
    at :
        (q : String)
        → lookup q (made ids p m).entries
          ≡ (if p == q then some (fresh ids m) else lookup q m.entries)
    at q =
        ap (lookup q) (made-field (λ n. n.entries) ids p m (λ n o. refl))
        ∙ lookup-insert p q (fresh ids m) m.entries

make_dir-Extended :
    (ids : Ids) (p : String) (m : Manager) → Extended ids m (make_dir ids p m) (p ∷ [])
make_dir-Extended ids p m = elim (Option-cases (lookup p m.entries)) [
  | inl e ↦ rw e (made-Extended ids p m e)
  | inr (x, e) ↦ rw e (record {
    has = (ap is_some e, tt);
    old = λ q y h. h;
    new = λ q h. inl h;
    mode = refl;
    file_mode = refl;
    root = refl;
  })
]

Extended-step :
    (ids : Ids) (p : String) (ps : List String) (a b c : Manager)
    → Extended ids a b (p ∷ [])
    → Extended ids b c ps
    → Extended ids a c (p ∷ ps)
Extended-step ids p ps a b c h k = record {
  has = (kept-is_some (lookup p b.entries) (lookup p c.entries) (k.old p) h.has.0, k.has);
  old = λ q e l. k.old q e (h.old q e l);
  new = λ q l. elim (h.new q l) [
    | inr (n, f) ↦ inr (ground (arith, n), k.old q (fresh ids a) f)
    | inl n ↦ elim (k.new q n) [
      | inl o ↦ inl o
      | inr (o, f) ↦ inr (
        ground (arith, o),
        f
            ∙ ap
                (λ d.
                  some (
                    dir_entry (record { created = false; mode = d; uid = ids.uid; gid = ids.gid })))
                h.mode,
      )
    ]
  ];
  mode = k.mode ∙ h.mode;
  file_mode = k.file_mode ∙ h.file_mode;
  root = k.root ∙ h.root;
}

make_parents-Extended :
    (ids : Ids) (p : String) (ss : List String) (m : Manager)
    → Extended ids m (make_parents ids p ss m) (prefixes p ss)
unfolding make_parents prefixes
make_parents-Extended ids p [] m = Extended-refl ids m
make_parents-Extended ids p (s ∷ ss) m = elim (Bool-cases (s == "")) [
  | inl e ↦ rw e (make_parents-Extended ids (append p (append "/" s)) ss m)
  | inr e ↦
      let p' = append p (append "/" s) in
      let m' = make_dir ids p' m in
      rw e (
        Extended-step ids p' (prefixes p' ss) m m' (make_parents ids p' ss m')
          (make_dir-Extended ids p' m) (make_parents-Extended ids p' ss m'))
]

-- The directories on the way to a path, itself included.
unfoldable pub ways : String → List String
ways path = prefixes "" (after_first (split b'/' path))

pub create_parent_dir-Extended :
    (ids : Ids) (path : String) (m : Manager)
    → Extended ids m (create_parent_dir ids path m) (ways path)
unfolding create_parent_dir ways
create_parent_dir-Extended ids path m =
    make_parents-Extended ids "" (after_first (split b'/' path)) m
