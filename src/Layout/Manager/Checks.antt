-- ===== src/Layout/Manager/Checks.antt =====
-- When the operations that add entries succeed, and what they add.
use apptainer.Prelude.{
  String, [], ◌∷◌, true, false, Option, none, some, ◌==◌, Assoc, lookup, lookup-insert, eq_refl,
  is_some, ◌≡◌, ◌≢◌, refl, ap, Bool-cases, Option-cases, ◌⊎◌, inl, inr, dir, clean, is_abs,
}
use apptainer.Layout.Manager.{
  Entry, file_entry, symlink_entry, Manager, Ids, LayoutError, no_root, not_absolute,
  already_exists, ok, err, is_empty, check_path, create_parent_dir, add_dir, add_file, add_symlink,
  if_checked, put_entry,
}
use apptainer.Layout.Manager.Adding.{Extended, ways, create_parent_dir-Extended}

-- Why nothing can be added at a path.
unfoldable pub Reason : Manager → String → LayoutError → Type 0
Reason m path x =
    ((x ≡ no_root) × (m.entries ≡ []))
    ⊎ ((x ≡ not_absolute) × (is_abs (clean path) ≡ false))
    ⊎ ((x ≡ already_exists) × (is_some (lookup (clean path) m.entries) ≡ true))

unfoldable pub Free : Manager → String → Type 0
Free m path =
    (m.entries ≢ []) × (is_abs (clean path) ≡ true) × (lookup (clean path) m.entries ≡ none)

empty-cases :
    (l : Assoc Entry) → ((l ≡ []) × (is_empty l ≡ true)) ⊎ ((l ≢ []) × (is_empty l ≡ false))
empty-cases [] = inl (refl, refl)
empty-cases (e ∷ l) = inr (λ h. cc, refl)

check_path-cases :
    (m : Manager) (path : String)
    → ((x : LayoutError) × (check_path m path true ≡ err x) × Reason m path x)
      ⊎ ((check_path m path true ≡ ok (clean path)) × Free m path)
unfolding check_path Reason Free
check_path-cases m path = elim (empty-cases m.entries) [
  | inl (e, b) ↦ inl (no_root, rw b refl, inl (refl, e))
  | inr (e, b) ↦ elim (Bool-cases (is_abs (clean path))) [
    | inr a ↦ inl (not_absolute, rw (b, a) refl, inr (inl (refl, a)))
    | inl a ↦ elim (Option-cases (lookup (clean path) m.entries)) [
      | inr (x, l) ↦ inl (already_exists, rw (b, a, l) refl, inr (inr (refl, ap is_some l)))
      | inl l ↦ inr (rw (b, a, l) refl, (e, a, l))
    ]
  ]
]

-- A refusal, which changes nothing, or the manager that the condition describes.
unfoldable pub Tried : Manager → String → (Manager → Type 0) → Manager × Option LayoutError → Type 0
Tried m path P r =
    ((x : LayoutError) × (r ≡ (m, some x)) × Reason m path x)
    ⊎ ((m' : Manager) × (r ≡ (m', none)) × Free m path × P m')

if_checked-Tried :
    (m : Manager) (path : String) (P : Manager → Type 0) (f : String → Manager)
    → P (f (clean path))
    → Tried m path P (if_checked m (check_path m path true) f)
unfolding Tried
if_checked-Tried m path P f h = elim (check_path-cases m path) [
  | inl (x, e, r) ↦ inl (x, rw e refl, r)
  | inr (e, r) ↦ inr (f (clean path), rw e refl, r, h)
]

-- `AddDir` refuses a path that is not absolute or that is an entry, and anything before there is a
-- root, and then changes nothing. Else it makes fresh directories of those on the way to the cleaned
-- path that are no entries, and no other change to the entries.
pub add_dir-Extended :
    (ids : Ids) (path : String) (m : Manager)
    → Tried m path (λ m'. Extended ids m m' (ways (clean path))) (add_dir ids path m)
unfolding add_dir
add_dir-Extended ids path m =
    if_checked-Tried m path (λ m'. Extended ids m m' (ways (clean path)))
      (λ p. create_parent_dir ids p m) (create_parent_dir-Extended ids (clean path) m)

-- The entry at the path, and the directories on the way to its parent.
pub record Placed (ids : Ids) (m m' : Manager) (p : String) (e : Entry) : Type 0 where
  pub parents : Manager
  pub extended : Extended ids m parents (ways (dir p))
  pub placed : lookup p m'.entries ≡ some e
  pub others : (q : String) → (p == q) ≡ false → lookup q m'.entries ≡ lookup q parents.entries
  pub same_dirs : m'.dirs ≡ parents.dirs

put_entry-Placed :
    (ids : Ids) (p : String) (e : Entry) (m : Manager)
    → Placed ids m (put_entry p e (create_parent_dir ids (dir p) m)) p e
put_entry-Placed ids p e m = record {
  parents = create_parent_dir ids (dir p) m;
  extended = create_parent_dir-Extended ids (dir p) m;
  placed = rw (lookup-insert, eq_refl p) refl;
  others = λ q n. rw (lookup-insert, n) refl;
  same_dirs = refl;
}

abbrev pub new_file : Ids → Manager → String → Entry
new_file ids m content = file_entry (record {
  created = false;
  mode = m.file_mode;
  uid = ids.uid;
  gid = ids.gid;
  content = content;
})

abbrev pub new_symlink : Ids → String → Entry
new_symlink ids target =
    symlink_entry (record { created = false; uid = ids.uid; gid = ids.gid; target = target })

-- `AddFile` refuses what `AddDir` refuses. Else it puts the file at the cleaned path, over fresh
-- directories on the way to its parent where there were no entries.
pub add_file-Placed :
    (ids : Ids) (path content : String) (m : Manager)
    → Tried m path
        (λ m'. Placed ids m m' (clean path) (new_file ids m content))
        (add_file ids path content m)
unfolding add_file
add_file-Placed ids path content m =
    if_checked-Tried m path (λ m'. Placed ids m m' (clean path) (new_file ids m content)) _
      (put_entry-Placed ids (clean path) (new_file ids m content) m)

-- The same for `AddSymlink`.
pub add_symlink-Placed :
    (ids : Ids) (path target : String) (m : Manager)
    → Tried m path
        (λ m'. Placed ids m m' (clean path) (new_symlink ids target))
        (add_symlink ids path target m)
unfolding add_symlink
add_symlink-Placed ids path target m =
    if_checked-Tried m path (λ m'. Placed ids m m' (clean path) (new_symlink ids target)) _
      (put_entry-Placed ids (clean path) (new_symlink ids target) m)
