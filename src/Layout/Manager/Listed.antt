-- ===== src/Layout/Manager/Listed.antt =====
-- The directories of a layout are listed, in which `Create` and `Update` make them.
use mathlib.Core.Path.{subst}
use apptainer.Prelude.{
  ℕ, String, List, [], ◌∷◌, ◌++◌, Bool, true, false, ◌||◌, Option, none, some, if◌then◌else◌, ◌==◌,
  eq_iff, lookup, lookup-insert, is_some, contains, contains-append, eq_refl, ◌≡◌, refl, sym, ap,
  ◌∙◌, arith, Bool-cases, inl, inr,
}
use apptainer.Layout.Manager.Keeping.{
  is_leaf, Keeps, if_checked-keeps, add_dir-keeps, add_file-keeps, add_symlink-keeps,
}
use apptainer.Layout.Manager.{
  Entry, file_entry, dir_entry, symlink_entry, Manager, Ids, LayoutError, override_dir, new_dir,
  after_first, check_path, put_entry, change_entry, set_mode, set_owner, set_root_path, add_dir,
  add_file, add_symlink, chmod, chown,
}

-- A directory other than the root is in the list.
abbrev pub is_listed : List String → String → Option Entry → Bool
is_listed dirs p (some (dir_entry d)) = p == "/" || contains (after_first dirs) p
is_listed dirs p _ = true

-- There is a root, and every other directory is in the list behind it.
pub record Listed (m : Manager) : Type 0 where
  pub first : String
  pub rest : List String
  pub starts : m.dirs ≡ first ∷ rest
  pub root : is_some (lookup "/" m.entries) ≡ true
  pub listed : (p : String) → is_listed m.dirs p (lookup p m.entries) ≡ true

is_listed-longer :
    (first : String) (rest : List String) (p q : String) (o : Option Entry)
    → is_listed (first ∷ rest) q o ≡ true
    → is_listed (first ∷ (rest ++ p ∷ [])) q o ≡ true
is_listed-longer first rest p q none h = refl
is_listed-longer first rest p q (some (file_entry f)) h = refl
is_listed-longer first rest p q (some (symlink_entry s)) h = refl
is_listed-longer first rest p q (some (dir_entry d)) h = rw contains-append (ground arith)

if-some :
    (b : Bool) (e : Entry) (o : Option Entry)
    → is_some o ≡ true
    → is_some (if b then some e else o) ≡ true
if-some true e o h = refl
if-some false e o h = h

listed_at :
    (ds : List String) (p q : String) (e : Entry) (o : Option Entry)
    → is_listed ds p (some e) ≡ true
    → is_listed ds q o ≡ true
    → is_listed ds q (if p == q then some e else o) ≡ true
listed_at ds p q e o h k = elim (Bool-cases (p == q)) [
  | inl s ↦ rw s (subst (λ x. is_listed ds x (some e) ≡ true) ((eq_iff p q).0 s) h)
  | inr s ↦ rw s k
]

new_dir-Listed : (ids : Ids) (p : String) (m : Manager) → Listed m → Listed (new_dir ids p m)
new_dir-Listed ids p m h = record {
  first = h.first;
  rest = h.rest ++ p ∷ [];
  starts = ap (λ l. l ++ p ∷ []) h.starts;
  root = rw lookup-insert (if-some (p == "/") _ (lookup "/" m.entries) h.root);
  listed = λ q.
      let new =
        dir_entry (record { created = false; mode = m.dir_mode; uid = ids.uid; gid = ids.gid }) in
      let before : is_listed (h.first ∷ h.rest) q (lookup q m.entries) ≡ true =
        subst (λ ds. is_listed ds q (lookup q m.entries) ≡ true) h.starts (h.listed q) in
      let now : contains (h.rest ++ p ∷ []) p ≡ true =
        rw (contains-append, eq_refl p) (ground arith) in
      ap (λ ds. is_listed (ds ++ p ∷ []) q (lookup q (new_dir ids p m).entries)) h.starts
      ∙ ap (is_listed (h.first ∷ (h.rest ++ p ∷ [])) q) (lookup-insert p q new m.entries)
      ∙ listed_at (h.first ∷ (h.rest ++ p ∷ [])) p q new (lookup q m.entries) (ground (arith, now))
          (is_listed-longer h.first h.rest p q (lookup q m.entries) before);
}

-- The lists and the entries are the same.
Listed-same : (m m' : Manager) → m'.dirs ≡ m.dirs → m'.entries ≡ m.entries → Listed m → Listed m'
Listed-same m m' d e h = record {
  first = h.first;
  rest = h.rest;
  starts = d ∙ h.starts;
  root = ap (λ l. is_some (lookup "/" l)) e ∙ h.root;
  listed = λ q. rw (d, e) (h.listed q);
}

-- An entry that is listed is put.
put_entry-Listed :
    (p : String) (e : Entry) (m : Manager)
    → is_listed m.dirs p (some e) ≡ true
    → Listed m
    → Listed (put_entry p e m)
put_entry-Listed p e m k h = record {
  first = h.first;
  rest = h.rest;
  starts = h.starts;
  root = rw lookup-insert (if-some (p == "/") e (lookup "/" m.entries) h.root);
  listed = λ q.
      ap (is_listed m.dirs q) (lookup-insert p q e m.entries)
      ∙ listed_at m.dirs p q e (lookup q m.entries) k (h.listed q);
}

put_leaf-Listed :
    (p : String) (e : Entry) (m : Manager) → is_leaf e ≡ true → Listed m → Listed (put_entry p e m)
put_leaf-Listed p (file_entry f) m l h = put_entry-Listed p (file_entry f) m refl h
put_leaf-Listed p (symlink_entry t) m l h = put_entry-Listed p (symlink_entry t) m refl h
put_leaf-Listed p (dir_entry d) m l h = cc

Listed-keeps : (ids : Ids) → Keeps ids Listed
unfolding override_dir
Listed-keeps ids = record {
  directory = new_dir-Listed ids;
  override = λ p r m h. Listed-same m (override_dir p r m) refl refl h;
  leaf = put_leaf-Listed;
}

pub add_dir-Listed :
    (ids : Ids) (path : String) (m : Manager) → Listed m → Listed (add_dir ids path m).0
add_dir-Listed ids path m h = add_dir-keeps ids Listed (Listed-keeps ids) path m h

pub add_file-Listed :
    (ids : Ids) (path content : String) (m : Manager)
    → Listed m
    → Listed (add_file ids path content m).0
add_file-Listed ids path content m h = add_file-keeps ids Listed (Listed-keeps ids) path content m h

pub add_symlink-Listed :
    (ids : Ids) (path target : String) (m : Manager)
    → Listed m
    → Listed (add_symlink ids path target m).0
add_symlink-Listed ids path target m h =
    add_symlink-keeps ids Listed (Listed-keeps ids) path target m h

change_entry-Listed :
    (path : String) (f : Entry → Entry) (o : Option Entry) (m : Manager)
    → lookup path m.entries ≡ o
    → ((e : Entry) → is_listed m.dirs path (some (f e)) ≡ is_listed m.dirs path (some e))
    → Listed m
    → Listed (change_entry path f o m)
change_entry-Listed path f none m l k h = h
change_entry-Listed path f (some e) m l k h =
    put_entry-Listed path (f e) m (k e ∙ ap (is_listed m.dirs path) (sym l) ∙ h.listed path) h

set_mode-is_listed :
    (ds : List String) (p : String) (mode : ℕ) (e : Entry)
    → is_listed ds p (some (set_mode mode e)) ≡ is_listed ds p (some e)
set_mode-is_listed ds p mode (file_entry f) = refl
set_mode-is_listed ds p mode (dir_entry d) = refl
set_mode-is_listed ds p mode (symlink_entry s) = refl

set_owner-is_listed :
    (ds : List String) (p : String) (uid gid : ℕ) (e : Entry)
    → is_listed ds p (some (set_owner uid gid e)) ≡ is_listed ds p (some e)
set_owner-is_listed ds p uid gid (file_entry f) = refl
set_owner-is_listed ds p uid gid (dir_entry d) = refl
set_owner-is_listed ds p uid gid (symlink_entry s) = refl

-- The operations on a layout that has a root
pub data Command : Type 0 where
  new_directory : String → Command
  new_file new_link : String → String → Command
  new_mode : String → ℕ → Command
  new_owner : String → ℕ → ℕ → Command
  new_override : String → String → Command

abbrev pub apply : Ids → Command → Manager → Manager
apply ids (new_directory path) m = (add_dir ids path m).0
apply ids (new_file path content) m = (add_file ids path content m).0
apply ids (new_link path target) m = (add_symlink ids path target m).0
apply ids (new_mode path mode) m = (chmod path mode m).0
apply ids (new_owner path uid gid) m = (chown path uid gid m).0
apply ids (new_override path realpath) m = override_dir path realpath m

apply-Listed : (ids : Ids) (c : Command) (m : Manager) → Listed m → Listed (apply ids c m)
unfolding chmod chown override_dir
apply-Listed ids (new_directory path) m h = add_dir-Listed ids path m h
apply-Listed ids (new_file path content) m h = add_file-Listed ids path content m h
apply-Listed ids (new_link path target) m h = add_symlink-Listed ids path target m h
apply-Listed ids (new_mode path mode) m h =
    if_checked-keeps Listed m (check_path m path false) _ h λ p.
      change_entry-Listed path (set_mode mode) (lookup path m.entries) m refl
        (set_mode-is_listed m.dirs path mode) h
apply-Listed ids (new_owner path uid gid) m h =
    if_checked-keeps Listed m (check_path m path false) _ h λ p.
      change_entry-Listed path (set_owner uid gid) (lookup path m.entries) m refl
        (set_owner-is_listed m.dirs path uid gid) h
apply-Listed ids (new_override path realpath) m h =
    Listed-same m (override_dir path realpath m) refl refl h

abbrev pub apply_all : Ids → List Command → Manager → Manager
apply_all ids [] m = m
apply_all ids (c ∷ cs) m = apply_all ids cs (apply ids c m)

apply_all-keeps :
    (ids : Ids) (cs : List Command) (m : Manager) → Listed m → Listed (apply_all ids cs m)
apply_all-keeps ids [] m h = h
apply_all-keeps ids (c ∷ cs) m h = apply_all-keeps ids cs (apply ids c m) (apply-Listed ids c m h)

-- A call that gives a layout without entries and directories its root
root-Listed :
    (ids : Ids) (is_dir : Bool) (path : String) (m m' : Manager)
    → m.entries ≡ []
    → m.dirs ≡ []
    → set_root_path ids is_dir path m ≡ (m', none)
    → Listed m'
unfolding set_root_path lookup
root-Listed ids false path m m' e d h = cc
root-Listed ids true path m m' e d h =
    let result = rw (set_root_path, e) at h in
    subst Listed (ap (λ (r : Manager × Option LayoutError). r.0) result) (record {
      first = "/";
      rest = [];
      starts = ap (λ l. l ++ "/" ∷ []) d;
      root = refl;
      listed = λ q. listed_at (m.dirs ++ "/" ∷ []) "/" q _ none refl refl;
    })

pub apply_all-Listed :
    (ids : Ids) (is_dir : Bool) (path : String) (m m' : Manager) (cs : List Command)
    → m.entries ≡ []
    → m.dirs ≡ []
    → set_root_path ids is_dir path m ≡ (m', none)
    → Listed (apply_all ids cs m')
apply_all-Listed ids is_dir path m m' cs e d h =
    apply_all-keeps ids cs m' (root-Listed ids is_dir path m m' e d h)
