-- ===== src/Layout/Sync/Again.antt =====
-- `Create` and `Update`, once and again.
use mathlib.Core.Path.{subst}
use apptainer.Prelude.{
  ℕ, String, List, [], ◌∷◌, Bool, true, ◌||◌, Option, none, some, ◌==◌, eq_refl, Assoc, lookup,
  keys, contains, All, All-at, ◌≡◌, ◌≢◌, refl, sym, ap, ◌∙◌, arith, Bool-cases, ◌⊎◌, inl, inr, dir,
}
use apptainer.Layout.Manager.{
  Entry, file_entry, dir_entry, symlink_entry, Manager, Ids, after_first, get_override_path,
}
use apptainer.Layout.Manager.Listed.{Listed, is_listed}
use apptainer.Layout.Sync.{
  Vfs, Outcome, sync_dir, sync_dirs, real_path, sync_entry, sync_entries, sync_all, restore, masked,
  rooted, sync,
}
use apptainer.Layout.Sync.Marks.{
  mark, Grown, Grown-refl, Touched, DirAt, LeafAt, DirAt-keeps, dir_made, leaf_made,
}
use apptainer.Layout.Sync.Settled.{Ends, sync_dirs-Ends, sync_entries-Ends, and_then-Ends, Ends-map}

-- Every directory but the root, and every file and symlink, is created.
record Settled (m : Manager) : Type 0 where
  pub directories : All (λ p. DirAt p m) (after_first m.dirs)
  pub leaves : (p : String) → LeafAt p m

lookup-keys : (p : String) (m : Assoc Entry) → (lookup p m ≡ none) ⊎ (contains (keys m) p ≡ true)
unfolding lookup
lookup-keys p [] = inl refl
lookup-keys p ((name, e) ∷ m) = ground (arith, lookup-keys p m)

All-map :
    (P Q : String → Type 0) (ps : List String) → ((p : String) → P p → Q p) → All P ps → All Q ps
All-map P Q [] f h = tt
All-map P Q (p ∷ ps) f (h, hs) = (f p h, All-map P Q ps f hs)

none-Touched : (o : Option Entry) → Touched none o → o ≡ none
none-Touched o (inl h) = h
none-Touched o (inr (e, h, k)) = cc

leaves_of :
    (m m' : Manager)
    → Grown m m'
    → All (λ p. LeafAt p m') (keys m.entries)
    → (p : String) → LeafAt p m'
leaves_of m m' g h p = elim (lookup-keys p m.entries) [
  | inr k ↦ All-at (λ q. LeafAt q m') (keys m.entries) p h k
  | inl k ↦
      ap leaf_made (
        none-Touched (lookup p m'.entries)
          (subst (λ o. Touched o (lookup p m'.entries)) k (g.at p)))
]

settled :
    (m m1 m2 : Manager)
    → Grown m m1
    → Grown m1 m2
    → All (λ p. DirAt p m1) (after_first m.dirs)
    → All (λ p. LeafAt p m2) (keys m1.entries)
    → Settled m2
settled m m1 m2 g g2 h k =
    let same : m.dirs ≡ m2.dirs =
      sym (ap (λ (x : Manager). x.dirs) g2.rest ∙ ap (λ (x : Manager). x.dirs) g.rest) in
    record {
      directories =
          subst (λ ds. All (λ p. DirAt p m2) (after_first ds)) same
            (All-map (λ p. DirAt p m1) (λ p. DirAt p m2) (after_first m.dirs)
              (λ p. DirAt-keeps p m1 m2 g2) h);
      leaves = leaves_of m1 m2 g2 k;
    }

-- The map of a manager with a root stays one.
rooted_stays :
    (m m' : Manager) (k : String) (e : Entry)
    → Grown m m'
    → lookup k m.entries ≡ some e
    → m'.entries ≢ []
unfolding lookup
rooted_stays m m' k e g h z = elim (subst (λ o. Touched o (lookup k m'.entries)) h (g.at k)) [
  | inl i ↦ ground (arith, ap (lookup k) z)
  | inr (f, i, j) ↦ ground (arith, ap (lookup k) z)
]

-- The entry is created.
abbrev pub is_made : Option Entry → Bool
is_made none = true
is_made (some (file_entry f)) = f.created
is_made (some (dir_entry d)) = d.created
is_made (some (symlink_entry s)) = s.created

-- Every entry but the root is created.
pub record Created (m : Manager) : Type 0 where
  pub made : (p : String) → (p == "/" || is_made (lookup p m.entries)) ≡ true

is_listed-mark :
    (ds : List String) (p : String) (e : Entry)
    → is_listed ds p (some (mark e)) ≡ is_listed ds p (some e)
is_listed-mark ds p (file_entry f) = refl
is_listed-mark ds p (dir_entry d) = refl
is_listed-mark ds p (symlink_entry s) = refl

is_listed-Touched :
    (ds : List String) (p : String) (o o' : Option Entry)
    → Touched o o'
    → is_listed ds p o ≡ true
    → is_listed ds p o' ≡ true
is_listed-Touched ds p o o' (inl h) k = ap (is_listed ds p) h ∙ k
is_listed-Touched ds p o o' (inr (e, h, i)) k =
    ap (is_listed ds p) i ∙ is_listed-mark ds p e ∙ ap (is_listed ds p) (sym h) ∙ k

entry-is_made :
    (ds : List String) (p : String) (o : Option Entry)
    → is_listed ds p o ≡ true
    → leaf_made o ≡ true
    → (contains (after_first ds) p ≡ true → dir_made o ≡ true)
    → (p == "/" || is_made o) ≡ true
entry-is_made ds p none h l d = ground arith
entry-is_made ds p (some (file_entry f)) h l d = ground arith
entry-is_made ds p (some (symlink_entry s)) h l d = ground arith
entry-is_made ds p (some (dir_entry e)) h l d = elim (Bool-cases (p == "/")) [
  | inl s ↦ rw s refl
  | inr s ↦ rw s (d (rw s at h))
]

Settled-Created : (m m' : Manager) → Listed m → Grown m m' → Settled m' → Created m'
Settled-Created m m' h g s = record {
  made = λ p.
      let same : m.dirs ≡ m'.dirs = sym (ap (λ (x : Manager). x.dirs) g.rest) in
      entry-is_made m'.dirs p (lookup p m'.entries)
        (is_listed-Touched m'.dirs p (lookup p m.entries) (lookup p m'.entries) (g.at p)
          (subst (λ ds. is_listed ds p (lookup p m.entries) ≡ true) same (h.listed p)))
        (s.leaves p) λ k. All-at (λ q. DirAt q m') (after_first m'.dirs) p s.directories k;
}

module _ {W : Type 0} where
  sync_all-Settled :
      (vfs : Vfs W) (ids : Ids) (m : Manager) (w : W) → Ends m Settled (sync_all vfs ids m w)
  unfolding sync_all
  sync_all-Settled vfs ids m w =
      and_then-Ends m (λ m'. All (λ p. DirAt p m') (after_first m.dirs)) Settled
        (sync_dirs vfs ids (after_first m.dirs) m w) _
        (sync_dirs-Ends vfs ids (after_first m.dirs) m w)
        (λ m1 w1 g h.
          Ends-map m1 (λ m'. All (λ p. LeafAt p m') (keys m1.entries)) Settled
            (sync_entries vfs ids (keys m1.entries) m1 w1) (λ m2 g2 k. settled m m1 m2 g g2 h k)
            (sync_entries-Ends vfs ids (keys m1.entries) m1 w1))

  quiet_dir :
      (vfs : Vfs W) (ids : Ids) (p : String) (o : Option Entry) (m : Manager) (w : W)
      → dir_made o ≡ true
      → sync_dir vfs ids p o m w ≡ ((m, w), none)
  quiet_dir vfs ids p none m w h = refl
  quiet_dir vfs ids p (some (file_entry f)) m w h = refl
  quiet_dir vfs ids p (some (symlink_entry s)) m w h = refl
  quiet_dir vfs ids p (some (dir_entry d)) m w h = rw h refl

  quiet_dirs :
      (vfs : Vfs W) (ids : Ids) (ps : List String) (m : Manager) (w : W)
      → All (λ p. DirAt p m) ps
      → sync_dirs vfs ids ps m w ≡ ((m, w), none)
  unfolding sync_dirs
  quiet_dirs vfs ids [] m w h = refl
  quiet_dirs vfs ids (p ∷ ps) m w (h, hs) =
      rw (quiet_dir vfs ids p (lookup p m.entries) m w h) (quiet_dirs vfs ids ps m w hs)

  quiet_entry :
      (vfs : Vfs W) (ids : Ids) (p path : String) (o : Option Entry) (m : Manager) (w : W)
      → leaf_made o ≡ true
      → sync_entry vfs ids p path o m w ≡ ((m, w), none)
  quiet_entry vfs ids p path none m w h = refl
  quiet_entry vfs ids p path (some (dir_entry f)) m w h = refl
  quiet_entry vfs ids p path (some (symlink_entry s)) m w h = rw h refl
  quiet_entry vfs ids p path (some (file_entry d)) m w h = rw h refl

  quiet_entries :
      (vfs : Vfs W) (ids : Ids) (ps : List String) (m : Manager) (w : W)
      → ((p : String) → LeafAt p m)
      → sync_entries vfs ids ps m w ≡ ((m, w), none)
  unfolding sync_entries
  quiet_entries vfs ids [] m w h = refl
  quiet_entries vfs ids (p ∷ ps) m w h =
      rw
        (quiet_entry vfs ids p (real_path p m (get_override_path (dir p) m)) (lookup p m.entries) m
          w (h p))
        (quiet_entries vfs ids ps m w h)

  quiet_all :
      (vfs : Vfs W) (ids : Ids) (m : Manager) (w : W)
      → Settled m
      → sync_all vfs ids m w ≡ ((m, w), none)
  unfolding sync_all
  quiet_all vfs ids m w h =
      rw (quiet_dirs vfs ids (after_first m.dirs) m w h.directories)
        (quiet_entries vfs ids (keys m.entries) m w h.leaves)

  restore-Ends :
      (vfs : Vfs W) (mask : ℕ) (m : Manager) (P : Manager → Type 0) (r : Outcome W)
      → Ends m P r
      → Ends m P (restore vfs mask r)
  restore-Ends vfs mask m P ((m', w), none) h = h
  restore-Ends vfs mask m P ((m', w), some x) h = h

  -- `Create` and `Update` never change more of the layout than marks, and where they succeed, every
  -- directory but the root and every file and symlink is marked as created.
  sync-Ends : (vfs : Vfs W) (ids : Ids) (m : Manager) (w : W) → Ends m Settled (sync vfs ids m w)
  unfolding sync masked
  sync-Ends vfs ids m w = sync_rooted m.entries
    where
      sync_rooted : (entries : Assoc Entry) → Ends m Settled (rooted vfs ids m w entries)
      sync_rooted [] = Grown-refl m
      sync_rooted (e ∷ es) =
          restore-Ends vfs (vfs.umask w 0).1 m Settled (sync_all vfs ids m (vfs.umask w 0).0)
            (sync_all-Settled vfs ids m (vfs.umask w 0).0)

  -- The world after the two calls of `Umask`.
  abbrev pub masked_only : Vfs W → W → W
  masked_only vfs w = (vfs.umask (vfs.umask w 0).0 (vfs.umask w 0).1).0

  again :
      (vfs : Vfs W) (ids : Ids) (m : Manager) (w : W) (entries : Assoc Entry)
      → entries ≢ []
      → Settled m
      → rooted vfs ids m w entries ≡ ((m, masked_only vfs w), none)
  unfolding masked
  again vfs ids m w [] n s = absurd (n refl)
  again vfs ids m w (e ∷ es) n s = rw (quiet_all vfs ids m (vfs.umask w 0).0 s) refl

  from_ok :
      (m m' : Manager) (w' : W) (P : Manager → Type 0) (r : Outcome W)
      → r ≡ ((m', w'), none)
      → Ends m P r
      → Grown m m' × P m'
  from_ok m m' w' P r h k = subst (Ends m P) h k

  had_root :
      (vfs : Vfs W) (ids : Ids) (m m' : Manager) (w w' : W) (entries : Assoc Entry)
      → m.entries ≡ entries
      → rooted vfs ids m w entries ≡ ((m', w'), none)
      → Grown m m'
      → m'.entries ≢ []
  unfolding lookup
  had_root vfs ids m m' w w' [] e h g = absurd (cc)
  had_root vfs ids m m' w w' ((k, x) ∷ es) e h g = rooted_stays m m' k x g (rw (e, eq_refl k) refl)

  -- On a layout that has a root and lists its directories: where `Create` or `Update` succeeds, the
  -- layout differs in marks of created entries only, all entries but the root are marked, and an
  -- `Update` that follows, in any state of the file system, succeeds, leaves the layout and calls
  -- nothing but `Umask`.
  pub sync-again :
      (vfs : Vfs W) (ids : Ids) (m m' : Manager) (w w' : W)
      → Listed m
      → sync vfs ids m w ≡ ((m', w'), none)
      → Grown m m' × Created m' × ((v : W) → sync vfs ids m' v ≡ ((m', masked_only vfs v), none))
  unfolding sync
  sync-again vfs ids m m' w w' l h =
      let (g, s) = from_ok m m' w' Settled (sync vfs ids m w) h (sync-Ends vfs ids m w) in
      (
        g,
        Settled-Created m m' l g s,
        λ v. again vfs ids m' v m'.entries (had_root vfs ids m m' w w' m.entries refl h g) s,
      )
