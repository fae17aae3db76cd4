-- ===== src/Layout/Sync/Marks.antt =====
-- Layouts that differ in marks of created entries only.
use apptainer.Prelude.{
  String, Bool, true, Option, some, ◌==◌, eq_iff, eq_refl, lookup, lookup-insert, ◌≡◌, refl, sym,
  ap, ◌∙◌, arith, Bool-cases, ◌⊎◌, inl, inr,
}
use apptainer.Layout.Manager.{Entry, file_entry, dir_entry, symlink_entry, Manager, put_entry}

abbrev pub mark : Entry → Entry
mark (file_entry f) = file_entry (record f { created = true })
mark (dir_entry d) = dir_entry (record d { created = true })
mark (symlink_entry s) = symlink_entry (record s { created = true })

mark_twice : (e : Entry) → mark (mark e) ≡ mark e
mark_twice (file_entry f) = refl
mark_twice (dir_entry d) = refl
mark_twice (symlink_entry s) = refl

-- The entry is the same, or it was marked as created.
abbrev pub Touched : Option Entry → Option Entry → Type 0
Touched o o' = (o' ≡ o) ⊎ ((e : Entry) × (o ≡ some e) × (o' ≡ some (mark e)))

Touched-trans : (a b c : Option Entry) → Touched a b → Touched b c → Touched a c
Touched-trans a b c (inl h) (inl k) = inl (k ∙ h)
Touched-trans a b c (inl h) (inr (e, k, l)) = inr (e, sym h ∙ k, l)
Touched-trans a b c (inr (e, h, i)) (inl k) = inr (e, h, k ∙ i)
Touched-trans a b c (inr (e, h, i)) (inr (f, k, l)) =
    let same : f ≡ mark e = ground (arith, i, k) in
    inr (e, h, l ∙ ap (λ x. some (mark x)) same ∙ ap some (mark_twice e))

-- Only marks of entries changed.
pub record Grown (m m' : Manager) : Type 0 where
  pub rest : m' ≡ record m { entries = m'.entries }
  pub at : (p : String) → Touched (lookup p m.entries) (lookup p m'.entries)

pub Grown-refl : (m : Manager) → Grown m m
Grown-refl m = record { rest = refl; at = λ p. inl refl }

pub Grown-trans : (a b c : Manager) → Grown a b → Grown b c → Grown a c
Grown-trans a b c h k = record {
  rest = k.rest ∙ ap (λ (m : Manager). record m { entries = c.entries }) h.rest;
  at = λ p.
      Touched-trans (lookup p a.entries) (lookup p b.entries) (lookup p c.entries) (h.at p)
        (k.at p);
}

abbrev pub dir_made : Option Entry → Bool
dir_made (some (dir_entry d)) = d.created
dir_made _ = true

abbrev pub leaf_made : Option Entry → Bool
leaf_made (some (file_entry f)) = f.created
leaf_made (some (symlink_entry s)) = s.created
leaf_made _ = true

pub dir_made-mark : (e : Entry) → dir_made (some (mark e)) ≡ true
dir_made-mark (file_entry f) = refl
dir_made-mark (dir_entry d) = refl
dir_made-mark (symlink_entry s) = refl

pub leaf_made-mark : (e : Entry) → leaf_made (some (mark e)) ≡ true
leaf_made-mark (file_entry f) = refl
leaf_made-mark (dir_entry d) = refl
leaf_made-mark (symlink_entry s) = refl

-- A test that marks pass stays passed.
Touched-keeps :
    (t : Option Entry → Bool) (o o' : Option Entry)
    → ((e : Entry) → t (some (mark e)) ≡ true)
    → Touched o o'
    → t o ≡ true
    → t o' ≡ true
Touched-keeps t o o' f (inl h) k = ap t h ∙ k
Touched-keeps t o o' f (inr (e, h, i)) k = ap t i ∙ f e

pub put_entry-Grown :
    (p : String) (e : Entry) (m : Manager)
    → lookup p m.entries ≡ some e
    → Grown m (put_entry p (mark e) m)
put_entry-Grown p e m h = record {
  rest = refl;
  at = λ q. elim (Bool-cases (p == q)) [
    | inl k ↦
        inr
          (e, ap (λ x. lookup x m.entries) (sym ((eq_iff p q).0 k)) ∙ h, rw (lookup-insert, k) refl)
    | inr k ↦ inl (rw (lookup-insert, k) refl)
  ];
}

pub put_entry-lookup :
    (p : String) (e : Entry) (m : Manager) → lookup p (put_entry p e m).entries ≡ some e
put_entry-lookup p e m = rw (lookup-insert, eq_refl p) refl

-- The directory, or the other entry, of the path is created.
abbrev pub DirAt : String → Manager → Type 0
DirAt p m = dir_made (lookup p m.entries) ≡ true

abbrev pub LeafAt : String → Manager → Type 0
LeafAt p m = leaf_made (lookup p m.entries) ≡ true

pub DirAt-keeps : (p : String) (m m' : Manager) → Grown m m' → DirAt p m → DirAt p m'
DirAt-keeps p m m' g h =
    Touched-keeps dir_made (lookup p m.entries) (lookup p m'.entries) dir_made-mark (g.at p) h

pub LeafAt-keeps : (p : String) (m m' : Manager) → Grown m m' → LeafAt p m → LeafAt p m'
LeafAt-keeps p m m' g h =
    Touched-keeps leaf_made (lookup p m.entries) (lookup p m'.entries) leaf_made-mark (g.at p) h
