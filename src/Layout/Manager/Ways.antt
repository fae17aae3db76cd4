-- ===== src/Layout/Manager/Ways.antt =====
-- A path that was added is an entry.
use Prim.Native.String.append as string_append
use text.Mathlib.TextLemmas.{append_assoc}
use mathlib.Core.Path.{subst}
use apptainer.Prelude.{
  ℕ, String, List, [], ◌∷◌, Bool, true, false, none, ◌==◌, eq_refl, append, split, join, lookup,
  is_some, contains, all, All-at, clean, is_abs, is_plain, clean-Rooted, split_rooted, ◌≡◌, refl,
  sym, ap, ◌∙◌, arith, ◌⊎◌, inl, inr, named, Rooted,
}
use apptainer.Layout.Manager.{Manager, Ids, after_first, add_dir, add_file}
use apptainer.Layout.Manager.Adding.{prefixes, ways}
use apptainer.Layout.Manager.Checks.{Tried, add_dir-Extended, add_file-Placed}
use apptainer.Layout.Manager.Listed.{Listed, add_dir-Listed}

prefixes-join :
    (p e : String) (es : List String)
    → all is_plain (e ∷ es) ≡ true
    → contains (prefixes p (e ∷ es)) (append p (append "/" (join "/" (e ∷ es)))) ≡ true
unfolding prefixes join
prefixes-join p e [] h =
    let named : (e == "") ≡ false = ground arith in
    rw (named, eq_refl (append p (append "/" e))) refl
prefixes-join p e (f ∷ es) h =
    let named : (e == "") ≡ false = ground arith in
    let p' = append p (append "/" e) in
    let later = prefixes-join p' f es (ground arith) in
    let same : append p' (append "/" (join "/" (f ∷ es)))
        ≡ append p (append "/" (append e (append "/" (join "/" (f ∷ es))))) =
      append_assoc p (append "/" e) (append "/" (join "/" (f ∷ es)))
      ∙ ap (append p) (append_assoc "/" e (append "/" (join "/" (f ∷ es)))) in
    rw named
      (let found = subst (λ t. contains (prefixes p' (f ∷ es)) t ≡ true) same later in ground arith)

Rooted-ways : (q : String) (n : ℕ) → Rooted q n → (q ≡ "/") ⊎ (contains (ways q) q ≡ true)
unfolding ways join
Rooted-ways q n ([], same, plain, fits) = inl same
Rooted-ways q n (e ∷ es, same, plain, fits) =
    let path = append "/" (join "/" (e ∷ es)) in
    let fields : after_first (split b'/' path) ≡ e ∷ es =
      ap after_first (split_rooted e es plain) in
    let found : contains (prefixes "" (after_first (split b'/' path))) path ≡ true = rw fields (
      subst (λ t. contains (prefixes "" (e ∷ es)) t ≡ true) (string_append.nil path)
        (prefixes-join "" e es plain)) in
    inr (subst (λ t. contains (ways t) t ≡ true) (sym same) found)

-- There is an entry at the cleaned path.
abbrev pub has_entry : String → Manager → Bool
has_entry path m = is_some (lookup (clean path) m.entries)

-- Where `AddDir` succeeds, the path is an entry.
pub add_dir-has :
    (ids : Ids) (path : String) (m m' : Manager)
    → is_abs path ≡ true
    → Listed m
    → add_dir ids path m ≡ (m', none)
    → has_entry path m' ≡ true
unfolding Tried
add_dir-has ids path m m' a l h = elim (add_dir-Extended ids path m) [
  | inl (x, e, r) ↦ absurd (cc)
  | inr (n, e, free, extended) ↦
      let same : n ≡ m' = ap (λ r. r.0) (sym e ∙ h) in
      subst (λ k. has_entry path k ≡ true) same
        (elim (Rooted-ways (clean path) (named (split b'/' path)) (clean-Rooted path a)) [
          | inr way ↦
              All-at (λ p. is_some (lookup p n.entries) ≡ true) (ways (clean path)) (clean path)
                extended.has way
          | inl root ↦
              let listed = subst Listed (ap (λ r. r.0) e) (add_dir-Listed ids path m l) in
              subst (λ p. is_some (lookup p n.entries) ≡ true) (sym root) listed.root
        ])
]

pub add_file-has :
    (ids : Ids) (path content : String) (m m' : Manager)
    → add_file ids path content m ≡ (m', none)
    → has_entry path m' ≡ true
unfolding Tried
add_file-has ids path content m m' h = elim (add_file-Placed ids path content m) [
  | inl (x, e, r) ↦ absurd (cc)
  | inr (n, e, free, placed) ↦
      let same : n ≡ m' = ap (λ r. r.0) (sym e ∙ h) in
      subst (λ k. has_entry path k ≡ true) same (ap is_some placed.placed)
]
