-- ===== src/Prelude/Fields.antt =====
-- Splitting a text that was joined from fields.
use Prim.Native.Char.{Char, code}
use Prim.Native.Nat.{ℕ}
use Prim.Native.String.{String, [], ◌∷◌}
use Prim.Native.String.append
use mathlib.Core.Bool.{Bool, true, false, not}
use mathlib.Core.List.{List}
use mathlib.Core.Logic.{inl, inr}
use mathlib.Core.Path.{◌≡◌, refl, ap}
use native.Mathlib.Omega.{arith}
use apptainer.Prelude.Lists.{all}
use apptainer.Prelude.Tests.{eqb, Bool-cases}
use apptainer.Prelude.Texts.{
  has_prefix, drop_text, split, onto_first, all_chars, append as text_append,
}

-- No character of the text is the one with the number.
abbrev pub free_of : ℕ → String → Bool
free_of sep s = all_chars (λ c. not (eqb c sep)) s

-- A text with no separator, and what follows the separator behind it.
pub split-append :
    (sep : ℕ) (s : String) (d : Char) (t : String)
    → free_of sep s ≡ true
    → eqb (code d) sep ≡ true
    → split sep (text_append s (d ∷ t)) ≡ List.◌∷◌ s (split sep t)
unfolding split
split-append sep [] d t h e = rw (append.nil, e) refl
split-append sep (c ∷ s) d t h e = rw append.cons (
    let now : eqb (code c) sep ≡ false = ground arith in
    rw now (ap (onto_first c) (split-append sep s d t (ground arith) e)))

-- A text with no separator is its only field.
pub split_whole : (sep : ℕ) (s : String) → free_of sep s ≡ true → split sep s ≡ List.◌∷◌ s List.[]
unfolding split
split_whole sep [] h = refl
split_whole sep (c ∷ s) h =
    let now : eqb (code c) sep ≡ false = ground arith in
    rw now (ap (onto_first c) (split_whole sep s (ground arith)))

onto_first-free :
    (sep : ℕ) (c : Char) (P : List String)
    → eqb (code c) sep ≡ false
    → all (free_of sep) P ≡ true
    → all (free_of sep) (onto_first c P) ≡ true
onto_first-free sep c List.[] n h = ground arith
onto_first-free sep c (List.◌∷◌ f fs) n h = ground arith

-- No field has the separator.
pub split-free : (sep : ℕ) (s : String) → all (free_of sep) (split sep s) ≡ true
unfolding split
split-free sep [] = refl
split-free sep (c ∷ s) = elim (Bool-cases (eqb (code c) sep)) [
  | inl e ↦ rw e (split-free sep s)
  | inr e ↦ rw e (onto_first-free sep c (split sep s) e (split-free sep s))
]

-- A text has at least one field.
pub split-cons :
    (sep : ℕ) (s : String) → (p : String) × (P : List String) × (split sep s ≡ List.◌∷◌ p P)
unfolding split
split-cons sep [] = ("", List.[], refl)
split-cons sep (c ∷ s) = elim (Bool-cases (eqb (code c) sep)) [
  | inl e ↦ ("", split sep s, rw e refl)
  | inr e ↦ let rest = split-cons sep s in (c ∷ rest.0, rest.1, rw e (ap (onto_first c) rest.2))
]

pub has_prefix-append : (p s : String) → has_prefix (text_append p s) p ≡ true
unfolding has_prefix
has_prefix-append [] s = refl
has_prefix-append (c ∷ p) s = rw append.cons (ground (arith, has_prefix-append p s))

pub drop_text-append : (p s : String) → drop_text p (text_append p s) ≡ s
unfolding drop_text
drop_text-append [] s = append.nil s
drop_text-append (c ∷ p) s = rw append.cons (drop_text-append p s)

-- A text that begins with another character has not the prefix.
pub has_prefix_differs :
    (c : Char) (a : String) (d : Char) (b s : String)
    → eqb (code c) (code d) ≡ false
    → has_prefix (text_append (c ∷ a) s) (d ∷ b) ≡ false
unfolding has_prefix
has_prefix_differs c a d b s h = rw (append.cons, h) refl
