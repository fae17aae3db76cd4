-- ===== src/Deffile/Texts/Parts.antt =====
-- The parts of a text that is split at a character.
use Prim.Native.Char.{Char, code}
use Prim.Native.String.{[], ◌∷◌}
use Prim.Native.String.append as string_append
use mathlib.Core.Path.{subst}
use apptainer.Prelude.{
  ℕ, String, true, false, Option, none, some, eqb, append, split_two, free_of, Bool-cases,
  Option-cases, inl, inr, ◌≡◌, refl, ap, ◌∙◌, arith,
}
use apptainer.Deffile.Texts.{up_to}

-- A text of one character before another text
pub append-one : (c : Char) (s : String) → append (c ∷ []) s ≡ c ∷ s
append-one c s = string_append.cons c [] s ∙ ap (λ t. c ∷ t) (string_append.nil s)

pub up_to-twice : (sep : ℕ) (s : String) → up_to sep (up_to sep s) ≡ up_to sep s
unfolding up_to
up_to-twice sep [] = refl
up_to-twice sep (c ∷ s) = elim (Bool-cases (eqb (code c) sep)) [
  | inl e ↦ rw e refl
  | inr e ↦ rw (e, e) (ap (λ t. c ∷ t) (up_to-twice sep s))
]

first_of : Option (String × String) → String
first_of none = []
first_of (some parts) = parts.0

-- The first part of two has no separator.
pub split_two-free :
    (sep : ℕ) (s a b : String) → split_two sep s ≡ some (a, b) → free_of sep a ≡ true
unfolding split_two first_of
split_two-free sep [] a b h = cc
split_two-free sep (c ∷ s) a b h = elim (Bool-cases (eqb (code c) sep)) [
  | inl e ↦
      let shape = rw e at h in
      let empty : [] ≡ a = ap first_of shape in subst (λ t. free_of sep t ≡ true) empty refl
  | inr e ↦ elim (Option-cases (split_two sep s)) [
    | inl n ↦ let shape = rw (e, n) at h in cc
    | inr p ↦
        let shape = rw (e, p.1) at h in
        let front : (c ∷ p.0.0) ≡ a = ap first_of shape in
        let rest = split_two-free sep s p.0.0 p.0.1 p.1 in
        subst (λ t. free_of sep t ≡ true) front (ground arith)
  ]
]

pub split_two-append :
    (sep : ℕ) (s : String) (d : Char) (t : String)
    → free_of sep s ≡ true
    → eqb (code d) sep ≡ true
    → split_two sep (append s (d ∷ t)) ≡ some (s, t)
unfolding split_two
split_two-append sep [] d t h e = rw (string_append.nil, e) refl
split_two-append sep (c ∷ s) d t h e =
    let now : eqb (code c) sep ≡ false = ground arith in
    rw (string_append.cons, now, split_two-append sep s d t (ground arith) e) refl

-- A text without the separator is not split.
pub split_two_whole : (sep : ℕ) (s : String) → free_of sep s ≡ true → split_two sep s ≡ none
unfolding split_two
split_two_whole sep [] h = refl
split_two_whole sep (c ∷ s) h =
    let now : eqb (code c) sep ≡ false = ground arith in
    rw (now, split_two_whole sep s (ground arith)) refl

pub up_to-append :
    (sep : ℕ) (s : String) (d : Char) (t : String)
    → free_of sep s ≡ true
    → eqb (code d) sep ≡ true
    → up_to sep (append s (d ∷ t)) ≡ s
unfolding up_to
up_to-append sep [] d t h e = rw (string_append.nil, e) refl
up_to-append sep (c ∷ s) d t h e =
    let now : eqb (code c) sep ≡ false = ground arith in
    rw (string_append.cons, now) (ap (λ x. c ∷ x) (up_to-append sep s d t (ground arith) e))

pub up_to_whole : (sep : ℕ) (s : String) → free_of sep s ≡ true → up_to sep s ≡ s
unfolding up_to
up_to_whole sep [] h = refl
up_to_whole sep (c ∷ s) h =
    let now : eqb (code c) sep ≡ false = ground arith in
    rw now (ap (λ x. c ∷ x) (up_to_whole sep s (ground arith)))

pub up_to-free : (sep : ℕ) (s : String) → free_of sep (up_to sep s) ≡ true
unfolding up_to
up_to-free sep [] = refl
up_to-free sep (c ∷ s) = elim (Bool-cases (eqb (code c) sep)) [
  | inl e ↦ rw e refl
  | inr e ↦ rw e (ground (arith, up_to-free sep s))
]
