-- ===== src/Prelude/Paths/Parents.antt =====
-- The way from a rooted path to its parents, which ends at the root.
use Prim.Native.Nat.{ℕ, zero, suc, ◌+◌, ◌≤◌}
use Prim.Native.Char.{code}
use Prim.Native.String.{String}
use Prim.Native.String.append as string_append
use mathlib.Core.Path.{◌≡◌, refl, ap, ◌∙◌, subst}
use mathlib.Core.Logic.{◌⊎◌, inl, inr}
use mathlib.Core.Bool.{Bool, true, false, not, ◌&&◌}
use mathlib.Core.List.{List, [], ◌∷◌, ◌++◌}
use native.Mathlib.Omega.{arith}
use text.Mathlib.Text.{◌==◌}
use text.Mathlib.TextLemmas.{append_assoc}
use apptainer.Prelude.Tests.{if◌then◌else◌, eqb, Bool-cases}
use apptainer.Prelude.Lists.{length, all}
use apptainer.Prelude.Texts.{append, has_prefix, split, join}
use apptainer.Prelude.Fields.{free_of, split-append, split-cons, split-free, split_whole}
use apptainer.Prelude.Paths.{
  is_abs, step_up, clean_from, reverse_onto, rebuild, clean, all_but_last, up_to_last, dir,
}

-- An element that a cleaned rooted path may have
abbrev pub is_plain : String → Bool
is_plain e = not (e == "") && not (e == "..") && free_of b'/' e

abbrev pub named : List String → ℕ
named [] = 0
named (e ∷ es) = if e == "" then named es else suc (named es)

step_up_plain :
    (kept : List String)
    → all is_plain kept ≡ true
    → (all is_plain (step_up true kept) ≡ true) × (length (step_up true kept) ≤ length kept)
unfolding step_up
step_up_plain [] h = (refl, omega arith)
step_up_plain (e ∷ es) h =
    let other : (e == "..") ≡ false = ground arith in
    (rw other (ground arith), rw other (omega arith))

clean_from_plain :
    (kept es : List String)
    → all is_plain kept ≡ true
    → all (free_of b'/') es ≡ true
    → (all is_plain (clean_from true kept es) ≡ true)
      × (length (clean_from true kept es) ≤ length kept + named es)
unfolding clean_from
clean_from_plain kept [] h f = (h, omega arith)
clean_from_plain kept (e ∷ es) h f = elim (Bool-cases (e == "")) [
  | inl a ↦ rw a (clean_from_plain kept es h (ground arith))
  | inr a ↦ elim (Bool-cases (e == ".")) [
    | inl b ↦
        let (plain, fits) = clean_from_plain kept es h (ground arith) in
        rw (a, b) (plain, omega (arith, fits))
    | inr b ↦ elim (Bool-cases (e == "..")) [
      | inl c ↦
          let (up, less) = step_up_plain kept h in
          let (plain, fits) = clean_from_plain (step_up true kept) es up (ground arith) in
          rw (a, b, c) (plain, omega (arith, fits, less))
      | inr c ↦
          let (plain, fits) = clean_from_plain (e ∷ kept) es (ground arith) (ground arith) in
          rw (a, b, c) (plain, omega (arith, fits))
    ]
  ]
]

reverse_onto_plain :
    (es acc : List String)
    → all is_plain es ≡ true
    → all is_plain acc ≡ true
    → (all is_plain (reverse_onto es acc) ≡ true)
      × (length (reverse_onto es acc) ≡ length es + length acc)
unfolding reverse_onto
reverse_onto_plain [] acc h k = (k, omega arith)
reverse_onto_plain (e ∷ es) acc h k =
    let (plain, same) = reverse_onto_plain es (e ∷ acc) (ground arith) (ground arith) in
    (plain, omega (arith, same))

-- A rooted path of so many plain elements at most
abbrev pub Rooted : String → ℕ → Type 0
Rooted p n =
    (es : List String) × (p ≡ append "/" (join "/" es)) × (all is_plain es ≡ true) × (length es ≤ n)

pub clean-Rooted : (p : String) → is_abs p ≡ true → Rooted (clean p) (named (split b'/' p))
unfolding clean clean_from reverse_onto rebuild
clean-Rooted p h =
    let (plain, fits) = clean_from_plain [] (split b'/' p) refl (split-free b'/' p) in
    let (all_plain, same) = reverse_onto_plain (clean_from true [] (split b'/' p)) [] plain refl in
    (
      reverse_onto (clean_from true [] (split b'/' p)) [],
      rw h refl,
      all_plain,
      omega (arith, fits, same),
    )

one_slash : (s : String) → append "/" s ≡ String.◌∷◌ "/" s
one_slash s = string_append.cons "/" String.[] s ∙ ap (λ t. String.◌∷◌ "/" t) (string_append.nil s)

-- A path up to a last separator, by its elements
split_ended :
    (e : String) (es : List String)
    → all (free_of b'/') (e ∷ es) ≡ true
    → split b'/' (append (join "/" (e ∷ es)) "/") ≡ (e ∷ es) ++ "" ∷ []
unfolding join split
split_ended e [] h = split-append b'/' e "/" "" (ground arith) refl
split_ended e (f ∷ es) h =
    rw (one_slash (join "/" (f ∷ es)), append_assoc, string_append.cons)
      (split-append b'/' e "/" (append (join "/" (f ∷ es)) "/") (ground arith) refl
        ∙ ap (λ l. e ∷ l) (split_ended f es (ground arith)))

split_joined :
    (e : String) (es : List String)
    → all (free_of b'/') (e ∷ es) ≡ true
    → split b'/' (join "/" (e ∷ es)) ≡ e ∷ es
unfolding join
split_joined e [] h = split_whole b'/' e (ground arith)
split_joined e (f ∷ es) h = rw (one_slash (join "/" (f ∷ es))) (
    split-append b'/' e "/" (join "/" (f ∷ es)) (ground arith) refl
    ∙ ap (λ l. e ∷ l) (split_joined f es (ground arith)))

named-append : (xs : List String) → named (xs ++ "" ∷ []) ≡ named xs
named-append [] = refl
named-append (x ∷ xs) = ground (arith, named-append xs)

has_prefix_nil : (s : String) → has_prefix s "" ≡ true
unfolding has_prefix
has_prefix_nil String.[] = refl
has_prefix_nil (String.◌∷◌ c s) = refl

is_abs_slash : (s : String) → is_abs (String.◌∷◌ "/" s) ≡ true
unfolding is_abs has_prefix
is_abs_slash s = has_prefix_nil s

ended_abs : (es : List String) → is_abs (append (join "/" ("" ∷ es)) "/") ≡ true
unfolding join
ended_abs [] = is_abs_slash ""
ended_abs (e ∷ es) =
    rw (string_append.nil, one_slash (join "/" (e ∷ es)), string_append.cons)
      (is_abs_slash (append (join "/" (e ∷ es)) "/"))

named_fits : (xs : List String) → named xs ≤ length xs
named_fits [] = omega arith
named_fits (x ∷ xs) = ground (arith, named_fits xs)

length-all_but_last : (e : String) (es : List String) → length (all_but_last (e ∷ es)) ≡ length es
unfolding all_but_last
length-all_but_last e [] = refl
length-all_but_last e (f ∷ es) = ap suc (length-all_but_last f es)

all_but_last_free :
    (es : List String) → all (free_of b'/') es ≡ true → all (free_of b'/') (all_but_last es) ≡ true
unfolding all_but_last
all_but_last_free [] h = refl
all_but_last_free (e ∷ []) h = refl
all_but_last_free (e ∷ f ∷ es) h =
    let rest = all_but_last_free (f ∷ es) (ground arith) in ground arith

-- The directory of a path that starts with a separator
fields-Rooted :
    (q r : String) (rs : List String) → split b'/' q ≡ "" ∷ r ∷ rs → Rooted (dir q) (length rs)
unfolding dir up_to_last all_but_last
fields-Rooted q r rs h =
    let kept = all_but_last (r ∷ rs) in
    let parent = append (join "/" ("" ∷ kept)) "/" in
    let free : all (free_of b'/') (r ∷ rs) ≡ true =
      let whole = subst (λ l. all (free_of b'/') l ≡ true) h (split-free b'/' q) in ground arith in
    let elements : split b'/' parent ≡ "" ∷ (kept ++ "" ∷ []) =
      split_ended "" kept (all_but_last_free (r ∷ rs) free) in
    let few : named (split b'/' parent) ≤ length rs =
      let short = length-all_but_last r rs in
      let fits = named_fits kept in rw (elements, named-append kept) (omega (arith, short, fits)) in
    let (es, same, plain, fits) = clean-Rooted parent (ended_abs kept) in
    (es, ap (λ l. clean (up_to_last (all_but_last l))) h ∙ same, plain, omega (arith, fits, few))

plain_free : (es : List String) → all is_plain es ≡ true → all (free_of b'/') es ≡ true
plain_free [] h = refl
plain_free (e ∷ es) h = let rest = plain_free es (ground arith) in ground arith

pub split_rooted :
    (e : String) (es : List String)
    → all is_plain (e ∷ es) ≡ true
    → split b'/' (append "/" (join "/" (e ∷ es))) ≡ "" ∷ e ∷ es
unfolding split
split_rooted e es h =
    rw (one_slash (join "/" (e ∷ es)))
      (ap (λ l. "" ∷ l) (split_joined e es (plain_free (e ∷ es) h)))

-- A rooted path is the root, or its directory has one element fewer.
pub Rooted-cases :
    (p : String) (n : ℕ) → Rooted p n → (p ≡ "/") ⊎ ((m : ℕ) × (n ≡ suc m) × Rooted (dir p) m)
unfolding join
Rooted-cases p n ([], same, plain, fits) = inl same
Rooted-cases p zero (e ∷ es, same, plain, fits) = absurd (omega (arith, fits))
Rooted-cases p (suc m) (e ∷ es, same, plain, fits) =
    let (up, at_up, plain_up, fits_up) =
      fields-Rooted p e es (ap (split b'/') same ∙ split_rooted e es plain) in
    inr (m, refl, (up, at_up, plain_up, omega (arith, fits, fits_up)))

-- The directory of a rooted path is rooted.
pub dir-Rooted : (p : String) → is_abs p ≡ true → Rooted (dir p) (length (split b'/' p))
unfolding is_abs has_prefix split
dir-Rooted String.[] h = absurd (ground arith)
dir-Rooted (String.◌∷◌ c s) h =
    let at_slash : eqb (code c) b'/' ≡ true = ground arith in
    let (r, rs, fields) = split-cons b'/' s in
    let whole : split b'/' (String.◌∷◌ c s) ≡ "" ∷ r ∷ rs = rw at_slash (ap (λ l. "" ∷ l) fields) in
    let (up, at_up, plain_up, fits_up) = fields-Rooted (String.◌∷◌ c s) r rs whole in
    (up, at_up, plain_up, rw whole (omega (arith, fits_up)))
