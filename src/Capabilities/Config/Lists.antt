-- ===== src/Capabilities/Config/Lists.antt =====
-- What the loops of config.go do to one list of capabilities, by membership.
use apptainer.Prelude.{
  String, List, [], ◌∷◌, ◌++◌, Option, none, some, true, false, not, ◌&&◌, ◌==◌, eq_iff, arith, ◌≡◌,
  refl, contains, contains-append, distinct, Option-cases, inl, inr,
}
use apptainer.Capabilities.Config.{present, cut_last, is_assigned}

pub present-contains : (l : List String) (a : String) → present l a ≡ contains l a
unfolding present
present-contains [] a = refl
present-contains (x ∷ l) a = ground (arith, present-contains l a)

pub is_assigned-contains : (l : List String) (a : String) → is_assigned l a ≡ contains l a
unfolding is_assigned
is_assigned-contains [] a = refl
is_assigned-contains (x ∷ l) a = ground (arith, is_assigned-contains l a)

abbrev pub or_same : List String → Option (List String) → List String
or_same l none = l
or_same l (some r) = r

cut_last-none : (l : List String) (a : String) → cut_last l a ≡ none → contains l a ≡ false
unfolding cut_last
cut_last-none [] a h = refl
cut_last-none (x ∷ l) a h = ground (arith, cut_last-none l a)

cut_last-some :
    (l : List String) (a : String) {r : List String} → cut_last l a ≡ some r → contains l a ≡ true
unfolding cut_last
cut_last-some [] a h = cc
cut_last-some (x ∷ l) a h = elim (Option-cases (cut_last l a)) [
  | inl e ↦ ground (arith, e)
  | inr (r, e) ↦ ground (arith, e, cut_last-some l a e)
]

-- In a list with no repetition, what is cut out is gone, and the rest stays.
pub contains-cut_last :
    (l : List String) (b a : String)
    → distinct l ≡ true
    → contains (or_same l (cut_last l b)) a ≡ (contains l a && not (b == a))
unfolding cut_last
contains-cut_last [] b a h = refl
contains-cut_last (x ∷ l) b a h = elim (Option-cases (cut_last l b)) [
  | inl e ↦ ground (arith, e, eq_iff x a, eq_iff x b, eq_iff b a, cut_last-none l b)
  | inr (r, e) ↦
      ground
        (arith, e, eq_iff x a, eq_iff x b, eq_iff b a, contains-cut_last l b a, cut_last-some l b e)
]

-- A list with no repetition keeps none.
pub distinct-cut_last :
    (l : List String) (b : String) → distinct l ≡ true → distinct (or_same l (cut_last l b)) ≡ true
unfolding cut_last
distinct-cut_last [] b h = refl
distinct-cut_last (x ∷ l) b h = elim (Option-cases (cut_last l b)) [
  | inl e ↦ ground (arith, e)
  | inr (r, e) ↦ ground (arith, e, distinct-cut_last l b, contains-cut_last l b x)
]

pub distinct-concat :
    (l : List String) (a : String)
    → distinct l ≡ true
    → contains l a ≡ false
    → distinct (l ++ a ∷ []) ≡ true
distinct-concat [] a d h = refl
distinct-concat (x ∷ l) a d h =
    ground (arith, distinct-concat l a, contains-append l (a ∷ []) x, eq_iff x a, eq_iff a x)
