-- ===== src/Capabilities/Normalize/Dedup.antt =====
-- The set and the repetitions in the result of `RemoveDuplicated`.
use apptainer.Prelude.{
  ℕ, zero, suc, ◌≤◌, String, List, [], ◌∷◌, true, false, not, ◌&&◌, ◌||◌, ◌==◌, eq_iff, length,
  contains, distinct, arith, ◌≡◌, refl, Bool-cases, inl, inr, List-cases,
}
use apptainer.Capabilities.Normalize.{last_to_front, refill, drop_equal, dedup, remove_duplicated}

contains-last_to_front :
    (y : String) (ys : List String) (a : String)
    → contains (last_to_front y ys) a ≡ (y == a || contains ys a)
contains-last_to_front y [] a = refl
contains-last_to_front y (z ∷ zs) a = elim (List-cases (last_to_front z zs)) [
  | inl e ↦ ground (arith, e, contains-last_to_front z zs a)
  | inr (l, r, e) ↦ ground (arith, e, contains-last_to_front z zs a)
]

length-last_to_front :
    (y : String) (ys : List String) → length (last_to_front y ys) ≡ suc (length ys)
length-last_to_front y [] = refl
length-last_to_front y (z ∷ zs) = elim (List-cases (last_to_front z zs)) [
  | inl e ↦ ground (arith, e, length-last_to_front z zs)
  | inr (l, r, e) ↦ ground (arith, e, length-last_to_front z zs)
]

contains-refill : (ys : List String) (a : String) → contains (refill ys) a ≡ contains ys a
unfolding refill
contains-refill [] a = refl
contains-refill (y ∷ ys) a = contains-last_to_front y ys a

length-refill : (ys : List String) → length (refill ys) ≡ length ys
unfolding refill
length-refill [] = refl
length-refill (y ∷ ys) = length-last_to_front y ys

contains-drop_equal :
    (f : ℕ) (x : String) (rest : List String) (a : String)
    → length rest ≤ f
    → contains (drop_equal f x rest) a ≡ (contains rest a && not (x == a))
unfolding drop_equal
contains-drop_equal zero x [] a h = refl
contains-drop_equal zero x (y ∷ ys) a h = absurd (omega arith)
contains-drop_equal (suc f) x [] a h = refl
contains-drop_equal (suc f) x (y ∷ ys) a h = elim (Bool-cases (x == y)) [
  | inl e ↦ ground (
    arith,
    e,
    eq_iff x y,
    eq_iff x a,
    contains-drop_equal f x (refill ys) a,
    contains-refill ys a,
    length-refill ys,
  )
  | inr e ↦ ground (arith, e, eq_iff x y, eq_iff x a, eq_iff y a, contains-drop_equal f x ys a)
]

length-drop_equal :
    (f : ℕ) (x : String) (rest : List String) → length (drop_equal f x rest) ≤ length rest
unfolding drop_equal
length-drop_equal zero x rest = omega arith
length-drop_equal (suc f) x [] = omega arith
length-drop_equal (suc f) x (y ∷ ys) =
    ground (arith, length-drop_equal f x (refill ys), length-drop_equal f x ys, length-refill ys)

contains-dedup :
    (f : ℕ) (caps : List String) (a : String)
    → length caps ≤ f
    → contains (dedup f caps) a ≡ contains caps a
unfolding dedup
contains-dedup zero caps a h = refl
contains-dedup (suc f) [] a h = refl
contains-dedup (suc f) (x ∷ rest) a h = ground (
  arith,
  contains-dedup f (drop_equal (length rest) x rest) a,
  length-drop_equal (length rest) x rest,
  contains-drop_equal (length rest) x rest a,
)

distinct-dedup : (f : ℕ) (caps : List String) → length caps ≤ f → distinct (dedup f caps) ≡ true
unfolding dedup
distinct-dedup zero [] h = refl
distinct-dedup zero (y ∷ ys) h = absurd (omega arith)
distinct-dedup (suc f) [] h = refl
distinct-dedup (suc f) (x ∷ rest) h = ground (
  arith,
  distinct-dedup f (drop_equal (length rest) x rest),
  eq_iff x x,
  contains-dedup f (drop_equal (length rest) x rest) x,
  length-drop_equal (length rest) x rest,
  contains-drop_equal (length rest) x rest x,
)

drop_equal_absent :
    (f : ℕ) (x : String) (rest : List String) → contains rest x ≡ false → drop_equal f x rest ≡ rest
unfolding drop_equal
drop_equal_absent zero x rest h = refl
drop_equal_absent (suc f) x [] h = refl
drop_equal_absent (suc f) x (y ∷ ys) h =
    ground (arith, eq_iff x y, eq_iff y x, drop_equal_absent f x ys)

dedup-distinct : (f : ℕ) (caps : List String) → distinct caps ≡ true → dedup f caps ≡ caps
unfolding dedup
dedup-distinct zero caps h = refl
dedup-distinct (suc f) [] h = refl
dedup-distinct (suc f) (x ∷ rest) h =
    ground (arith, drop_equal_absent (length rest) x rest, dedup-distinct f rest)

-- The result holds the texts of the list and no others, and none twice.
pub remove_duplicated_lem :
    (caps : List String)
    → ((a : String) → contains (remove_duplicated caps) a ≡ contains caps a)
      × (distinct (remove_duplicated caps) ≡ true)
unfolding remove_duplicated
remove_duplicated_lem caps = (
  λ a. contains-dedup (length caps) caps a (omega arith),
  distinct-dedup (length caps) caps (omega arith),
)

-- A list with no repetition is returned as it is, in its order.
pub remove_duplicated-distinct :
    (caps : List String) → distinct caps ≡ true → remove_duplicated caps ≡ caps
unfolding remove_duplicated
remove_duplicated-distinct caps h = dedup-distinct (length caps) caps h
