-- ===== src/Mount/System/Sorting.antt =====
-- The sort of a tag's points.
use apptainer.Prelude.{
  ℕ, List, [], ◌∷◌, Bool, true, false, not, ◌&&◌, ◌||◌, eqb, ltb, leb, if◌then◌else◌, all, select,
  clean, ◌≡◌, refl, arith,
}
use apptainer.Mount.Points.{Point}
use apptainer.Mount.System.{count_slashes, byte_length, less, insert_point, sort}

abbrev pub depth : Point → ℕ
depth x = count_slashes (clean x.destination)

abbrev pub size : Point → ℕ
size x = byte_length (clean x.destination)

-- No later point is less than an earlier one.
is_sorted : List Point → Bool
unfolding less
is_sorted [] = true
is_sorted (x ∷ xs) = all (λ y. not (less y x)) xs && is_sorted xs

abbrev pub has_key : ℕ → ℕ → Point → Bool
has_key d n x = eqb (depth x) d && eqb (size x) n

less_key :
    (x y : Point)
    → less x y
      ≡ (if eqb (depth x) (depth y) then ltb (size x) (size y) else ltb (depth x) (depth y))
unfolding less
less_key x y = refl

not_less_trans : (x y z : Point) → less y x ≡ false → less z y ≡ false → less z x ≡ false
not_less_trans x y z h k = ground (arith, less_key y x, less_key z y, less_key z x)

less_asym : (x y : Point) → less y x ≡ true → less x y ≡ false
less_asym x y h = ground (arith, less_key y x, less_key x y)

all-insert_point :
    (p : Point → Bool) (x : Point) (ys : List Point)
    → p x ≡ true
    → all p ys ≡ true
    → all p (insert_point x ys) ≡ true
unfolding insert_point
all-insert_point p x [] h k = ground arith
all-insert_point p x (y ∷ ys) h k = ground (arith, all-insert_point p x ys)

all-not-less :
    (x y : Point) (ys : List Point)
    → less y x ≡ false
    → all (λ z. not (less z y)) ys ≡ true
    → all (λ z. not (less z x)) ys ≡ true
all-not-less x y [] h k = refl
all-not-less x y (z ∷ zs) h k = ground (arith, not_less_trans x y z, all-not-less x y zs)

insert_point-sorted :
    (x : Point) (ys : List Point) → is_sorted ys ≡ true → is_sorted (insert_point x ys) ≡ true
unfolding is_sorted insert_point
insert_point-sorted x [] h = refl
insert_point-sorted x (y ∷ ys) h = ground (
  arith,
  less_asym x y,
  all-not-less x y ys,
  insert_point-sorted x ys,
  all-insert_point (λ z. not (less z y)) x ys,
)

select-insert_point :
    (d n : ℕ) (x : Point) (ys : List Point)
    → select (has_key d n) (insert_point x ys)
      ≡ (if has_key d n x then x ∷ select (has_key d n) ys else select (has_key d n) ys)
unfolding insert_point
select-insert_point d n x [] = refl
select-insert_point d n x (y ∷ ys) = ground (arith, less_key y x, select-insert_point d n x ys)

sort-sorted : (xs : List Point) → is_sorted (sort xs) ≡ true
unfolding sort is_sorted
sort-sorted [] = refl
sort-sorted (x ∷ xs) = insert_point-sorted x (sort xs) (sort-sorted xs)

select-sort : (d n : ℕ) (xs : List Point) → select (has_key d n) (sort xs) ≡ select (has_key d n) xs
unfolding sort
select-sort d n [] = refl
select-sort d n (x ∷ xs) = rw (select-insert_point d n x (sort xs), select-sort d n xs) refl

-- A point may stand before another one: its destination is less deep, or as deep and not longer.
abbrev pub in_order : Point → Point → Bool
in_order x y = ltb (depth x) (depth y) || (eqb (depth x) (depth y) && leb (size x) (size y))

abbrev pub ordered : List Point → Bool
ordered [] = true
ordered (x ∷ xs) = all (in_order x) xs && ordered xs

all-in_order :
    (x : Point) (xs : List Point) → all (λ y. not (less y x)) xs ≡ true → all (in_order x) xs ≡ true
all-in_order x [] h = refl
all-in_order x (y ∷ ys) h = ground (arith, less_key y x, all-in_order x ys)

is_sorted-ordered : (xs : List Point) → is_sorted xs ≡ true → ordered xs ≡ true
unfolding is_sorted
is_sorted-ordered [] h = refl
is_sorted-ordered (x ∷ xs) h = ground (arith, all-in_order x xs, is_sorted-ordered xs)

-- Sorting mount points puts no point after a deeper one, nor, among those of one depth, after a longer
-- one, and among the points of one depth and one length it keeps all points and their order.
pub sort-IsSorted :
    (xs : List Point)
    → (ordered (sort xs) ≡ true)
      × ((d n : ℕ) → select (has_key d n) (sort xs) ≡ select (has_key d n) xs)
sort-IsSorted xs = (is_sorted-ordered (sort xs) (sort-sorted xs), λ d n. select-sort d n xs)
