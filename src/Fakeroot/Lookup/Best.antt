-- ===== src/Fakeroot/Lookup/Best.antt =====
-- Which entry a user gets.
use apptainer.Prelude.{
  ℕ, ◌+◌, ◌≤◌, List, [], ◌∷◌, ◌++◌, Bool, true, false, not, ◌&&◌, ◌||◌, eqb, ltb, leb, any, all,
  ◌≡◌, refl, ◌∙◌, arith, Bool-cases, ◌⊎◌, inl, inr, if◌then◌else◌, select, sym, All,
}
use mathlib.Core.Path.{subst}
use mathlib.Core.List.{append-nil, append_assoc}
use apptainer.Fakeroot.Entry.{valid_range_count}
use apptainer.Fakeroot.Lookup.{
  Item, Scan, exact, others, scan, largest_from, Lookup, found, range_too_low, no_mapping, choose,
}

abbrev pub usable : Item → Bool
usable x = not x.entry.invalid && leb valid_range_count x.entry.count

abbrev pub fits : Item → Bool
fits x = not x.entry.invalid && eqb x.entry.count valid_range_count

abbrev pub is_small : Item → Bool
is_small x = not x.entry.invalid && ltb x.entry.count valid_range_count

abbrev is_large : Item → Bool
is_large x = not x.entry.invalid && ltb valid_range_count x.entry.count

-- No range of the list is larger than the item's.
abbrev pub tops : Item → List Item → Bool
tops best xs = all (λ x. x.entry.invalid || leb x.entry.count best.entry.count) xs

-- How the answer compares to the list
abbrev Measures : List Item → Lookup → Type 0
Measures xs (found x) =
    (usable x ≡ true) × ((fits x ≡ true) ⊎ ((any fits xs ≡ false) × (tops x xs ≡ true)))
Measures xs range_too_low = (any usable xs ≡ false) × (any is_small xs ≡ true)
Measures xs no_mapping = all (λ x. x.entry.invalid) xs ≡ true
Measures xs _ = ⊥

largest_from_lem :
    (best : Item) (xs : List Item)
    → is_large best ≡ true
    → all is_large xs ≡ true
    → (is_large (largest_from best xs) ≡ true)
      × (best.entry.count ≤ (largest_from best xs).entry.count)
      × (tops (largest_from best xs) xs ≡ true)
unfolding largest_from
largest_from_lem best [] h k = (h, omega arith, refl)
largest_from_lem best (x ∷ xs) h k =
    let best' = if ltb best.entry.count x.entry.count then x else best in
    let now : (is_large best' ≡ true)
        × (best.entry.count ≤ best'.entry.count)
        × (x.entry.count ≤ best'.entry.count) =
      ground arith in
    let (large, above, top) = largest_from_lem best' xs now.0 (ground arith) in
    (large, omega arith, ground (arith, top))

add_if :
    (b : Bool) (x : Item) (large rest : List Item)
    → (if b then large ++ x ∷ [] else large) ++ rest ≡ large ++ (if b then x ∷ rest else rest)
add_if true x large rest = append_assoc large (x ∷ []) rest
add_if false x large rest = refl

abbrev Scans : List Item → List Item → ℕ → Scan → Type 0
Scans xs large small (exact x) = fits x ≡ true
Scans xs large small (others l s) =
    (any fits xs ≡ false)
    × (l ≡ large ++ select is_large xs)
    × (ltb 0 s ≡ (ltb 0 small || any is_small xs))

scan-Scans : (xs large : List Item) (small : ℕ) → Scans xs large small (scan xs large small)
unfolding scan
scan-Scans [] large small = (refl, sym (append-nil large), ground arith)
scan-Scans (x ∷ xs) large small = elim (Bool-cases (fits x)) [
  | inl e ↦ rw e e
  | inr e ↦ rw e (weaken e (scan xs large' small') (scan-Scans xs large' small'))
]
  where
    large' : List Item
    large' = if is_large x then large ++ x ∷ [] else large

    small' : ℕ
    small' = if is_small x then small + 1 else small

    weaken : fits x ≡ false → (r : Scan) → Scans xs large' small' r → Scans (x ∷ xs) large small r
    weaken no_fit (exact y) h = h
    weaken no_fit (others l s) h =
        (ground arith, h.1 ∙ add_if (is_large x) x large (select is_large xs), ground arith)

all-select : (p : Item → Bool) (xs : List Item) → all p (select p xs) ≡ true
all-select p [] = refl
all-select p (x ∷ xs) = ground (arith, all-select p xs)

tops-select :
    (best : Item) (xs : List Item)
    → is_large best ≡ true
    → tops best (select is_large xs) ≡ true
    → tops best xs ≡ true
tops-select best [] h k = refl
tops-select best (x ∷ xs) h k = ground (arith, tops-select best xs)

no_large :
    (xs : List Item)
    → [] ≡ select is_large xs
    → any fits xs ≡ false
    → (any usable xs ≡ false) × ((any is_small xs ≡ false) → all (λ x. x.entry.invalid) xs ≡ true)
no_large [] h k = (refl, λ _. refl)
no_large (x ∷ xs) h k = ground (arith, no_large xs)

choose-scan : (xs : List Item) (r : Scan) → Scans xs [] 0 r → Measures xs (choose r)
unfolding choose
choose-scan xs (exact x) h = (ground arith, inl h)
choose-scan xs (others (y ∷ ys) small) (no_fit, l, s) =
    let all_large : all is_large (y ∷ ys) ≡ true =
      subst (λ z. all is_large z ≡ true) (sym l) (all-select is_large xs) in
    let (large, above, top) = largest_from_lem y ys (ground arith) (ground arith) in
    let tops_all : tops (largest_from y ys) (y ∷ ys) ≡ true = ground (arith, top) in
    (
      ground arith,
      inr (
        no_fit,
        tops-select (largest_from y ys) xs large
            (subst (λ z. tops (largest_from y ys) z ≡ true) l tops_all),
      ),
    )
choose-scan xs (others [] small) (no_fit, l, s) = elim (Bool-cases (ltb 0 small)) [
  | inl e ↦ rw e ((no_large xs l no_fit).0, ground arith)
  | inr e ↦ rw e ((no_large xs l no_fit).1 (ground arith))
]

-- What all the entries have, the chosen one has.
module _ (P : Item → Type 0) where
  abbrev Passes : Scan → Type 0
  Passes (exact x) = P x
  Passes (others l s) = All P l

  All-append_one : (xs : List Item) (x : Item) → All P xs → P x → All P (xs ++ x ∷ [])
  All-append_one [] x h k = (k, tt)
  All-append_one (y ∷ ys) x (h, hs) k = (h, All-append_one ys x hs k)

  All-if :
      (b : Bool) (large : List Item) (x : Item)
      → All P large
      → P x
      → All P (if b then large ++ x ∷ [] else large)
  All-if true large x h k = All-append_one large x h k
  All-if false large x h k = h

  scan-Passes :
      (xs large : List Item) (small : ℕ) → All P xs → All P large → Passes (scan xs large small)
  unfolding scan
  scan-Passes [] large small h k = k
  scan-Passes (x ∷ xs) large small (h, hs) k = elim (Bool-cases (fits x)) [
    | inl e ↦ rw e h
    | inr e ↦ rw e (scan-Passes xs _ _ hs (All-if (is_large x) large x k h))
  ]

  largest_from-Passes :
      (best : Item) (xs : List Item) → P best → All P xs → P (largest_from best xs)
  unfolding largest_from
  largest_from-Passes best [] h k = h
  largest_from-Passes best (x ∷ xs) h (k, ks) =
      let b = ltb best.entry.count x.entry.count in
      largest_from-Passes (if b then x else best) xs (pick b) ks
    where
      pick : (b : Bool) → P (if b then x else best)
      pick true = k
      pick false = h

  chosen-Passes : (r : Scan) {x : Item} → Passes r → choose r ≡ found x → P x
  unfolding choose
  chosen-Passes (exact y) {x} h e = let same : y ≡ x = cc in subst P same h
  chosen-Passes (others (y ∷ ys) small) {x} (h, hs) e =
      let same : largest_from y ys ≡ x = cc in subst P same (largest_from-Passes y ys h hs)
  chosen-Passes (others [] small) {x} h e = absurd (nothing (ltb 0 small) e)
    where
      nothing : (b : Bool) → (if b then range_too_low else no_mapping) ≡ found x → ⊥
      nothing true q = cc
      nothing false q = cc

-- The item is one of the list.
abbrev pub Among : Item → List Item → Type 0
Among x [] = ⊥
Among x (y ∷ ys) = (x ≡ y) ⊎ Among x ys

-- What `choose` makes of the scan of a list.
abbrev pub Answers : List Item → Lookup → Type 0
Answers xs (found x) =
    Among x xs
    × (usable x ≡ true)
    × ((fits x ≡ true) ⊎ ((any fits xs ≡ false) × (tops x xs ≡ true)))
Answers xs range_too_low = (any usable xs ≡ false) × (any is_small xs ≡ true)
Answers xs no_mapping = all (λ x. x.entry.invalid) xs ≡ true
Answers xs _ = ⊥

All-mono : (P Q : Item → Type 0) (xs : List Item) → ((x : Item) → P x → Q x) → All P xs → All Q xs
All-mono P Q [] f h = tt
All-mono P Q (x ∷ xs) f (h, hs) = (f x h, All-mono P Q xs f hs)

All-Among : (xs : List Item) → All (λ x. Among x xs) xs
All-Among [] = tt
All-Among (x ∷ xs) =
    (inl refl, All-mono (λ y. Among y xs) (λ y. Among y (x ∷ xs)) xs (λ y h. inr h) (All-Among xs))

with_Among :
    (xs : List Item) (l : Lookup)
    → ((x : Item) → l ≡ found x → Among x xs)
    → Measures xs l
    → Answers xs l
with_Among xs (found x) f (h, k) = (f x refl, h, k)
with_Among xs range_too_low f h = h
with_Among xs no_mapping f h = h
with_Among xs Lookup.no_user f h = h
with_Among xs Lookup.lookup_failed f h = h

-- Of the entries that belong to the user: a valid range of 65536 ids if there is one, and else the
-- largest valid range, which has more; failing both, the answer tells whether there are valid
-- ranges, all of them smaller.
pub choose-Answers : (xs : List Item) → Answers xs (choose (scan xs [] 0))
choose-Answers xs =
    with_Among xs (choose (scan xs [] 0))
      (λ x e.
        chosen-Passes (λ y. Among y xs) (scan xs [] 0)
          (scan-Passes (λ y. Among y xs) xs [] 0 (All-Among xs) tt) e)
      (choose-scan xs (scan xs [] 0) (scan-Scans xs [] 0))
