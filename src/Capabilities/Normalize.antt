-- ===== src/Capabilities/Normalize.antt =====
-- capabilities.go: `Normalize`, `Split`, `RemoveDuplicated` and `normalize`.
mod Examples
pub mod Dedup
pub mod Names
use apptainer.Prelude.{
  ℕ, zero, suc, String, List, [], ◌∷◌, ◌++◌, Bool, true, false, not, map, length, ◌==◌,
  if◌then◌else◌, trim_space, to_upper, has_prefix, append, split,
}
use apptainer.Capabilities.Table.{known}

-- The part of the slice behind `j`, after the last element was put at `j` and the slice was cut by
-- one: the last element comes to the front, unless `j` was the last index itself.
abbrev last_to_front : String → List String → List String
last_to_front y [] = y ∷ []
last_to_front y (z ∷ zs) = elim (last_to_front z zs) [ [] ↦ y ∷ [] | l ∷ r ↦ l ∷ y ∷ r ]

pub refill : List String → List String
refill [] = []
refill (y ∷ ys) = last_to_front y ys

-- The loop over `j`. Its slice is `caps[j:]`: what stands before `j` does not change. The fuel
-- bounds the elements that are left, which every round lowers by one.
pub drop_equal : ℕ → String → List String → List String
unfolding refill
drop_equal zero x rest = rest
drop_equal (suc f) x [] = []
drop_equal (suc f) x (y ∷ ys) = elim (x == y) [
  | true ↦ drop_equal f x (refill ys)
  | false ↦ y ∷ drop_equal f x ys
]

-- The loop over `i`, on `caps[i:]`.
pub dedup : ℕ → List String → List String
unfolding drop_equal
dedup zero caps = caps
dedup (suc f) [] = []
dedup (suc f) (x ∷ rest) = x ∷ dedup f (drop_equal (length rest) x rest)

unfoldable pub remove_duplicated : List String → List String
unfolding dedup
remove_duplicated caps = dedup (length caps) caps

unfoldable pub normal_name : String → String
normal_name s =
    let name = to_upper (trim_space s) in
    if has_prefix name "CAP_" then name else append "CAP_" name

-- `normalize`; the source writes the names into the slice that it was given.
unfoldable pub normal_names : List String → List String
normal_names = map normal_name

abbrev pub cap_all : String
cap_all = "CAP_ALL"

-- The loop of `Normalize`. `order` is the order in which the runtime ranges over the keys of
-- `Map`; `break` drops the rest.
pub sort_out : List String → List String → List String → List String → List String × List String
sort_out order included excluded [] = (included, excluded)
sort_out order included excluded (c ∷ caps) =
    let ok = known c in
    let rest =
      sort_out order (if ok then included ++ c ∷ [] else included)
        (if ok then excluded else excluded ++ c ∷ []) caps in
    if c == cap_all then (order, []) else rest

unfoldable pub normalize : List String → List String → List String × List String
unfolding sort_out
normalize order caps =
    let (included, excluded) = sort_out order [] [] (normal_names caps) in
    (remove_duplicated included, remove_duplicated excluded)

-- `Split`
unfoldable pub split_caps : List String → String → List String × List String
split_caps order caps = if caps == "" then ([], []) else normalize order (split b',' caps)
