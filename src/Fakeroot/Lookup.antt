-- ===== src/Fakeroot/Lookup.antt =====
-- `GetUserEntry` of fakeroot.go with `getMappingEntries` and `readSubid` of
-- idtools_supported.go. The source's pointer to an entry is either one into the config's list or
-- one to an entry that was made for this call; `Ref` tells them apart.
mod Examples
pub mod Best
use apptainer.Prelude.{
  ℕ, ◌+◌, ◌%◌, ◌^◌, String, List, [], ◌∷◌, ◌++◌, map, Bool, true, false, not, ◌&&◌, Option, none,
  some, eqb, ltb, ◌==◌, if◌then◌else◌, has_infix,
}
use apptainer.Fakeroot.Decimal.{show}
use apptainer.Fakeroot.Entry.{Entry, User, UserFn, valid_range_count}
use apptainer.Fakeroot.Entry.Lines.{line_of}

pub data Ref : Type 0 where
  listed : ℕ → Ref
  made : Ref

pub record Item : Type 0 where
  pub ref : Ref
  pub entry : Entry

-- What libsubid answers for an owner: an error, or the ranges with start and count. The first
-- argument tells users' ranges from groups'.
pub data Ranges : Type 0 where
  range_error : Ranges
  ranges : List (ℕ × ℕ) → Ranges

abbrev pub SubidFn : Type 0
SubidFn = Bool → String → Ranges

-- `Config`, without the open file behind its name
pub record Config : Type 0 where
  pub entries : List Entry
  pub file_name : String
  pub read_only : Bool
  pub require_update : Bool

-- The second answer where the first one is an error or empty.
abbrev or_second : Ranges → Ranges → Ranges
or_second (ranges (r ∷ rs)) second = ranges (r ∷ rs)
or_second _ second = second

abbrev item_of : ℕ → ℕ × ℕ → Item
item_of uid (start, count) = record {
  ref = made;
  entry = record {
    line = line_of uid start count;
    uid = uid;
    start = start % 2 ^ 32;
    count = count % 2 ^ 32;
    disabled = false;
    invalid = false;
  };
}

abbrev items_of : ℕ → Ranges → Option (List Item)
items_of uid range_error = none
items_of uid (ranges rs) = some (map (item_of uid) rs)

unfoldable pub read_subid : SubidFn → User → Bool → Option (List Item)
read_subid subid u is_user =
    if u.name == "ALL"
    then none
    else items_of u.uid (or_second (subid is_user u.name) (subid is_user (show u.uid)))

-- The entries of the uid, with their places from `i` on.
unfoldable pub own_entries : ℕ → List Entry → ℕ → List Item
own_entries i [] uid = []
own_entries i (e ∷ es) uid =
    let rest = own_entries (i + 1) es uid in
    if eqb e.uid uid then record { ref = listed i; entry = e } ∷ rest else rest

abbrev behind : List Item → Option (List Item) → Option (List Item)
behind own none = none
behind own (some subs) = some (own ++ subs)

unfoldable pub get_mapping_entries : SubidFn → Config → User → Option (List Item)
unfolding read_subid own_entries has_infix
get_mapping_entries subid c u =
    behind (own_entries 0 c.entries u.uid) (read_subid subid u (not (has_infix c.file_name "gid")))

-- `getMappingEntries` of idtools_unsupported.go, the build without libsubid
unfoldable pub get_mapping_entries_unsupported : Config → User → Option (List Item)
unfolding own_entries
get_mapping_entries_unsupported c u = some (own_entries 0 c.entries u.uid)

-- The first loop stops at a range of the valid size, or leaves the larger ones and the number of
-- the smaller ones.
pub data Scan : Type 0 where
  exact : Item → Scan
  others : List Item → ℕ → Scan

unfoldable pub scan : List Item → List Item → ℕ → Scan
scan [] large small = others large small
scan (x ∷ xs) large small =
    let e = x.entry in
    let rest =
      scan xs (if not e.invalid && ltb valid_range_count e.count then large ++ x ∷ [] else large)
        (if not e.invalid && ltb e.count valid_range_count then small + 1 else small) in
    if not e.invalid && eqb e.count valid_range_count then exact x else rest

-- The second loop: a later range replaces the largest so far only if it is larger.
pub largest_from : Item → List Item → Item
largest_from best [] = best
largest_from best (x ∷ xs) =
    largest_from (if ltb best.entry.count x.entry.count then x else best) xs

pub data Lookup : Type 0 where
  found : Item → Lookup
  no_user lookup_failed range_too_low no_mapping : Lookup

unfoldable pub choose : Scan → Lookup
unfolding largest_from
choose (exact x) = found x
choose (others (x ∷ xs) small) = found (largest_from x xs)
choose (others [] small) = if ltb 0 small then range_too_low else no_mapping

abbrev among : Option (List Item) → Lookup
among none = lookup_failed
among (some items) = choose (scan items [] 0)

abbrev pub entry_of_user : SubidFn → Config → Option User → Lookup
entry_of_user subid c none = no_user
entry_of_user subid c (some u) = among (get_mapping_entries subid c u)

unfoldable pub get_user_entry : SubidFn → UserFn → Config → String → Lookup
unfolding scan choose get_mapping_entries
get_user_entry subid get_user c username = entry_of_user subid c (get_user username)
