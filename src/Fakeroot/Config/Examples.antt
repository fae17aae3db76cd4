-- ===== src/Fakeroot/Config/Examples.antt =====
-- Runs of the operations on a config.
use Prim.Native.Char.{code}
use apptainer.Prelude.{
  ◌==◌, ℕ, zero, suc, ◌+◌, ◌-◌, ◌≤◌, String, List, [], ◌∷◌, true, false, none, some, eqb, all, ◌≡◌,
  ◌≢◌, refl, ap, arith, ◌⊎◌, if◌then◌else◌,
}
use apptainer.Fakeroot.Entry.{Entry, User, UserFn, max_uid, start_max}
use apptainer.Fakeroot.Entry.Marks.{IsUserDatabase, uid_fits}
use apptainer.Fakeroot.Entry.Lines.{line_of, parse_entry-line_of}
use apptainer.Fakeroot.Lookup.{
  ranges, SubidFn, Config, get_user_entry, get_mapping_entries, own_entries, read_subid, choose,
  scan,
}
use apptainer.Fakeroot.Config.{
  ok, err, no_range, is_available, find_range, add_range, add_user, rounds, read_lines, close,
}
use apptainer.Fakeroot.Config.Ranges.{with_range, Refuses, add_user-Refuses}
use apptainer.Fakeroot.Config.Overlaps.{is_apart, add_user_apart}
use apptainer.Fakeroot.Config.Commands.{add, run, run-read_lines}

abbrev alice : User
alice = record { name = "alice"; uid = 1000 }

-- Every name that begins with an `a` is alice's.
abbrev database : UserFn
database String.[] = none
database (String.◌∷◌ c s) = if eqb (code c) 97 then some alice else none

abbrev no_ranges : SubidFn
no_ranges is_user owner = ranges []

abbrev taken : ℕ → ℕ → Entry
taken start count = record {
  line = line_of 7 start count;
  uid = 7;
  start = start;
  count = count;
  disabled = false;
  invalid = false;
}

abbrev config : List Entry → Config
config es = record {
  entries = es;
  file_name = "/etc/subuid";
  read_only = false;
  require_update = false;
}

abbrev after : Config
after = record (config []) {
  entries =
      record {
        line = line_of 1000 start_max 65536;
        uid = 1000;
        start = start_max;
        count = 65536;
        disabled = false;
        invalid = false;
      }
      ∷ [];
  require_update = true;
}

add_to_empty : add_user no_ranges database (config []) "alice" ≡ ok after
unfolding add_user get_user_entry get_mapping_entries own_entries read_subid choose scan find_range
    is_available
add_to_empty = refl

-- A range that covers every candidate.
abbrev full : Entry
full = taken 0 4294967295

find_range-full : (f i : ℕ) → i ≤ start_max → find_range f (full ∷ []) i ≡ none
unfolding find_range is_available
find_range-full zero i h = refl
find_range-full (suc f) i h = ground (arith, find_range-full f (i - 65536))

refused : add_user no_ranges database (config (full ∷ [])) "alice" ≡ err no_range
unfolding add_user get_user_entry get_mapping_entries own_entries read_subid choose scan
refused = ap (add_range (config (full ∷ [])) alice) (find_range-full rounds start_max (omega arith))

add_user-Refuses_example : Refuses (database "alice") (config (full ∷ [])) 131072
add_user-Refuses_example =
    add_user-Refuses no_ranges database (config (full ∷ [])) "alice" 131072 refused (omega arith)
      (omega arith) refl

abbrev inside : Entry
inside = taken (start_max + 1) 65536

-- libsubid reads the same file: the range of the user with the uid 7.
abbrev others_range : SubidFn
others_range is_user owner =
    if owner == "7" then ranges ((inside.start, inside.count) ∷ []) else ranges []

database-IsUserDatabase : IsUserDatabase database
database-IsUserDatabase = record {
  uids_fit = fits;
  no_empty = refl;
  no_mark = λ c s h. ground arith;
}
  where
    fits : (name : String) → uid_fits (database name) ≡ true
    fits String.[] = refl
    fits (String.◌∷◌ c s) = ground arith

abbrev other : Entry
other = taken 65536 65536

abbrev others_lines : List String
others_lines = other.line ∷ []

others_read : read_lines database others_lines ≡ some (other ∷ [])
unfolding read_lines
others_read =
    rw
      (parse_entry-line_of database 7 65536 65536 (omega arith) (omega arith) (omega arith)
        (omega arith))
      refl

abbrev both : Config
both = record after { entries = other ∷ after.entries }

add_to_other : run no_ranges database (add "alice") (config (other ∷ [])) ≡ ok both
unfolding run add_user get_user_entry get_mapping_entries own_entries read_subid choose scan
    find_range is_available
add_to_other = refl

other_fits : other.uid ≢ max_uid
other_fits h = omega arith

run-read_lines_example :
    read_lines database (other.line ∷ line_of 1000 start_max 65536 ∷ []) ≡ some both.entries
unfolding close
run-read_lines_example =
    run-read_lines no_ranges database (add "alice") (config (other ∷ [])) others_lines
      database-IsUserDatabase (other_fits, tt) others_read add_to_other refl

-- The first candidate is another user's.
abbrev last_taken : Entry
last_taken = taken start_max 65536

abbrev below_it : Config
below_it = with_range (config (last_taken ∷ [])) alice (start_max - 65536)

add_below : add_user no_ranges database (config (last_taken ∷ [])) "alice" ≡ ok below_it
unfolding add_user get_user_entry get_mapping_entries own_entries read_subid choose scan find_range
    is_available
add_below = refl

add_user_apart_example :
    (config (last_taken ∷ []) ≡ below_it)
    ⊎ ((u : User) × (k : ℕ) × (database "alice" ≡ some u)
        × (below_it ≡ with_range (config (last_taken ∷ [])) u k)
        × (all (is_apart k) (last_taken ∷ []) ≡ true))
add_user_apart_example =
    add_user_apart no_ranges database (config (last_taken ∷ [])) "alice" refl add_below
