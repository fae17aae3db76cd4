-- ===== src/Fakeroot/Entry.antt =====
-- Entries of a subuid or subgid file: `Entry`, the constants and `parseEntry` of fakeroot.go. The
-- user database is an argument.
mod Examples
pub mod Marks
pub mod Lines
use Prim.Native.Char.{Char, code}
use Prim.Native.String.{◌∷◌}
use apptainer.Prelude.{
  ℕ, ◌-◌, ◌^◌, String, List, [], Bool, true, false, ◌||◌, Option, none, some, eqb, if◌then◌else◌,
  split,
}
use apptainer.Fakeroot.Decimal.{parse_uint32}
use mathlib.Core.List

abbrev pub valid_range_count : ℕ
valid_range_count = 65536

abbrev pub start_max : ℕ
start_max = 4294967296 - 131072

abbrev pub start_min : ℕ
start_min = 65536

-- `^uint32(0)`
abbrev pub max_uid : ℕ
max_uid = 2 ^ 32 - 1

pub record Entry : Type 0 where
  pub line : String
  pub uid : ℕ
  pub start : ℕ
  pub count : ℕ
  pub disabled : Bool
  pub invalid : Bool

-- user.User, as far as it is read
pub record User : Type 0 where
  pub name : String
  pub uid : ℕ

-- `getUserFn`; `none` is its error.
abbrev pub UserFn : Type 0
UserFn = String → Option User

-- What reading a line does: it adds no entry, adds one, or panics on an index out of range.
pub data Parsed : Type 0 where
  ignored panicked : Parsed
  added : Entry → Parsed

abbrev or_zero : Option ℕ → ℕ
or_zero none = 0
or_zero (some n) = n

abbrev failed : Option ℕ → Bool
failed none = true
failed (some n) = false

abbrev failed_or_zero : Option ℕ → Bool
failed_or_zero none = true
failed_or_zero (some n) = eqb n 0

abbrev uid_or_max : Option User → ℕ
uid_or_max none = max_uid
uid_or_max (some u) = u.uid

abbrev or_user : UserFn → String → Option ℕ → ℕ
or_user get_user username none = uid_or_max (get_user username)
or_user get_user username (some uid) = uid

abbrev uid_of : UserFn → String → ℕ
uid_of get_user username = or_user get_user username (parse_uint32 username)

abbrev entry_of : UserFn → String → String → Bool → Option ℕ → Option ℕ → Entry
entry_of get_user line username disabled start count = record {
  line = line;
  uid = uid_of get_user username;
  start = or_zero start;
  count = or_zero count;
  disabled = disabled;
  invalid = failed start || failed_or_zero count;
}

-- From `username[0]` on.
abbrev with_name : UserFn → String → String → Option ℕ → Option ℕ → Parsed
with_name get_user line String.[] start count = panicked
with_name get_user line (String.◌∷◌ c s) start count =
    if eqb (code c) b'!'
    then added (entry_of get_user line s true start count)
    else added (entry_of get_user line (String.◌∷◌ c s) false start count)

-- Three fields at least; what stands behind the third is not looked at.
abbrev of_fields : UserFn → String → List String → Parsed
of_fields get_user line (List.◌∷◌ username (List.◌∷◌ start (List.◌∷◌ count rest))) =
    with_name get_user line username (parse_uint32 start) (parse_uint32 count)
of_fields get_user line _ = ignored

unfoldable pub parse_entry : UserFn → String → Parsed
parse_entry get_user line = of_fields get_user line (split b':' line)
