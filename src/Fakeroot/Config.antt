-- ===== src/Fakeroot/Config.antt =====
-- The operations of a subuid or subgid config: fakeroot.go, but for `GetUserEntry`. Opening, locking
-- and writing the file are the caller's part: the lines that were read are an argument, and `close`
-- gives the lines that are written. An operation that fails leaves the config as it was.
mod Examples
pub mod Ranges
pub mod Overlaps
pub mod Sync
pub mod Commands
use Prim.Native.Char.{code}
use Prim.Native.String.{◌∷◌}
use mathlib.Core.List
use apptainer.Prelude.{
  ℕ, zero, suc, ◌+◌, ◌-◌, ◌%◌, ◌^◌, String, List, [], ◌++◌, map, Bool, true, false, not, ◌&&◌, ◌||◌,
  Option, none, some, eqb, leb, if◌then◌else◌,
}
use apptainer.Fakeroot.Entry.{
  Entry, User, UserFn, Parsed, ignored, panicked, added, parse_entry, valid_range_count, start_max,
  start_min,
}
use apptainer.Fakeroot.Entry.Marks.{mark}
use apptainer.Fakeroot.Entry.Lines.{line_of}
use apptainer.Fakeroot.Lookup
use apptainer.Fakeroot.Lookup.{
  Ref, listed, made, Item, SubidFn, Config, Lookup, found, get_user_entry,
}

pub data FakerootError : Type 0 where
  lookup_error : Lookup → FakerootError
  no_user no_range mapping_disabled open_error index_panic : FakerootError

pub data Result {ℓ} (A : Type ℓ) : Type ℓ where
  ok : A → Result A
  err : FakerootError → Result A

-- The loop of `GetConfig`; `none` is a panic in `parseEntry`.
abbrev pub and_then : Parsed → Option (List Entry) → Option (List Entry)
and_then ignored rest = rest
and_then panicked rest = none
and_then (added e) none = none
and_then (added e) (some es) = some (List.◌∷◌ e es)

unfoldable pub read_lines : UserFn → List String → Option (List Entry)
read_lines get_user [] = some []
read_lines get_user (List.◌∷◌ line lines) =
    and_then (parse_entry get_user line) (read_lines get_user lines)

abbrev opened : String → Bool → Option (List Entry) → Result Config
opened name edit none = err index_panic
opened name edit (some es) =
    ok (record { entries = es; file_name = name; read_only = not edit; require_update = false })

-- `lines` are the lines of the file, or `none` where it cannot be opened.
unfoldable pub get_config : UserFn → String → Bool → Option (List String) → Result Config
get_config get_user name edit none = err open_error
get_config get_user name edit (some lines) = opened name edit (read_lines get_user lines)

-- The lines that `Close` writes in place of the file's, or `none` where it leaves the file alone.
unfoldable pub close : Config → Option (List String)
close c = if not c.require_update || c.read_only then none else some (map (λ e. e.line) c.entries)

-- `start` to `end`, both included, in 32 bits
abbrev pub covers : Entry → ℕ → Bool
covers e i = leb e.start i && leb i ((e.start + e.count + 2 ^ 32 - 1) % 2 ^ 32)

unfoldable pub is_available : List Entry → ℕ → Bool
is_available [] current = true
is_available (List.◌∷◌ e es) current =
    let rest = is_available es current in
    if e.invalid then rest else if covers e current then false else rest

-- The loop over `i`, from `startMax` down; the first argument bounds the rounds.
pub find_range : ℕ → List Entry → ℕ → Option ℕ
unfolding is_available
find_range zero es i = none
find_range (suc f) es i =
    let next = find_range f es (i - valid_range_count) in
    if leb start_min i then (if is_available es i then some i else next) else none

abbrev pub add_range : Config → User → Option ℕ → Result Config
add_range c u none = err no_range
add_range c u (some current) = ok (record c {
  entries =
      c.entries
      ++ List.◌∷◌
          (record {
            line = line_of u.uid current valid_range_count;
            uid = u.uid;
            start = current;
            count = valid_range_count;
            disabled = false;
            invalid = false;
          })
          [];
  require_update = true;
})

abbrev pub rounds : ℕ
rounds = 65536

abbrev add_for : Config → Option User → Result Config
add_for c none = err no_user
add_for c (some u) = add_range c u (find_range rounds c.entries start_max)

abbrev unless_found : Lookup → Config → Result Config → Result Config
unless_found (found x) c other = ok c
unless_found _ c other = other

unfoldable pub add_user : SubidFn → UserFn → Config → String → Result Config
unfolding find_range
add_user subid get_user c username =
    unless_found (get_user_entry subid get_user c username) c (add_for c (get_user username))

-- Does the pointer lead to the entry at `i`?
abbrev pub is_at : Ref → ℕ → Bool
is_at (listed j) i = eqb j i
is_at made i = false

abbrev pub onto : Entry → Option (List Entry) → Option (List Entry)
onto e none = none
onto e (some es) = some (List.◌∷◌ e es)

-- The loop of `RemoveUser`, from index `i` on: the list without the entry, if it is met.
pub cut_entry : ℕ → Ref → List Entry → Option (List Entry)
cut_entry i r [] = none
cut_entry i r (List.◌∷◌ e es) =
    let rest = cut_entry (i + 1) r es in if not e.invalid && is_at r i then some es else onto e rest

abbrev pub cut_from : Config → Option (List Entry) → Config
cut_from c none = c
cut_from c (some es) = record c { entries = es; require_update = true }

-- What is done with the entry that was found, or the error of `GetUserEntry`.
abbrev pub with_found : Lookup → (Item → Result Config) → Result Config
with_found (found x) f = f x
with_found l f = err (lookup_error l)

unfoldable pub remove_user : SubidFn → UserFn → Config → String → Result Config
unfolding cut_entry
remove_user subid get_user c username =
    with_found (get_user_entry subid get_user c username)
      (λ x. ok (cut_from c (cut_entry 0 x.ref c.entries)))

-- A change of the entry that the pointer leads to. An entry that was made for the call is no part of
-- the config.
pub change_at : ℕ → (Entry → Entry) → List Entry → List Entry
change_at i f [] = []
change_at zero f (List.◌∷◌ e es) = List.◌∷◌ (f e) es
change_at (suc i) f (List.◌∷◌ e es) = List.◌∷◌ e (change_at i f es)

abbrev pub change : Ref → (Entry → Entry) → List Entry → List Entry
change (listed i) f es = change_at i f es
change made f es = es

-- `line[0] == disabledPrefix`; `none` is an index out of range.
abbrev pub is_marked : String → Option Bool
is_marked String.[] = none
is_marked (String.◌∷◌ c s) = some (eqb (code c) b'!')

abbrev pub enabled_line : String → String
enabled_line String.[] = String.[]
enabled_line (String.◌∷◌ c s) = if eqb (code c) b'!' then s else String.◌∷◌ c s

abbrev pub disabled_line : String → String
disabled_line String.[] = String.[]
disabled_line (String.◌∷◌ c s) = if eqb (code c) b'!' then String.◌∷◌ c s else mark (String.◌∷◌ c s)

abbrev pub enabled : Entry → Entry
enabled e = record e { disabled = false; line = enabled_line e.line }

abbrev pub disabled : Entry → Entry
disabled e = record e { disabled = true; line = disabled_line e.line }

-- `update` says whether the line changes.
abbrev pub change_entry : Config → Item → (Entry → Entry) → Option Bool → Result Config
change_entry c x f none = err index_panic
change_entry c x f (some update) =
    ok
      (record c { entries = change x.ref f c.entries; require_update = c.require_update || update })

abbrev pub opposite : Option Bool → Option Bool
opposite none = none
opposite (some b) = some (not b)

unfoldable pub enable_user : SubidFn → UserFn → Config → String → Result Config
unfolding change_at
enable_user subid get_user c username =
    with_found (get_user_entry subid get_user c username)
      (λ x. change_entry c x enabled (is_marked x.entry.line))

unfoldable pub disable_user : SubidFn → UserFn → Config → String → Result Config
unfolding change_at
disable_user subid get_user c username =
    with_found (get_user_entry subid get_user c username)
      (λ x. change_entry c x disabled (opposite (is_marked x.entry.line)))

-- specs.LinuxIDMapping
pub record IdMapping : Type 0 where
  pub container_id : ℕ
  pub host_id : ℕ
  pub size : ℕ

abbrev mapping_of : Lookup → Result IdMapping
mapping_of (found x) =
    if x.entry.disabled
    then err mapping_disabled
    else ok (record { container_id = 1; host_id = x.entry.start; size = x.entry.count })
mapping_of l = err (lookup_error l)

abbrev range_for : SubidFn → UserFn → Result Config → Option User → Result IdMapping
range_for subid get_user (err e) u = err e
range_for subid get_user (ok c) none = err no_user
range_for subid get_user (ok c) (some u) = mapping_of (get_user_entry subid get_user c u.name)

-- `user` is the answer of `getPwUID` for the uid.
unfoldable pub get_id_range :
    SubidFn → UserFn → String → Option (List String) → Option User → Result IdMapping
get_id_range subid get_user path lines user =
    range_for subid get_user (get_config get_user path false lines) user

abbrev is_mapped : Lookup → Bool
is_mapped (found x) = not x.entry.disabled
is_mapped Lookup.range_too_low = true
is_mapped _ = false

-- `none` ends the program: a panic, or a uid of no user.
abbrev mapped_in : SubidFn → UserFn → Result Config → Option User → Option Bool
mapped_in subid get_user (err index_panic) u = none
mapped_in subid get_user (err e) u = some false
mapped_in subid get_user (ok c) none = none
mapped_in subid get_user (ok c) (some u) = some (is_mapped (get_user_entry subid get_user c u.name))

unfoldable pub is_uid_mapped : SubidFn → UserFn → Option (List String) → Option User → Option Bool
is_uid_mapped subid get_user lines user =
    mapped_in subid get_user (get_config get_user "/etc/subuid" false lines) user
