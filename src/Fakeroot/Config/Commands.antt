-- ===== src/Fakeroot/Config/Commands.antt =====
-- The operations on a config as commands, and what `Close` writes after one.
use mathlib.Core.Path.{subst}
use apptainer.Prelude.{
  ap, sym, ℕ, ◌^◌, ◌<◌, ◌≤◌, String, List, [], ◌++◌, map, Bool, true, false, Option, none, some,
  ltb, ◌≡◌, arith, ◌⊎◌, inl, inr,
}
use apptainer.Fakeroot.Entry.{Entry, User, UserFn, max_uid, valid_range_count, start_max}
use apptainer.Fakeroot.Entry.Marks.{IsUserDatabase, uid_fits}
use apptainer.Fakeroot.Entry.Lines.{line_of, parse_entry-line_of}
use apptainer.Fakeroot.Lookup.{Item, SubidFn, Config, Lookup, found, get_user_entry}
use apptainer.Fakeroot.Config.{
  Result, ok, err, add_user, remove_user, enable_user, disable_user, read_lines, close, cut_entry,
  cut_from, change, change_entry, is_marked, opposite, enabled, disabled, with_found,
}
use apptainer.Fakeroot.Config.Ranges.{Allocates, add_user-Allocates}
use apptainer.Fakeroot.Config.Sync.{
  Synced, SyncedIf, UidsFit, Synced-append, cut_entry-Synced, change-disabled, change-enabled,
  read_lines-Synced, read_lines-map,
}

pub data Command : Type 0 where
  add remove enable disable : String → Command

unfoldable pub run : SubidFn → UserFn → Command → Config → Result Config
run subid g (add name) c = add_user subid g c name
run subid g (remove name) c = remove_user subid g c name
run subid g (enable name) c = enable_user subid g c name
run subid g (disable name) c = disable_user subid g c name

small : (n m : ℕ) → ltb n m ≡ true → n < m
small n m h = ground arith

abbrev SyncedResult : UserFn → Result Config → Type 0
SyncedResult g (ok c) = Synced g c.entries
SyncedResult g (err e) = Unit

added-Synced :
    (g : UserFn) (u : User) (current : ℕ) (es : List Entry)
    → u.uid < 2 ^ 32
    → current ≤ start_max
    → Synced g es
    → Synced g (
        es
        ++ List.◌∷◌
            (record {
              line = line_of u.uid current valid_range_count;
              uid = u.uid;
              start = current;
              count = valid_range_count;
              disabled = false;
              invalid = false;
            })
            [])
added-Synced g u current es hu hc s = Synced-append g es _ s (
  parse_entry-line_of g u.uid current valid_range_count hu (omega arith) (omega arith)
      (omega arith),
  tt,
)

user_fits :
    (g : UserFn) (name : String) {u : User} → IsUserDatabase g → g name ≡ some u → u.uid < 2 ^ 32
user_fits g name {u} db h =
    let fits : ltb u.uid max_uid ≡ true = subst (λ o. uid_fits o ≡ true) h (db.uids_fit name) in
    ground arith

add_user-Synced :
    (subid : SubidFn) (g : UserFn) (c : Config) (name : String) {c' : Config}
    → IsUserDatabase g
    → Synced g c.entries
    → add_user subid g c name ≡ ok c'
    → Synced g c'.entries
add_user-Synced subid g c name {c'} db s h = go (add_user-Allocates subid g c name h)
  where
    go : (c ≡ c') ⊎ Allocates (g name) c c' → Synced g c'.entries
    go (inl e) = subst (λ x. Synced g x.entries) e s
    go (inr a) =
        subst (λ x. SyncedResult g x) (ap ok (sym a.added))
          (added-Synced g a.user a.current c.entries (user_fits g name db a.is_user) a.upper s)

cut_from-Synced :
    (g : UserFn) (c : Config) (o : Option (List Entry))
    → Synced g c.entries
    → SyncedIf g o
    → Synced g (cut_from c o).entries
cut_from-Synced g c none s k = s
cut_from-Synced g c (some es) s k = k

change_entry-Synced :
    (g : UserFn) (c : Config) (x : Item) (f : Entry → Entry) (b : Option Bool)
    → Synced g (change x.ref f c.entries)
    → SyncedResult g (change_entry c x f b)
change_entry-Synced g c x f none s = tt
change_entry-Synced g c x f (some u) s = s

with_found-Synced :
    (g : UserFn) (l : Lookup) (f : Item → Result Config)
    → ((x : Item) → SyncedResult g (f x))
    → SyncedResult g (with_found l f)
with_found-Synced g (found x) f k = k x
with_found-Synced g Lookup.no_user f k = tt
with_found-Synced g Lookup.lookup_failed f k = tt
with_found-Synced g Lookup.range_too_low f k = tt
with_found-Synced g Lookup.no_mapping f k = tt

-- After any command, the lines of the entries are read as the entries.
pub run-Synced :
    (subid : SubidFn) (g : UserFn) (a : Command) (c : Config) {c' : Config}
    → IsUserDatabase g
    → UidsFit c.entries
    → Synced g c.entries
    → run subid g a c ≡ ok c'
    → Synced g c'.entries
unfolding run add_user remove_user enable_user disable_user
run-Synced subid g (add name) c db u s h = add_user-Synced subid g c name db s h
run-Synced subid g (remove name) c db u s h = subst (SyncedResult g) h (
    with_found-Synced g (get_user_entry subid g c name) _ (λ x.
      cut_from-Synced g c (cut_entry 0 x.ref c.entries) s (cut_entry-Synced g 0 x.ref c.entries s)))
run-Synced subid g (enable name) c db u s h = subst (SyncedResult g) h (
    with_found-Synced g (get_user_entry subid g c name) _ (λ x.
      change_entry-Synced g c x enabled (is_marked x.entry.line)
        (change-enabled g x.ref c.entries db u s)))
run-Synced subid g (disable name) c db u s h = subst (SyncedResult g) h (
    with_found-Synced g (get_user_entry subid g c name) _ (λ x.
      change_entry-Synced g c x disabled (opposite (is_marked x.entry.line))
        (change-disabled g x.ref c.entries s)))

close_lines :
    (c : Config) {lines : List String} → close c ≡ some lines → map (λ e. e.line) c.entries ≡ lines
unfolding close
close_lines c h = ground arith

-- Let no user have an empty name, one that begins with an exclamation mark, or the last uid, and no
-- entry of the config have the last uid. A config that was read from a file and changed by a command
-- writes lines, where it writes any, that are read as the entries it has.
pub run-read_lines :
    (subid : SubidFn) (g : UserFn) (a : Command) (c : Config) {c' : Config} (before : List String)
    {after : List String}
    → IsUserDatabase g
    → UidsFit c.entries
    → read_lines g before ≡ some c.entries
    → run subid g a c ≡ ok c'
    → close c' ≡ some after
    → read_lines g after ≡ some c'.entries
run-read_lines subid g a c {c'} before db u r h k =
    subst (λ ls. read_lines g ls ≡ some c'.entries) (close_lines c' k)
      (read_lines-map g c'.entries (run-Synced subid g a c db u (read_lines-Synced g before r) h))
