-- ===== src/Mount/Points.antt =====
-- The mount points by tag, and the operations that keep them: mount_linux.go. An operation that fails
-- leaves them as they were. A Go map is ranged over in any order; here it is the order of the list.
pub mod Valid
pub mod Removing
pub mod Adding
use mathlib.Core.Option
use apptainer.Prelude.{
  ℕ, String, List, [], ◌∷◌, ◌++◌, map, Bool, true, false, not, ◌&&◌, ◌||◌, Option, none, some, eqb,
  if◌then◌else◌, ◌==◌, any, all, Assoc, lookup, insert, is_some, contains, select, length,
  trim_space, has_prefix, split, append,
}
use apptainer.Mount.Flags.{
  Flags, Mask, ms_bind, mount_flags, has_remount_flag, has_propagation_flag, flag_options,
  sets_bind,
}

pub record TagInfo : Type 0 where
  pub multi_point : Bool
  pub sorted_mount : Bool
  pub order : ℕ

abbrev tag_info : Bool → Bool → ℕ → TagInfo
tag_info m s o = record { multi_point = m; sorted_mount = s; order = o }

unfoldable pub authorized_tags : Assoc TagInfo
authorized_tags =
    ("sessiondir", tag_info false false 0)
    ∷ ("rootfs", tag_info false false 1)
    ∷ ("imagebind", tag_info true false 2)
    ∷ ("prelayer", tag_info true false 3)
    ∷ ("layer", tag_info false false 4)
    ∷ ("shared", tag_info true false 5)
    ∷ ("dev", tag_info true false 6)
    ∷ ("hostfs", tag_info true false 7)
    ∷ ("binds", tag_info true false 8)
    ∷ ("kernel", tag_info true false 9)
    ∷ ("home", tag_info false false 10)
    ∷ ("tmp", tag_info true false 11)
    ∷ ("scratch", tag_info true false 12)
    ∷ ("files", tag_info true false 13)
    ∷ ("userbinds", tag_info true true 14)
    ∷ ("cwd", tag_info false false 15)
    ∷ ("other", tag_info true false 16)
    ∷ ("final", tag_info true false 17)
    ∷ []

-- The value is the `context` field.
unfoldable pub authorized_image : Assoc Bool
authorized_image =
    ("encryptfs", true) ∷ ("ext3", true) ∷ ("squashfs", true) ∷ ("gocryptfs", true) ∷ []

unfoldable pub authorized_fs : Assoc Bool
authorized_fs =
    ("overlay", true)
    ∷ ("tmpfs", true)
    ∷ ("ramfs", true)
    ∷ ("devpts", true)
    ∷ ("sysfs", false)
    ∷ ("proc", false)
    ∷ ("mqueue", false)
    ∷ ("cgroup", false)
    ∷ ("cgroup2", false)
    ∷ ("fuse", false)
    ∷ ("selinuxfs", false)
    ∷ []

abbrev pub internal_options : List String
internal_options = "loop" ∷ "offset" ∷ "sizelimit" ∷ "key" ∷ "skip-on-error" ∷ []

pub record Point : Type 0 where
  pub source : String
  pub destination : String
  pub fstype : String
  pub options : List String
  pub internal : List String

pub record Points : Type 0 where
  pub context : String
  pub points : Assoc (List Point)

pub data MountError : Type 0 where
  no_destination relative_destination unknown_tag mount_exists only_one : MountError
  no_source relative_source bad_flags bad_type no_size no_lowerdir relative_lowerdir : MountError
  relative_upperdir no_workdir relative_workdir no_propagation context_set bad_key : MountError
  not_supported no_abs_path not_imported : MountError

pub data Result {ℓ} (A : Type ℓ) : Type ℓ where
  ok : A → Result A
  err : MountError → Result A

-- The functions of Go's library that are not written out: `%q`, base64, `fmt.Sprintf` and
-- `fmt.Sscanf` of `%d`, and `fmt.Sscanf` of `%s`, after a prefix.
pub record Go : Type 0 where
  pub quote : String → String
  pub encode : String → String
  pub decode : String → Option String
  pub show : ℕ → String
  pub scan_number : String → String → Option ℕ
  pub scan_word : String → String → Option String

abbrev pub list_or_nil : Option (List Point) → List Point
list_or_nil none = []
list_or_nil (some xs) = xs

-- `p.points[tag]`
abbrev pub get_by_tag : Points → String → List Point
get_by_tag p tag = list_or_nil (lookup tag p.points)

abbrev pub is_multi : Option TagInfo → Bool
is_multi none = false
is_multi (some t) = t.multi_point

abbrev pub has_context : Option Bool → Bool
has_context none = false
has_context (some b) = b

abbrev pub at_destination : String → List Point → Bool
at_destination dest xs = any (λ x. x.destination == dest) xs

abbrev pub key_of : List String → String
key_of [] = ""
key_of (k ∷ ks) = k

-- The options of an option string, trimmed; empty ones are left out.
unfoldable pub given_options : List String → List String
given_options [] = []
given_options (o ∷ os) =
    let rest = given_options os in if trim_space o == "" then rest else trim_space o ∷ rest

abbrev pub is_internal : String → Bool
is_internal o = contains internal_options (key_of (split b'=' o))

-- `setContext` at the end.
abbrev pub sets_context : List String → String → Bool
sets_context given fstype =
    not (any (λ o. key_of (split b'=' o) == "context") given)
    && (if fstype == "" then true else has_context (lookup fstype authorized_fs))

unfoldable pub reversed {ℓ} : {A : Type ℓ} → List A → List A → List A
reversed [] ys = ys
reversed (x ∷ xs) ys = reversed xs (x ∷ ys)

abbrev pub context_option : Go → String → List String
context_option go context = append "context=" (go.quote context) ∷ []

abbrev pub point_of : Go → String → String → String → String → Flags → List String → Point
point_of go context source dest fstype flags given =
    let rows = reversed mount_flags [] in
    let from_flags = flag_options flags false rows in
    let bind = sets_bind flags rows in
    record {
      source = source;
      destination = dest;
      fstype = fstype;
      options =
          (from_flags ++ select (λ o. not (is_internal o)) given)
          ++ (if not bind && sets_context given fstype && not (context == "")
              then context_option go context
              else []);
      internal = select is_internal given;
    }

-- The guards of `add`.
unfoldable pub add_error : Points → String → String → Flags → Option MountError
add_error p tag dest flags =
    if dest == ""
    then some no_destination
    else if not (has_prefix dest "/")
    then some relative_destination
    else if not (is_some (lookup tag authorized_tags))
    then some unknown_tag
    else if has_remount_flag flags || has_propagation_flag flags
    then none
    else if at_destination dest (get_by_tag p tag)
    then some mount_exists
    else if eqb (length (get_by_tag p tag)) 1 && not (is_multi (lookup tag authorized_tags))
    then some only_one
    else none

abbrev pub put : Points → String → Point → Points
put p tag x = record p { points = insert tag (get_by_tag p tag ++ x ∷ []) p.points }

abbrev pub unless {ℓ} : {A : Type ℓ} → Option MountError → A → Result A
unless (some e) a = err e
unless none a = ok a

unfoldable pub add :
    Go → Points → String → String → String → String → Flags → String → Result Points
add go p tag source dest fstype flags options = unless (add_error p tag dest flags) (
    put p tag (point_of go p.context source dest fstype flags (given_options (split b',' options))))

unfoldable pub select_all : (Point → Bool) → Assoc (List Point) → List Point
select_all f [] = []
select_all f ((tag, xs) ∷ m) = select f xs ++ select_all f m

abbrev pub get_by_dest : Points → String → List Point
get_by_dest p dest = select_all (λ x. x.destination == dest) p.points

abbrev pub get_by_source : Points → String → List Point
get_by_source p source = select_all (λ x. x.source == source) p.points

abbrev pub get_all_images : Points → List Point
get_all_images p = select_all (λ x. is_some (lookup x.fstype authorized_image)) p.points

abbrev pub get_all_binds : Points → List Point
get_all_binds p = select_all (λ x. any (λ o. o == "bind" || o == "rbind") x.options) p.points

abbrev pub get_all_overlays : Points → List Point
get_all_overlays p = select_all (λ x. x.fstype == "overlay") p.points

abbrev pub get_all_fs : Points → List Point
get_all_fs p =
    select_all (λ x. is_some (lookup x.fstype authorized_fs) && not (x.fstype == "overlay"))
      p.points

-- Every list of the map goes through a function.
unfoldable pub each_list : (List Point → List Point) → Assoc (List Point) → Assoc (List Point)
each_list f [] = []
each_list f ((tag, xs) ∷ m) = (tag, f xs) ∷ each_list f m

abbrev pub remove_all : Points → Points
remove_all p = record p { points = each_list (λ xs. []) p.points }

-- The loop from the last index down that cuts out what passes the test.
unfoldable pub cut : (Point → Bool) → List Point → List Point
cut f [] = []
cut f (x ∷ xs) = let rest = cut f xs in if f x then rest else x ∷ rest

abbrev pub remove_by_dest : Points → String → Points
remove_by_dest p dest = record p { points = each_list (cut (λ x. x.destination == dest)) p.points }

abbrev pub remove_by_source : Points → String → Points
remove_by_source p source = record p { points = each_list (cut (λ x. x.source == source)) p.points }

abbrev pub remove_by_tag : Points → String → Points
remove_by_tag p tag = record p { points = insert tag [] p.points }

abbrev pub set_context : Points → String → Result Points
set_context p context =
    if p.context == "" then ok (record p { context = context }) else err context_set
