-- ===== src/Mount/Import.antt =====
-- The import of mount point lists: ConvertSpec, Import and ImportFromSpec of mount_linux.go. What the
-- kernel supports and the absolute form of a path are arguments.
mod Examples
pub mod Commands
use mathlib.Core.Option
use apptainer.Prelude.{
  ℕ, String, List, [], ◌∷◌, ◌++◌, Bool, true, false, not, ◌&&◌, ◌||◌, Option, none, some, ltb,
  if◌then◌else◌, ◌==◌, Assoc, lookup, insert, is_some, contains, length, has_prefix, drop_text,
  join, select,
}
use apptainer.Mount.Flags.{Flags, ms_bind, has_remount_flag, has_propagation_flag, convert_options}
use apptainer.Mount.Points.{
  Go, Point, Points, Result, ok, err, MountError, bad_type, bad_key, not_supported, no_abs_path,
  not_imported, list_or_nil, authorized_fs, remove_all,
}
use apptainer.Mount.Adders.{
  add_image, add_bind, add_overlay, add_fs_with_source, add_remount, add_propagation,
}

-- specs.Mount
pub record Mount : Type 0 where
  pub destination : String
  pub type_name : String
  pub source : String
  pub options : List String

abbrev pub is_propagation : String → Bool
is_propagation o =
    contains
      ("shared" ∷ "rshared" ∷ "slave" ∷ "rslave" ∷ "private" ∷ "rprivate" ∷ "unbindable"
        ∷ "runbindable" ∷ [])
      o

-- The last propagation option.
unfoldable pub propagation_option : List String → String → String
propagation_option [] last = last
propagation_option (o ∷ os) last = propagation_option os (if is_propagation o then o else last)

abbrev pub plain_point : String → String → String → List String → Point
plain_point source dest fstype options = record {
  source = source;
  destination = dest;
  fstype = fstype;
  options = options;
  internal = [];
}

-- The points of a mount whose tag, source and type are known.
unfoldable pub spec_points : String → Mount → String → String → List Point
spec_points tag m source fstype =
    let options = select (λ o. not (is_propagation o)) m.options in
    let propagation = propagation_option m.options "" in
    plain_point source m.destination fstype options
      ∷ (if ltb 1 (length options) && tag == "userbinds"
          then plain_point "" m.destination "" (options ++ "remount" ∷ []) ∷ []
          else [])
    ++ (if propagation == "" then [] else plain_point "" m.destination "" (propagation ∷ []) ∷ [])

abbrev pub abs_source : Mount → Option String → Result (String × List Point)
abs_source m none = err no_abs_path
abs_source m (some source) = ok ("userbinds", spec_points "userbinds" m source "")

-- The tag of a mount, and its points.
unfoldable pub convert_mount :
    (String → Bool) → (String → Option String) → Mount → Result (String × List Point)
convert_mount has_filesystem abs m =
    if not (m.type_name == "") && not (m.type_name == "bind") && not (m.type_name == "none")
    then (if not (is_some (lookup m.type_name authorized_fs))
        then err bad_type
        else if not (has_filesystem m.type_name)
        then err not_supported
        else ok ("kernel", spec_points "kernel" m m.source m.type_name))
    else abs_source m (abs m.source)

abbrev pub append_points : Assoc (List Point) → String × List Point → Assoc (List Point)
append_points points (tag, xs) = insert tag (list_or_nil (lookup tag points) ++ xs) points

unfoldable pub convert_spec :
    (String → Bool)
    → (String → Option String)
    → List Mount
    → Assoc (List Point)
    → Result (Assoc (List Point))
convert_spec has_filesystem abs [] points = ok points
convert_spec has_filesystem abs (m ∷ ms) points = elim (convert_mount has_filesystem abs m) [
  | err e ↦ err e
  | ok converted ↦ convert_spec has_filesystem abs ms (append_points points converted)
]

-- A value that a scan changes only where it succeeds.
abbrev pub or_before {ℓ} : {A : Type ℓ} → Option A → A → A
or_before none before = before
or_before (some a) before = a

unfoldable pub scan_numbers : Go → String → List String → ℕ → ℕ
scan_numbers go prefix [] before = before
scan_numbers go prefix (o ∷ os) before =
    scan_numbers go prefix os
      (if has_prefix o prefix then or_before (go.scan_number prefix o) before else before)

unfoldable pub scan_words : Go → String → List String → String → String
scan_words go prefix [] before = before
scan_words go prefix (o ∷ os) before =
    scan_words go prefix os
      (if has_prefix o prefix then or_before (go.scan_word prefix o) before else before)

-- The key that the internal options give, or `none` where one does not decode.
unfoldable pub key_option : Go → List String → String → Option String
unfolding drop_text
key_option go [] before = some before
key_option go (o ∷ os) before =
    if has_prefix o "key="
    then elim (go.decode (drop_text "key=" o)) [ none ↦ none | some key ↦ key_option go os key ]
    else key_option go os before

-- What is added first, or the points with what is tried next.
abbrev pub or_next : Result Points → Points × Option MountError → Points × Option MountError
or_next (ok p) next = (p, none)
or_next (err e) next = next

abbrev pub tried : Bool → Result Points → Points × Option MountError → Points × Option MountError
tried true r next = or_next r next
tried false r next = next

-- The bind step: an error ends the import and the points stay.
abbrev pub or_stop : Points → Result Points → Points × Option MountError
or_stop p (ok q) = (q, none)
or_stop p (err e) = (p, some e)

-- The last step: an error removes all points.
abbrev pub or_clear : Points → Result Points → Points × Option MountError
or_clear p (ok q) = (q, none)
or_clear p (err e) = (remove_all p, some not_imported)

abbrev pub import_fs :
    Go → String → Point → Flags → List String → Points → Points × Option MountError
import_fs go tag x flags options p = or_clear p (
    if not (x.fstype == "overlay")
    then add_fs_with_source go p tag x.source x.destination x.fstype flags (join "," options)
    else add_overlay go p tag x.destination flags (scan_words go "lowerdir=" options "")
        (scan_words go "upperdir=" options "") (scan_words go "workdir=" options ""))

abbrev pub import_image :
    Go → String → Point → Flags → List String → Points → Option String → Points × Option MountError
import_image go tag x flags options p none = (p, some bad_key)
import_image go tag x flags options p (some key) =
    or_next
      (add_image go p tag x.source x.destination x.fstype flags
        (scan_numbers go "offset=" x.internal 0) (scan_numbers go "sizelimit=" x.internal 0) key)
      (import_fs go tag x flags options p)

unfoldable pub import_point : Go → String → Point → Points → Points × Option MountError
import_point go tag x p =
    let (flags, options) = convert_options x.options in
    tried (has_remount_flag flags) (add_remount go p tag x.destination flags) (
      tried (has_propagation_flag flags) (add_propagation go p tag x.destination flags) (
        if flags ms_bind
        then or_stop p (add_bind go p tag x.source x.destination flags [])
        else import_image go tag x flags options p (key_option go x.internal "")))

abbrev pub and_rest :
    Points × Option MountError → (Points → Points × Option MountError) → Points × Option MountError
and_rest (p, none) f = f p
and_rest (p, some e) f = (p, some e)

unfoldable pub import_list : Go → String → List Point → Points → Points × Option MountError
import_list go tag [] p = (p, none)
import_list go tag (x ∷ xs) p = and_rest (import_point go tag x p) (λ q. import_list go tag xs q)

unfoldable pub import : Go → Assoc (List Point) → Points → Points × Option MountError
import go [] p = (p, none)
import go ((tag, xs) ∷ m) p = and_rest (import_list go tag xs p) (λ q. import go m q)

abbrev pub imported : Go → Points → Result (Assoc (List Point)) → Points × Option MountError
imported go p (err e) = (p, some e)
imported go p (ok points) = import go points p

abbrev pub import_from_spec :
    Go
    → (String → Bool)
    → (String → Option String)
    → Points
    → List Mount
    → Points × Option MountError
import_from_spec go has_filesystem abs p mounts =
    imported go p (convert_spec has_filesystem abs mounts [])
