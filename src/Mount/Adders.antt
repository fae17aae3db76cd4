-- ===== src/Mount/Adders.antt =====
-- The operations that add one mount point of a kind: AddImage, AddBind, AddOverlay, AddFS,
-- AddFSWithSource, AddRemount and AddPropagation of mount_linux.go.
pub mod Valid
use apptainer.Prelude.{
  ℕ, String, List, [], ◌∷◌, Bool, true, false, not, Option, none, some, eqb, if◌then◌else◌, ◌==◌,
  lookup, is_some, has_prefix, append, join,
}
use apptainer.Mount.Flags.{
  Flags, ms_bind, ms_rec, ms_remount, propagation_flags, or_mask, and_not, and_mask,
  has_propagation_flag, is_forbidden,
}
use apptainer.Mount.Points.{
  Go, Points, Result, err, MountError, no_source, relative_source, bad_flags, bad_type, no_size,
  no_lowerdir, relative_lowerdir, relative_upperdir, no_workdir, relative_workdir, no_propagation,
  authorized_image, authorized_fs, add,
}

-- `fmt.Sprintf("loop,offset=%d,sizelimit=%d,key=%s", …)`
abbrev pub image_options : Go → ℕ → ℕ → String → String
image_options go offset sizelimit key = append "loop,offset=" (
    append (go.show offset)
      (append ",sizelimit=" (append (go.show sizelimit) (append ",key=" (go.encode key)))))

abbrev pub with_ext3 : String → String → String
with_ext3 fstype options = if fstype == "ext3" then append options ",errors=remount-ro" else options

unfoldable pub add_image :
    Go → Points → String → String → String → String → Flags → ℕ → ℕ → String → Result Points
add_image go p tag source dest fstype flags offset sizelimit key =
    if source == ""
    then err no_source
    else if not (has_prefix source "/")
    then err relative_source
    else if is_forbidden flags
    then err bad_flags
    else if not (is_some (lookup fstype authorized_image))
    then err bad_type
    else if eqb sizelimit 0
    then err no_size
    else add go p tag source dest fstype flags
        (with_ext3 fstype (image_options go offset sizelimit key))

unfoldable pub add_bind :
    Go → Points → String → String → String → Flags → List String → Result Points
add_bind go p tag source dest flags options =
    if source == ""
    then err no_source
    else if not (has_prefix source "/")
    then err relative_source
    else add go p tag source dest "" (or_mask flags (ms_bind ∷ [])) (join "," options)

abbrev pub overlay_options : String → String → String → String
overlay_options lowerdir upperdir workdir = append "lowerdir=" (
    append lowerdir
      (append ",upperdir=" (append upperdir (append ",workdir=" (append workdir ",xino=on")))))

unfoldable pub add_overlay :
    Go → Points → String → String → Flags → String → String → String → Result Points
add_overlay go p tag dest flags lowerdir upperdir workdir =
    if is_forbidden flags
    then err bad_flags
    else if lowerdir == ""
    then err no_lowerdir
    else if not (has_prefix lowerdir "/")
    then err relative_lowerdir
    else if upperdir == ""
    then add go p tag "overlay" dest "overlay" flags (append "lowerdir=" lowerdir)
    else if not (has_prefix upperdir "/")
    then err relative_upperdir
    else if workdir == ""
    then err no_workdir
    else if not (has_prefix workdir "/")
    then err relative_workdir
    else add go p tag "overlay" dest "overlay" flags (overlay_options lowerdir upperdir workdir)

unfoldable pub add_fs_with_source :
    Go → Points → String → String → String → String → Flags → String → Result Points
add_fs_with_source go p tag source dest fstype flags options =
    if is_forbidden flags
    then err bad_flags
    else if not (is_some (lookup fstype authorized_fs))
    then err bad_type
    else add go p tag source dest fstype flags options

abbrev pub add_fs : Go → Points → String → String → String → Flags → String → Result Points
add_fs go p tag dest fstype flags options =
    add_fs_with_source go p tag fstype dest fstype flags options

unfoldable pub add_remount : Go → Points → String → String → Flags → Result Points
add_remount go p tag dest flags =
    add go p tag "" dest "" (or_mask (and_not flags propagation_flags) (ms_remount ∷ [])) ""

abbrev pub propagation_of : Flags → Flags
propagation_of flags =
    let final = and_mask flags propagation_flags in
    if flags ms_rec then or_mask final (ms_rec ∷ []) else final

unfoldable pub add_propagation : Go → Points → String → String → Flags → Result Points
add_propagation go p tag dest flags =
    if not (has_propagation_flag (and_mask flags propagation_flags))
    then err no_propagation
    else add go p tag "" dest "" (propagation_of flags) ""
