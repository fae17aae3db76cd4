-- ===== src/Mount/Images/Examples.antt =====
-- An image that is added and read back.
use apptainer.Prelude.{
  [], ◌∷◌, ◌++◌, none, some, if◌then◌else◌, ◌==◌, has_prefix, lookup, insert, split, trim_space,
  ◌≡◌, refl,
}
use apptainer.Fakeroot.Decimal.{show}
use apptainer.Mount.Flags.{no_flags, flag_options, mount_flags, sets_bind}
use apptainer.Mount.Points.{
  Go, Point, Points, ok, get_by_tag, authorized_image, add, add_error, authorized_tags,
  given_options, reversed, authorized_fs,
}
use apptainer.Mount.Adders.{add_image}
use apptainer.Mount.Images.ReadBack.{Laws, Reads, add_image-Reads}

abbrev go : Go
go = record {
  quote = λ s. s;
  encode = λ s. if s == "a b" then "YSBi" else "";
  decode = λ s. if s == "YSBi" then some "a b" else none;
  show = show;
  scan_number = λ prefix s.
      if s == "offset=32768"
      then some 32768
      else if s == "sizelimit=1048576"
      then some 1048576
      else none;
  scan_word = λ prefix s. none;
}

go-Laws : Laws go 32768 1048576 "a b"
unfolding show
go-Laws = record {
  shown_offset = refl;
  shown_size = refl;
  encoded = refl;
  scanned_offset = refl;
  scanned_size = refl;
  decoded = refl;
}

abbrev empty : Points
empty = record { context = ""; points = [] }

abbrev image : Point
image = record {
  source = "/image.sif";
  destination = "/mnt";
  fstype = "squashfs";
  options = [];
  internal = "loop" ∷ "offset=32768" ∷ "sizelimit=1048576" ∷ "key=YSBi" ∷ [];
}

added : Points
added = record { context = ""; points = ("rootfs", image ∷ []) ∷ [] }

added_test :
    add_image go empty "rootfs" "/image.sif" "/mnt" "squashfs" no_flags 32768 1048576 "a b"
    ≡ ok added
unfolding added add_image show has_prefix lookup authorized_image add add_error authorized_tags
    insert flag_options given_options reversed split mount_flags trim_space sets_bind authorized_fs
added_test = refl

add_image-Reads_example :
    (x : Point) × (get_by_tag added "rootfs" ≡ get_by_tag empty "rootfs" ++ x ∷ [])
    × Reads go x.internal 32768 1048576 "a b"
add_image-Reads_example =
    add_image-Reads go 32768 1048576 "a b" go-Laws empty added "rootfs" "/image.sif" "/mnt"
      "squashfs" no_flags added_test
