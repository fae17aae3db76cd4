-- ===== src/Mount/Images.antt =====
-- The options of an image mount point, as the engine reads them back: GetOffset, GetSizeLimit, GetKey
-- and SkipOnError of mount_linux.go. `none` is an error.
pub mod Options
pub mod ReadBack
mod Examples
use mathlib.Core.List
use mathlib.Core.Option
use apptainer.Prelude.{
  ℕ, String, List, [], ◌∷◌, Bool, true, false, ◌||◌, Option, none, some, if◌then◌else◌, ◌==◌,
  has_prefix, drop_text,
}
use apptainer.Mount.Points.{Go}

-- The number that `Sscanf` leaves in a variable that was 0.
abbrev pub or_zero : Option ℕ → ℕ
or_zero none = 0
or_zero (some n) = n

unfoldable pub number_after : Go → String → List String → Option ℕ
number_after go prefix [] = none
number_after go prefix (o ∷ os) =
    if has_prefix o prefix
    then some (or_zero (go.scan_number prefix o))
    else number_after go prefix os

unfoldable pub get_offset : Go → List String → Option ℕ
unfolding number_after
get_offset go options = number_after go "offset=" options

unfoldable pub get_size_limit : Go → List String → Option ℕ
unfolding number_after
get_size_limit go options = number_after go "sizelimit=" options

unfoldable pub get_key : Go → List String → Option String
unfolding drop_text
get_key go [] = none
get_key go (o ∷ os) = if has_prefix o "key=" then go.decode (drop_text "key=" o) else get_key go os

unfoldable pub skip_on_error : List String → Bool
skip_on_error [] = false
skip_on_error (o ∷ os) = o == "skip-on-error" || skip_on_error os
