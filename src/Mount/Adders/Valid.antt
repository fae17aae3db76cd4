-- ===== src/Mount/Adders/Valid.antt =====
-- The operations that add a point, and the validity of the points.
use apptainer.Prelude.{
  ℕ, String, List, Bool, true, false, not, if◌then◌else◌, ◌==◌, lookup, is_some, ◌≡◌, refl, arith,
  has_prefix, eqb,
}
use apptainer.Mount.Flags.{Flags, propagation_flags, and_mask, has_propagation_flag, is_forbidden}
use apptainer.Mount.Points.{
  Go, Points, Result, ok, err, MountError, add, authorized_image, authorized_fs,
}
use apptainer.Mount.Points.Valid.{is_valid, is_type}
use apptainer.Mount.Points.Adding.{add-IsValid}
use apptainer.Mount.Adders.{
  add_image, add_bind, add_overlay, add_fs_with_source, add_remount, add_propagation,
  propagation_of,
}

-- Points that are valid, where there are any.
abbrev pub Kept : Result Points → Type 0
Kept (ok p) = is_valid p.points ≡ true
Kept (err e) = Unit

add-Kept :
    (go : Go) (p : Points) (tag source dest fstype : String) (flags : Flags) (options : String)
    → is_type fstype ≡ true
    → is_valid p.points ≡ true
    → Kept (add go p tag source dest fstype flags options)
add-Kept go p tag source dest fstype flags options t h =
    keep (add go p tag source dest fstype flags options)
      (λ q k. add-IsValid go p tag source dest fstype flags options t h k)
  where
    keep : (r : Result Points) → ((q : Points) → r ≡ ok q → is_valid q.points ≡ true) → Kept r
    keep (ok q) f = f q refl
    keep (err e) f = tt

-- A guard keeps, where what it guards does.
guard-Kept :
    (b : Bool) (e : MountError) (r : Result Points)
    → (b ≡ false → Kept r)
    → Kept (if b then err e else r)
guard-Kept true e r f = tt
guard-Kept false e r f = f refl

either-Kept : (b : Bool) (r s : Result Points) → Kept r → Kept s → Kept (if b then r else s)
either-Kept true r s k l = k
either-Kept false r s k l = l

image_type : (t : String) → not (is_some (lookup t authorized_image)) ≡ false → is_type t ≡ true
image_type t h = ground arith

fs_type : (t : String) → not (is_some (lookup t authorized_fs)) ≡ false → is_type t ≡ true
fs_type t h = ground arith

pub add_image-Kept :
    (go : Go) (p : Points) (tag source dest fstype : String) (flags : Flags) (offset sizelimit : ℕ)
    (key : String)
    → is_valid p.points ≡ true
    → Kept (add_image go p tag source dest fstype flags offset sizelimit key)
unfolding add_image
add_image-Kept go p tag source dest fstype flags offset sizelimit key h =
    guard-Kept (source == "") _ _ (λ a. guard-Kept (not (has_prefix source "/")) _ _ (λ b.
      guard-Kept (is_forbidden flags) _ _ (λ c.
        guard-Kept (not (is_some (lookup fstype authorized_image))) _ _ (λ d.
          guard-Kept (eqb sizelimit 0) _ _
            (λ e. add-Kept go p tag source dest fstype flags _ (image_type fstype d) h)))))

pub add_bind-Kept :
    (go : Go) (p : Points) (tag source dest : String) (flags : Flags) (options : List String)
    → is_valid p.points ≡ true
    → Kept (add_bind go p tag source dest flags options)
unfolding add_bind
add_bind-Kept go p tag source dest flags options h = guard-Kept (source == "") _ _ (λ a.
    guard-Kept (not (has_prefix source "/")) _ _ (λ b. add-Kept go p tag source dest "" _ _ refl h))

pub add_overlay-Kept :
    (go : Go) (p : Points) (tag dest : String) (flags : Flags) (lowerdir upperdir workdir : String)
    → is_valid p.points ≡ true
    → Kept (add_overlay go p tag dest flags lowerdir upperdir workdir)
unfolding add_overlay authorized_fs lookup
add_overlay-Kept go p tag dest flags lowerdir upperdir workdir h =
    guard-Kept (is_forbidden flags) _ _ (λ a. guard-Kept (lowerdir == "") _ _ (λ b.
      guard-Kept (not (has_prefix lowerdir "/")) _ _ (λ c.
        either-Kept (upperdir == "") _ _
          (add-Kept go p tag "overlay" dest "overlay" flags _ (fs_type "overlay" refl) h)
          (guard-Kept (not (has_prefix upperdir "/")) _ _ (λ d. guard-Kept (workdir == "") _ _ (λ e.
            guard-Kept (not (has_prefix workdir "/")) _ _ (λ f.
              add-Kept go p tag "overlay" dest "overlay" flags _ (fs_type "overlay" refl) h)))))))

pub add_fs_with_source-Kept :
    (go : Go) (p : Points) (tag source dest fstype : String) (flags : Flags) (options : String)
    → is_valid p.points ≡ true
    → Kept (add_fs_with_source go p tag source dest fstype flags options)
unfolding add_fs_with_source
add_fs_with_source-Kept go p tag source dest fstype flags options h =
    guard-Kept (is_forbidden flags) _ _ (λ a.
      guard-Kept (not (is_some (lookup fstype authorized_fs))) _ _
        (λ b. add-Kept go p tag source dest fstype flags options (fs_type fstype b) h))

pub add_remount-Kept :
    (go : Go) (p : Points) (tag dest : String) (flags : Flags)
    → is_valid p.points ≡ true
    → Kept (add_remount go p tag dest flags)
unfolding add_remount
add_remount-Kept go p tag dest flags h = add-Kept go p tag "" dest "" _ "" refl h

pub add_propagation-Kept :
    (go : Go) (p : Points) (tag dest : String) (flags : Flags)
    → is_valid p.points ≡ true
    → Kept (add_propagation go p tag dest flags)
unfolding add_propagation
add_propagation-Kept go p tag dest flags h =
    guard-Kept (not (has_propagation_flag (and_mask flags propagation_flags))) _ _
      (λ a. add-Kept go p tag "" dest "" (propagation_of flags) "" refl h)
