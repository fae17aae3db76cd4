-- ===== src/Mount/Points/Adding.antt =====
-- The operation `add`, and the validity of the points.
use mathlib.Core.Path.{subst}
use apptainer.Prelude.{
  String, [], ◌∷◌, ◌++◌, Bool, true, false, not, ◌&&◌, ◌||◌, Option, none, some, eqb, if◌then◌else◌,
  ◌==◌, all, lookup, is_some, has_prefix, split, ◌≡◌, refl, arith, all-append, Bool-cases, inl, inr,
  lookup-insert, length,
}
use apptainer.Mount.Flags.{Flags, has_remount_flag, has_propagation_flag}
use apptainer.Mount.Points.{
  Go, Point, Points, ok, MountError, authorized_tags, at_destination, get_by_tag, point_of,
  add_error, put, add, given_options, unless, is_multi,
}
use apptainer.Mount.Points.Valid.{
  is_valid, is_type, is_authorized, is_plain, unique, unique-append, valid_list, is_valid-insert,
  point_of-special,
}

abbrev pub is_change : Flags → Bool
is_change f = has_remount_flag f || has_propagation_flag f

abbrev pub point_for : Go → Points → String → String → String → Flags → String → Point
point_for go p source dest fstype flags options =
    point_of go p.context source dest fstype flags (given_options (split b',' options))

-- An add that is accepted.
pub record Accepts (p : Points) (tag dest : String) (flags : Flags) : Type 0 where
  pub absolute : has_prefix dest "/" ≡ true
  pub known : is_some (lookup tag authorized_tags) ≡ true
  pub fresh : (not (is_change flags) && at_destination dest (get_by_tag p tag)) ≡ false
  pub single :
      (not (is_change flags)
        && not (is_multi (lookup tag authorized_tags))
        && eqb (length (get_by_tag p tag)) 1)
      ≡ false

pub add_error-Accepts :
    (p : Points) (tag dest : String) (flags : Flags)
    → add_error p tag dest flags ≡ none
    → Accepts p tag dest flags
unfolding add_error
add_error-Accepts p tag dest flags h = record {
  absolute = ground arith;
  known = ground arith;
  fresh = ground arith;
  single = ground arith;
}

pub add_ok :
    (go : Go) (p : Points) (tag source dest fstype : String) (flags : Flags) (options : String)
    {q : Points}
    → add go p tag source dest fstype flags options ≡ ok q
    → Accepts p tag dest flags × (put p tag (point_for go p source dest fstype flags options) ≡ q)
unfolding add
add_ok go p tag source dest fstype flags options {q} h =
    go_on (add_error p tag dest flags) (add_error-Accepts p tag dest flags) h
  where
    go_on :
        (o : Option MountError)
        → (o ≡ none → Accepts p tag dest flags)
        → unless o (put p tag (point_for go p source dest fstype flags options)) ≡ ok q
        → Accepts p tag dest flags
          × (put p tag (point_for go p source dest fstype flags options) ≡ q)
    go_on none a k = (a refl, cc)
    go_on (some e) a k = cc

put-valid :
    (p : Points) (tag : String) (x : Point)
    → is_valid p.points ≡ true
    → is_authorized tag x ≡ true
    → (is_plain x && at_destination x.destination (get_by_tag p tag)) ≡ false
    → is_valid (put p tag x).points ≡ true
put-valid p tag x h a f =
    let v = valid_list tag p.points h in
    let before : all (is_authorized tag) (get_by_tag p tag) ≡ true = ground (arith, v) in
    let alone : unique (get_by_tag p tag) ≡ true = ground (arith, v) in
    is_valid-insert tag (get_by_tag p tag ++ x ∷ []) p.points h (rw (all-append, before, a) refl)
      (unique-append (get_by_tag p tag) x alone f)

-- An add of a point with no type or an authorized one keeps the points valid.
pub add-IsValid :
    (go : Go) (p : Points) (tag source dest fstype : String) (flags : Flags) (options : String)
    {q : Points}
    → is_type fstype ≡ true
    → is_valid p.points ≡ true
    → add go p tag source dest fstype flags options ≡ ok q
    → is_valid q.points ≡ true
add-IsValid go p tag source dest fstype flags options {q} t h k =
    let (a, e) = add_ok go p tag source dest fstype flags options k in
    subst (λ x. is_valid x.points ≡ true) e
      (put-valid p tag (point_for go p source dest fstype flags options) h
        (rw (a.known, a.absolute, t) refl) (not_again a.fresh))
  where
    x : Point
    x = point_for go p source dest fstype flags options

    not_again :
        (not (is_change flags) && at_destination dest (get_by_tag p tag)) ≡ false
        → (is_plain x && at_destination dest (get_by_tag p tag)) ≡ false
    not_again f = elim (Bool-cases (is_change flags)) [
      | inl c ↦
          rw
            (point_of-special go p.context source dest fstype flags
              (given_options (split b',' options)) c)
            refl
      | inr c ↦ ground (arith, f, c)
    ]

-- If `add` succeeds, then the tag is authorized, the destination is absolute, and unless the flags are
-- of a remount or of propagation no point of the tag had the destination and a tag for one point did
-- not have exactly one; and the tag gets one point more, at its end, while the other tags keep theirs.
pub add-Extends :
    (go : Go) (p : Points) (tag source dest fstype : String) (flags : Flags) (options : String)
    {q : Points}
    → add go p tag source dest fstype flags options ≡ ok q
    → Accepts p tag dest flags
      × ((t : String)
          → get_by_tag q t ≡ (
              if tag == t
              then get_by_tag p tag ++ point_for go p source dest fstype flags options ∷ []
              else get_by_tag p t))
add-Extends go p tag source dest fstype flags options {q} h =
    let (a, e) = add_ok go p tag source dest fstype flags options h in
    (
      a,
      λ t.
          subst
            (λ r. get_by_tag r t ≡ (
              if tag == t
              then get_by_tag p tag ++ point_for go p source dest fstype flags options ∷ []
              else get_by_tag p t))
            e (put-points p tag t (point_for go p source dest fstype flags options)),
    )
  where
    put-points :
        (p : Points) (tag t : String) (x : Point)
        → get_by_tag (put p tag x) t
          ≡ (if tag == t then get_by_tag p tag ++ x ∷ [] else get_by_tag p t)
    put-points p tag t x = ground (arith, lookup-insert tag t (get_by_tag p tag ++ x ∷ []) p.points)
