-- ===== src/Mount/Points/Valid.antt =====
-- The validity of the mount points.
use apptainer.Prelude.{
  ℕ, String, List, [], ◌∷◌, ◌++◌, Bool, true, false, not, ◌&&◌, ◌||◌, some, eqb, ◌==◌, eq_iff, any,
  all, Assoc, lookup, insert, is_some, contains, has_prefix, ◌≡◌, refl, arith, Bool-cases, inl, inr,
}
use apptainer.Mount.Flags.{Flags, mount_flags, has_remount_flag, has_propagation_flag, flag_options}
use apptainer.Mount.Flags.Emitted.{contains-flag_options}
use apptainer.Mount.Points.{
  Go, Point, authorized_tags, authorized_image, authorized_fs, at_destination, list_or_nil,
  point_of, reversed,
}

-- An option of a remount or of a change of propagation.
abbrev pub is_special : String → Bool
is_special o = contains ("remount" ∷ "shared" ∷ "slave" ∷ "private" ∷ "unbindable" ∷ []) o

-- A point that mounts something, and does not change a mount.
abbrev pub is_plain : Point → Bool
is_plain x = not (any is_special x.options)

-- A plain point at the destination is among the points.
abbrev pub plain_at : String → List Point → Bool
plain_at dest xs = any (λ x. is_plain x && x.destination == dest) xs

-- No plain point has the destination of one before it.
unfoldable pub unique : List Point → Bool
unique [] = true
unique (x ∷ xs) = not (plain_at x.destination xs) && unique xs

abbrev pub is_type : String → Bool
is_type t = t == "" || is_some (lookup t authorized_image) || is_some (lookup t authorized_fs)

-- The tag is authorized, the destination absolute, and the type none or an authorized one.
abbrev pub is_authorized : String → Point → Bool
is_authorized tag x =
    is_some (lookup tag authorized_tags) && has_prefix x.destination "/" && is_type x.fstype

unfoldable pub is_valid : Assoc (List Point) → Bool
unfolding unique
is_valid [] = true
is_valid ((tag, xs) ∷ m) = (all (is_authorized tag) xs && unique xs) && is_valid m

pub any-append {ℓ} :
    {A : Type ℓ} (p : A → Bool) (xs ys : List A) → any p (xs ++ ys) ≡ (any p xs || any p ys)
any-append p [] ys = refl
any-append p (x ∷ xs) ys = ground (arith, any-append p xs ys)

pub any-contains :
    (p : String → Bool) (xs : List String) (o : String)
    → contains xs o ≡ true
    → p o ≡ true
    → any p xs ≡ true
any-contains p [] o h k = cc
any-contains p (x ∷ xs) o h k = ground (arith, eq_iff x o, any-contains p xs o)

plain_at-append :
    (d : String) (xs ys : List Point) → plain_at d (xs ++ ys) ≡ (plain_at d xs || plain_at d ys)
plain_at-append d xs ys = any-append (λ x. is_plain x && x.destination == d) xs ys

-- A point may be added that is not plain, or whose destination is not among the points.
pub unique-append :
    (xs : List Point) (y : Point)
    → unique xs ≡ true
    → (is_plain y && at_destination y.destination xs) ≡ false
    → unique (xs ++ y ∷ []) ≡ true
unfolding unique
unique-append [] y h k = refl
unique-append (x ∷ xs) y h k = ground (
  arith,
  plain_at-append x.destination xs (y ∷ []),
  unique-append xs y,
  eq_iff x.destination y.destination,
  eq_iff y.destination x.destination,
)

one_special :
    (f : Flags) (o : String) (i : ℕ)
    → lookup o (reversed mount_flags []) ≡ some (i ∷ [])
    → eqb i 12 ≡ false
    → is_special o ≡ true
    → f i ≡ true
    → any is_special (flag_options f false (reversed mount_flags [])) ≡ true
one_special f o i h n k l =
    any-contains is_special (flag_options f false (reversed mount_flags [])) o
      (contains-flag_options f false o (i ∷ []) (reversed mount_flags []) h (rw l refl) (rw n refl))
      k

-- The flags of a remount or of a change of propagation give an option for it.
flags-special :
    (f : Flags)
    → (has_remount_flag f || has_propagation_flag f) ≡ true
    → any is_special (flag_options f false (reversed mount_flags [])) ≡ true
unfolding mount_flags reversed lookup
flags-special f h = elim (Bool-cases (f 5)) [
  | inl e ↦ one_special f "remount" 5 refl refl refl e
  | inr a ↦ elim (Bool-cases (f 17)) [
    | inl e ↦ one_special f "unbindable" 17 refl refl refl e
    | inr b ↦ elim (Bool-cases (f 18)) [
      | inl e ↦ one_special f "private" 18 refl refl refl e
      | inr c ↦ elim (Bool-cases (f 19)) [
        | inl e ↦ one_special f "slave" 19 refl refl refl e
        | inr d ↦ one_special f "shared" 20 refl refl refl (ground (arith))
      ]
    ]
  ]
]

-- The point that `add` makes is no plain one where its flags are of a remount or of propagation.
pub point_of-special :
    (go : Go) (context source dest fstype : String) (f : Flags) (given : List String)
    → (has_remount_flag f || has_propagation_flag f) ≡ true
    → is_plain (point_of go context source dest fstype f given) ≡ false
point_of-special go context source dest fstype f given h =
    let some_flag = flags-special f h in rw (any-append, any-append, some_flag) refl

pub valid_list :
    (tag : String) (m : Assoc (List Point))
    → is_valid m ≡ true
    → (all (is_authorized tag) (list_or_nil (lookup tag m)) && unique (list_or_nil (lookup tag m)))
      ≡ true
unfolding is_valid lookup unique
valid_list tag [] h = refl
valid_list tag ((t, xs) ∷ m) h = ground (arith, eq_iff t tag, valid_list tag m)

pub is_valid-insert :
    (tag : String) (xs : List Point) (m : Assoc (List Point))
    → is_valid m ≡ true
    → all (is_authorized tag) xs ≡ true
    → unique xs ≡ true
    → is_valid (insert tag xs m) ≡ true
unfolding is_valid insert
is_valid-insert tag xs [] h k u = ground arith
is_valid-insert tag xs ((t, ys) ∷ m) h k u = ground (arith, is_valid-insert tag xs m)
