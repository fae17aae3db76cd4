-- ===== src/Fakeroot/Entry/Marks.antt =====
-- The mark of a disabled entry, on its line and in the entry that is read from it.
use Prim.Native.Char.{Char, code}
use Prim.Native.String.{[], ◌∷◌}
use mathlib.Core.List.{List}
use apptainer.Prelude.{
  ℕ, String, Bool, true, false, Option, none, some, eqb, ltb, split, onto_first, ◌≡◌, ◌≢◌, refl,
  arith, Bool-cases, inl, inr,
}
use apptainer.Fakeroot.Decimal.{parse_uint32}
use apptainer.Fakeroot.Entry.{
  Entry, User, UserFn, added, max_uid, with_name, of_fields, parse_entry,
}

-- The line with the prefix of a disabled entry.
abbrev pub mark : String → String
mark line = "!" ∷ line

split-mark : (line : String) → split b':' (mark line) ≡ onto_first "!" (split b':' line)
unfolding split
split-mark line = refl

with_name-mark :
    (g : UserFn) (line line' username : String) (start count : Option ℕ) {e : Entry}
    → with_name g line username start count ≡ added e
    → e.disabled ≡ false
    → with_name g line' (mark username) start count
      ≡ added (record e { line = line'; disabled = true })
with_name-mark g line line' [] start count h d = cc
with_name-mark g line line' (c ∷ s) start count h d = ground arith

of_fields-mark :
    (g : UserFn) (line line' : String) (fs : List String) {e : Entry}
    → of_fields g line fs ≡ added e
    → e.disabled ≡ false
    → of_fields g line' (onto_first "!" fs) ≡ added (record e { line = line'; disabled = true })
of_fields-mark g line line' List.[] h d = cc
of_fields-mark g line line' (List.◌∷◌ a List.[]) h d = cc
of_fields-mark g line line' (List.◌∷◌ a (List.◌∷◌ b List.[])) h d = cc
of_fields-mark g line line' (List.◌∷◌ a (List.◌∷◌ b (List.◌∷◌ c fs))) h d =
    with_name-mark g line line' a (parse_uint32 b) (parse_uint32 c) h d

-- The marked line of an enabled entry is read as the same entry, disabled.
pub parse_entry-mark :
    (g : UserFn) (line : String) {e : Entry}
    → parse_entry g line ≡ added e
    → e.disabled ≡ false
    → parse_entry g (mark line) ≡ added (record e { line = mark line; disabled = true })
unfolding parse_entry
parse_entry-mark g line h d =
    rw split-mark (of_fields-mark g line (mark line) (split b':' line) h d)

abbrev pub uid_fits : Option User → Bool
uid_fits none = true
uid_fits (some u) = ltb u.uid max_uid

-- No user has an empty name, one that begins with the mark, or a uid that is not below the last.
pub record IsUserDatabase (g : UserFn) : Type 0 where
  pub uids_fit : (name : String) → uid_fits (g name) ≡ true
  pub no_empty : g [] ≡ none
  pub no_mark : (c : Char) (s : String) → eqb (code c) b'!' ≡ true → g (c ∷ s) ≡ none

with_name-unmark :
    (g : UserFn) (line line' : String) (c : Char) (f : String) (start count : Option ℕ) {e : Entry}
    → IsUserDatabase g
    → eqb (code c) b'!' ≡ true
    → e.uid ≢ max_uid
    → with_name g line (c ∷ f) start count ≡ added e
    → with_name g line' f start count ≡ added (record e { line = line'; disabled = false })
unfolding parse_uint32
with_name-unmark g line line' c [] start count d m u h = absurd (u (ground (arith, m, d.no_empty)))
with_name-unmark g line line' c (x ∷ f) start count d m u h =
    elim (Bool-cases (eqb (code x) b'!')) [
      | inl e ↦ absurd (u (ground (arith, m, e, d.no_mark x f e)))
      | inr e ↦ ground (arith, m, e)
    ]

of_fields-unmark :
    (g : UserFn) (line line' : String) (c : Char) (fs : List String) {e : Entry}
    → IsUserDatabase g
    → eqb (code c) b'!' ≡ true
    → e.uid ≢ max_uid
    → of_fields g line (onto_first c fs) ≡ added e
    → of_fields g line' fs ≡ added (record e { line = line'; disabled = false })
of_fields-unmark g line line' c List.[] d m u h = cc
of_fields-unmark g line line' c (List.◌∷◌ a List.[]) d m u h = cc
of_fields-unmark g line line' c (List.◌∷◌ a (List.◌∷◌ b List.[])) d m u h = cc
of_fields-unmark g line line' c (List.◌∷◌ a (List.◌∷◌ b (List.◌∷◌ k fs))) d m u h =
    with_name-unmark g line line' c a (parse_uint32 b) (parse_uint32 k) d m u h

split_cons :
    (c : Char) (line : String)
    → eqb (code c) b':' ≡ false
    → split b':' (c ∷ line) ≡ onto_first c (split b':' line)
unfolding split
split_cons c line h = rw h refl

-- Let no user have an empty name, one that begins with the mark, or the last uid. Without its mark,
-- the line of a disabled entry whose uid is not the last is read as the same entry, enabled.
pub parse_entry-unmark :
    (g : UserFn) (c : Char) (line : String) {e : Entry}
    → IsUserDatabase g
    → eqb (code c) b'!' ≡ true
    → e.uid ≢ max_uid
    → parse_entry g (c ∷ line) ≡ added e
    → parse_entry g line ≡ added (record e { line = line; disabled = false })
unfolding parse_entry
parse_entry-unmark g c line d m u h =
    of_fields-unmark g (c ∷ line) line c (split b':' line) d m u
      (rw (split_cons c line (ground arith)) at h)

of_fields_disabled :
    (g : UserFn) (line : String) (c : Char) (fs : List String) {e : Entry}
    → of_fields g line (onto_first c fs) ≡ added e
    → (e.disabled ≡ eqb (code c) b'!') × (e.line ≡ line)
of_fields_disabled g line c List.[] h = cc
of_fields_disabled g line c (List.◌∷◌ a List.[]) h = cc
of_fields_disabled g line c (List.◌∷◌ a (List.◌∷◌ b List.[])) h = cc
of_fields_disabled g line c (List.◌∷◌ a (List.◌∷◌ b (List.◌∷◌ k fs))) h = ground arith

split_colon :
    (c : Char) (line : String)
    → eqb (code c) b':' ≡ true
    → split b':' (c ∷ line) ≡ List.◌∷◌ [] (split b':' line)
unfolding split
split_colon c line h = rw h refl

-- An entry is disabled exactly when its line begins with the mark.
pub parse_entry_disabled :
    (g : UserFn) (c : Char) (line : String) {e : Entry}
    → parse_entry g (c ∷ line) ≡ added e
    → (e.disabled ≡ eqb (code c) b'!') × (e.line ≡ c ∷ line)
unfolding parse_entry
parse_entry_disabled g c line h = elim (Bool-cases (eqb (code c) b':')) [
  | inl e ↦ absurd (no_name (split b':' line) (rw (split_colon c line e) at h))
  | inr e ↦ of_fields_disabled g (c ∷ line) c (split b':' line) (rw (split_cons c line e) at h)
]
  where
    no_name : (fs : List String) {e : Entry} → of_fields g (c ∷ line) (List.◌∷◌ [] fs) ≡ added e → ⊥
    no_name List.[] k = cc
    no_name (List.◌∷◌ a List.[]) k = cc
    no_name (List.◌∷◌ a (List.◌∷◌ b fs)) k = cc

-- An empty line adds nothing.
pub parse_entry-nil : (g : UserFn) {e : Entry} → parse_entry g [] ≢ added e
unfolding parse_entry split
parse_entry-nil g h = cc
