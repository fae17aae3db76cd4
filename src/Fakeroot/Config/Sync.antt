-- ===== src/Fakeroot/Config/Sync.antt =====
-- When the lines of a config and its entries agree.
use Prim.Native.Char.{code}
use mathlib.Core.Path.{subst}
use apptainer.Prelude.{
  ℕ, zero, suc, ◌+◌, String, List, [], ◌++◌, map, Bool, true, false, not, ◌&&◌, Option, none, some,
  eqb, All, ◌≡◌, ◌≢◌, refl, ap, sym, ◌∙◌, Bool-cases, inl, inr,
}
use apptainer.Fakeroot.Entry.{Entry, UserFn, Parsed, ignored, panicked, added, parse_entry, max_uid}
use apptainer.Fakeroot.Entry.Marks.{
  IsUserDatabase, parse_entry-mark, parse_entry-unmark, parse_entry_disabled, parse_entry-nil,
}
use apptainer.Fakeroot.Lookup.{Ref, listed, made}
use apptainer.Fakeroot.Config.{
  is_at, onto, and_then, read_lines, cut_entry, change_at, change, enabled, disabled, enabled_line,
  disabled_line,
}

-- Every entry is the one that its line is read as.
abbrev pub Synced : UserFn → List Entry → Type 0
Synced g es = All (λ e. parse_entry g e.line ≡ added e) es

line_kept : (g : UserFn) (line : String) {e : Entry} → parse_entry g line ≡ added e → e.line ≡ line
line_kept g String.[] h = absurd (parse_entry-nil g h)
line_kept g (String.◌∷◌ c s) h = (parse_entry_disabled g c s h).1

read-Synced :
    (g : UserFn) (line : String) (o : Option (List Entry)) (p : Parsed) {es : List Entry}
    → ((r : List Entry) → o ≡ some r → Synced g r)
    → parse_entry g line ≡ p
    → and_then p o ≡ some es
    → Synced g es
read-Synced g line o ignored {es} later a h = later es h
read-Synced g line o panicked later a h = cc
read-Synced g line none (added e) later a h = cc
read-Synced g line (some r) (added e) later a h =
    let same : List.◌∷◌ e r ≡ _ = cc in
    subst (Synced g) same (ap (parse_entry g) (line_kept g line a) ∙ a, later r refl)

pub read_lines-Synced :
    (g : UserFn) (lines : List String) {es : List Entry}
    → read_lines g lines ≡ some es
    → Synced g es
unfolding read_lines
read_lines-Synced g [] {es} h = let e : [] ≡ es = cc in subst (Synced g) e tt
read_lines-Synced g (List.◌∷◌ line lines) h =
    read-Synced g line (read_lines g lines) (parse_entry g line)
      (λ r k. read_lines-Synced g lines k) refl h

-- The lines of the entries are read as these entries.
pub read_lines-map :
    (g : UserFn) (es : List Entry) → Synced g es → read_lines g (map (λ e. e.line) es) ≡ some es
unfolding read_lines
read_lines-map g [] s = refl
read_lines-map g (List.◌∷◌ e es) s = rw (s.0, read_lines-map g es s.1) refl

pub Synced-append :
    (g : UserFn) (xs ys : List Entry) → Synced g xs → Synced g ys → Synced g (xs ++ ys)
Synced-append g [] ys h k = k
Synced-append g (List.◌∷◌ x xs) ys h k = (h.0, Synced-append g xs ys h.1 k)

abbrev pub SyncedIf : UserFn → Option (List Entry) → Type 0
SyncedIf g none = Unit
SyncedIf g (some es) = Synced g es

onto-Synced :
    (g : UserFn) (e : Entry) (o : Option (List Entry))
    → parse_entry g e.line ≡ added e
    → SyncedIf g o
    → SyncedIf g (onto e o)
onto-Synced g e none h k = tt
onto-Synced g e (some es) h k = (h, k)

pub cut_entry-Synced :
    (g : UserFn) (i : ℕ) (r : Ref) (es : List Entry) → Synced g es → SyncedIf g (cut_entry i r es)
unfolding cut_entry
cut_entry-Synced g i r [] s = tt
cut_entry-Synced g i r (List.◌∷◌ e es) s = elim (Bool-cases (not e.invalid && is_at r i)) [
  | inl k ↦ rw k s.1
  | inr k ↦
      rw k (onto-Synced g e (cut_entry (i + 1) r es) s.0 (cut_entry-Synced g (i + 1) r es s.1))
]

same_mark :
    (e : Entry) (l : String) (b : Bool)
    → e.line ≡ l
    → e.disabled ≡ b
    → added e ≡ added (record e { line = l; disabled = b })
same_mark e l b h k = simp (sym h, sym k)

-- The entry that `DisableUser` makes is the one that its line is read as.
disabled-Synced :
    (g : UserFn) (e : Entry) (l : String)
    → parse_entry g l ≡ added e
    → parse_entry g (disabled_line l) ≡ added (record e { line = disabled_line l; disabled = true })
disabled-Synced g e String.[] h = absurd (parse_entry-nil g h)
disabled-Synced g e (String.◌∷◌ c s) h =
    let (d, k) = parse_entry_disabled g c s h in
    elim (Bool-cases (eqb (code c) b'!')) [
      | inl m ↦ rw m (h ∙ same_mark e _ _ k (d ∙ m))
      | inr m ↦ rw m (parse_entry-mark g (String.◌∷◌ c s) h (d ∙ m))
    ]

-- The entry that `EnableUser` makes of a user's entry is the one that its line is read as.
enabled-Synced :
    (g : UserFn) (e : Entry) (l : String)
    → IsUserDatabase g
    → e.uid ≢ max_uid
    → parse_entry g l ≡ added e
    → parse_entry g (enabled_line l) ≡ added (record e { line = enabled_line l; disabled = false })
enabled-Synced g e String.[] db u h = absurd (parse_entry-nil g h)
enabled-Synced g e (String.◌∷◌ c s) db u h =
    let (d, k) = parse_entry_disabled g c s h in
    elim (Bool-cases (eqb (code c) b'!')) [
      | inl m ↦ rw m (parse_entry-unmark g c s db m u h)
      | inr m ↦ rw m (h ∙ same_mark e _ _ k (d ∙ m))
    ]

change_at-Synced :
    (g : UserFn) (P : Entry → Type 0) (i : ℕ) (f : Entry → Entry) (es : List Entry)
    → ((e : Entry) → P e → parse_entry g e.line ≡ added e → parse_entry g (f e).line ≡ added (f e))
    → All P es
    → Synced g es
    → Synced g (change_at i f es)
unfolding change_at
change_at-Synced g P i f [] keep p s = tt
change_at-Synced g P zero f (List.◌∷◌ e es) keep p s = (keep e p.0 s.0, s.1)
change_at-Synced g P (suc i) f (List.◌∷◌ e es) keep p s =
    (s.0, change_at-Synced g P i f es keep p.1 s.1)

any_entry : (es : List Entry) → All {0, 0} (λ e. Unit) es
any_entry [] = tt
any_entry (List.◌∷◌ e es) = (tt, any_entry es)

pub change-disabled :
    (g : UserFn) (r : Ref) (es : List Entry) → Synced g es → Synced g (change r disabled es)
change-disabled g (listed i) es s =
    change_at-Synced g (λ e. Unit) i disabled es (λ e p h. disabled-Synced g e e.line h)
      (any_entry es) s
change-disabled g made es s = s

-- No entry has the last uid.
abbrev pub UidsFit : List Entry → Type 0
UidsFit es = All (λ e. e.uid ≢ max_uid) es

pub change-enabled :
    (g : UserFn) (r : Ref) (es : List Entry)
    → IsUserDatabase g
    → UidsFit es
    → Synced g es
    → Synced g (change r enabled es)
change-enabled g (listed i) es db u s =
    change_at-Synced g (λ e. e.uid ≢ max_uid) i enabled es
      (λ e p h. enabled-Synced g e e.line db p h) u s
change-enabled g made es db u s = s
