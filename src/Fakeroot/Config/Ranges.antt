-- ===== src/Fakeroot/Config/Ranges.antt =====
-- The range that `AddUser` gives to a user.
use apptainer.Prelude.{
  ℕ, zero, suc, ◌+◌, ◌-◌, ◌*◌, ◌%◌, ◌≤◌, ◌<◌, String, List, [], ◌∷◌, ◌++◌, Bool, true, false, not,
  ◌||◌, Option, none, some, eqb, eqb_iff, leb, all, ◌≡◌, refl, ap, sym, ◌∙◌, arith, Bool-cases, ◌⊎◌,
  inl, inr,
}
use apptainer.Fakeroot.Entry.{Entry, User, UserFn, start_max, start_min}
use apptainer.Fakeroot.Entry.Lines.{line_of}
use apptainer.Fakeroot.Lookup.{SubidFn, Config, Lookup, found, get_user_entry}
use apptainer.Fakeroot.Config.{
  FakerootError, ok, err, covers, is_available, find_range, add_range, rounds, add_for,
  unless_found, add_user,
}

-- No valid entry of the list has the id in its range.
abbrev pub is_free : List Entry → ℕ → Bool
is_free es k = all (λ e. e.invalid || not (covers e k)) es

pub is_available-is_free : (es : List Entry) (k : ℕ) → is_available es k ≡ is_free es k
unfolding is_available
is_available-is_free [] k = refl
is_available-is_free (e ∷ es) k = ground (arith, is_available-is_free es k)

find_range-some :
    (f : ℕ) (es : List Entry) (i : ℕ) {k : ℕ}
    → find_range f es i ≡ some k
    → (start_min ≤ k) × (k ≤ i) × (k % 65536 ≡ i % 65536) × (is_free es k ≡ true)
unfolding find_range
find_range-some zero es i h = cc
find_range-some (suc f) es i {k} h = elim (Bool-cases (leb start_min i)) [
  | inl above ↦ elim (Bool-cases (is_available es i)) [
    | inl free ↦
        let same : i ≡ k = ground (arith, above, free) in
        (
          rw (← same) (ground (arith, above)),
          omega arith,
          ap (λ n. n % 65536) (sym same),
          rw (← same) (sym (is_available-is_free es i) ∙ free),
        )
    | inr taken ↦
        let later : find_range f es (i - 65536) ≡ some k = ground (arith, above, taken) in
        let (lower, upper, aligned, free) = find_range-some f es (i - 65536) later in
        (lower, omega arith, ground (arith, above), free)
  ]
  | inr below ↦ absurd (ground (arith, below))
]

-- Enough rounds: where there is no range, every candidate was taken.
find_range-none :
    (f : ℕ) (es : List Entry) (i k : ℕ)
    → find_range f es i ≡ none
    → i < 65536 * f + 65536
    → start_min ≤ k
    → k ≤ i
    → k % 65536 ≡ i % 65536
    → is_free es k ≡ false
unfolding find_range
find_range-none zero es i k h bound lo hi al = absurd (omega arith)
find_range-none (suc f) es i k h bound lo hi al = elim (Bool-cases (is_available es i)) [
  | inl free ↦ absurd (ground (arith, free))
  | inr taken ↦ elim (Bool-cases (eqb k i)) [
    | inl same ↦ rw ((eqb_iff k i).0 same) (sym (is_available-is_free es i) ∙ taken)
    | inr other ↦
        find_range-none f es (i - 65536) k (ground (arith, taken)) (omega arith) lo (ground arith)
          (ground arith)
  ]
]

-- The config with one entry more: a valid range of 65536 ids of the user, to be written.
abbrev pub with_range : Config → User → ℕ → Config
with_range c u k = record c {
  entries =
      c.entries
      ++ record {
        line = line_of u.uid k 65536;
        uid = u.uid;
        start = k;
        count = 65536;
        disabled = false;
        invalid = false;
      }
        ∷ [];
  require_update = true;
}

-- What a successful call adds: a range of 65536 ids at a multiple of 65536 within the bounds, whose
-- first id no valid entry covers.
pub record Allocates (who : Option User) (c c' : Config) : Type 0 where
  pub user : User
  pub current : ℕ
  pub is_user : who ≡ some user
  pub added : c' ≡ with_range c user current
  pub lower : start_min ≤ current
  pub upper : current ≤ start_max
  pub aligned : current % 65536 ≡ 0
  pub free : is_free c.entries current ≡ true

-- What a failing call says: there is no such user, or every candidate's first id is covered.
abbrev pub Refuses : Option User → Config → ℕ → Type 0
Refuses none c k = Unit
Refuses (some u) c k = is_free c.entries k ≡ false

add_for-Allocates :
    (c : Config) (who : Option User) {c' : Config} → add_for c who ≡ ok c' → Allocates who c c'
add_for-Allocates c none h = cc
add_for-Allocates c (some u) {c'} h = go (find_range rounds c.entries start_max) refl h
  where
    given : (k : ℕ) → add_range c u (some k) ≡ ok c' → c' ≡ with_range c u k
    given k r = cc

    go :
        (o : Option ℕ)
        → find_range rounds c.entries start_max ≡ o
        → add_range c u o ≡ ok c'
        → Allocates (some u) c c'
    go none e r = cc
    go (some k) e r =
        let (lower, upper, aligned, free) = find_range-some rounds c.entries start_max e in
        record {
          user = u;
          current = k;
          is_user = refl;
          added = given k r;
          lower = lower;
          upper = upper;
          aligned = aligned;
          free = free;
        }

pub add_user-Allocates :
    (subid : SubidFn) (g : UserFn) (c : Config) (name : String) {c' : Config}
    → add_user subid g c name ≡ ok c'
    → (c ≡ c') ⊎ Allocates (g name) c c'
unfolding add_user
add_user-Allocates subid g c name {c'} h = go (get_user_entry subid g c name) h
  where
    go :
        (l : Lookup)
        → unless_found l c (add_for c (g name)) ≡ ok c'
        → (c ≡ c') ⊎ Allocates (g name) c c'
    go (found x) e = inl cc
    go Lookup.no_user e = inr (add_for-Allocates c (g name) e)
    go Lookup.lookup_failed e = inr (add_for-Allocates c (g name) e)
    go Lookup.range_too_low e = inr (add_for-Allocates c (g name) e)
    go Lookup.no_mapping e = inr (add_for-Allocates c (g name) e)

-- Where a call for a known user fails, no candidate is free: every multiple of 65536 within the
-- bounds lies in the range of a valid entry.
pub add_user-Refuses :
    (subid : SubidFn) (g : UserFn) (c : Config) (name : String) (k : ℕ) {e : FakerootError}
    → add_user subid g c name ≡ err e
    → start_min ≤ k
    → k ≤ start_max
    → k % 65536 ≡ 0
    → Refuses (g name) c k
unfolding add_user
add_user-Refuses subid g c name k {e} h lo hi al = go (get_user_entry subid g c name) (g name) h
  where
    searched : (o : Option User) → add_for c o ≡ err e → Refuses o c k
    searched none r = tt
    searched (some u) r =
        find_range-none rounds c.entries start_max k
          (none_of (find_range rounds c.entries start_max) r) (omega arith) lo hi al
      where
        none_of : (o : Option ℕ) → add_range c u o ≡ err e → o ≡ none
        none_of none q = refl
        none_of (some j) q = cc

    go : (l : Lookup) (o : Option User) → unless_found l c (add_for c o) ≡ err e → Refuses o c k
    go (found x) o r = cc
    go Lookup.no_user o r = searched o r
    go Lookup.lookup_failed o r = searched o r
    go Lookup.range_too_low o r = searched o r
    go Lookup.no_mapping o r = searched o r
