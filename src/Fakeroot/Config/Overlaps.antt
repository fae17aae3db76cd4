-- ===== src/Fakeroot/Config/Overlaps.antt =====
-- When the range of `AddUser` is apart from those of the other users, and when it is not.
use apptainer.Prelude.{
  ℕ, ◌+◌, ◌-◌, ◌%◌, ◌^◌, ◌≤◌, ◌<◌, String, List, [], ◌∷◌, Bool, true, not, ◌&&◌, ◌||◌, some, eqb,
  leb, ltb, all, ◌≡◌, refl, arith, Bool-cases, ◌⊎◌, inl, inr,
}
use apptainer.Fakeroot.Entry.{Entry, User, UserFn}
use apptainer.Fakeroot.Lookup.{SubidFn, Config}
use apptainer.Fakeroot.Config.Ranges.{with_range, is_free, add_user-Allocates}
use apptainer.Fakeroot.Config.{ok, covers, add_user}

-- The entry's range begins at a multiple of 65536 and ends within 32 bits.
abbrev pub is_regular : Entry → Bool
is_regular e =
    e.invalid || (eqb (e.start % 65536) 0 && ltb 0 e.count && leb (e.start + e.count) (2 ^ 32))

-- The 65536 ids from `k` on are not in the entry's range.
abbrev pub is_apart : ℕ → Entry → Bool
is_apart k e = e.invalid || leb (k + 65536) e.start || leb (e.start + e.count) k

regular_entry-is_apart :
    (k : ℕ) (e : Entry)
    → k % 65536 ≡ 0
    → is_regular e ≡ true
    → (e.invalid || not (covers e k)) ≡ true
    → is_apart k e ≡ true
regular_entry-is_apart k e al r f = elim (Bool-cases e.invalid) [
  | inl i ↦ ground (arith, i)
  | inr v ↦ rw v (apart (ground (arith, v)))
]
  where
    apart :
        (e.start % 65536 ≡ 0)
          × (0 < e.count)
          × (e.start + e.count ≤ 2 ^ 32)
          × ((k < e.start) ⊎ ((e.start + e.count + 2 ^ 32 - 1) % 2 ^ 32 < k))
        → (leb (k + 65536) e.start || leb (e.start + e.count) k) ≡ true
    apart (a, b, c, inl d) = let q : k + 65536 ≤ e.start = omega arith in ground arith
    apart (a, b, c, inr d) = let q : e.start + e.count ≤ k = omega arith in ground arith

regular-is_apart :
    (es : List Entry) (k : ℕ)
    → k % 65536 ≡ 0
    → all is_regular es ≡ true
    → is_free es k ≡ true
    → all (is_apart k) es ≡ true
regular-is_apart [] k al r f = refl
regular-is_apart (e ∷ es) k al r f =
    ground (arith, regular_entry-is_apart k e, regular-is_apart es k)

-- Where all valid entries begin at multiples of 65536 and end within 32 bits, a successful call
-- leaves the config as it is, or gives the user a range that no valid entry's range meets.
pub add_user_apart :
    (subid : SubidFn) (g : UserFn) (c : Config) (name : String) {c' : Config}
    → all is_regular c.entries ≡ true
    → add_user subid g c name ≡ ok c'
    → (c ≡ c')
      ⊎ ((u : User) × (k : ℕ) × (g name ≡ some u)
          × (c' ≡ with_range c u k)
          × (all (is_apart k) c.entries ≡ true))
add_user_apart subid g c name regular h = elim (add_user-Allocates subid g c name h) [
  | inl same ↦ inl same
  | inr a ↦ inr (
    a.user,
    a.current,
    a.is_user,
    a.added,
    regular-is_apart c.entries a.current a.aligned regular a.free,
  )
]
