-- ===== src/Capabilities/Process/Effective.antt =====
-- What `SetProcessEffective` asks the kernel for, and when it refuses.
use apptainer.Prelude.{
  ℕ, zero, suc, ◌+◌, ◌/◌, ◌%◌, ◌^◌, ◌≤◌, ◌<◌, String, Option, none, some, Bool, true, false, ◌≡◌,
  refl, arith, ◌&&◌, ◌||◌, not, eqb, eqb_iff, if◌then◌else◌, length, keys, Bool-cases, inl, inr,
}
use apptainer.Capabilities.Table.{table}
use apptainer.Capabilities.Process.{
  Sets, word, effective_of, permitted_of, has_bit, name_of, first_missing, not_permitted, changed,
  with_effective, set_after, set_process_effective,
}

-- A bit that the loop passes over is permitted, or was not asked for.
first_missing-none :
    (rounds i e p k : ℕ)
    → first_missing rounds i e p ≡ none
    → i ≤ k
    → k < i + rounds
    → has_bit e k ≡ true
    → has_bit p k ≡ true
unfolding first_missing
first_missing-none zero i e p k h a b c = absurd (omega arith)
first_missing-none (suc rounds) i e p k h a b c = elim (Bool-cases (eqb i k)) [
  | inl same ↦
      rw (← (eqb_iff i k).0 same)
        (not_asked (has_bit e i) (has_bit p i) h (rw (← (eqb_iff i k).0 same) at c))
  | inr other ↦
      first_missing-none rounds (i + 1) e p k (later (has_bit e i && not (has_bit p i)) h)
        (ground arith) (omega arith) c
]
  where
    not_asked :
        (x y : Bool)
        → (if x && not y then some i else first_missing rounds (i + 1) e p) ≡ none
        → x ≡ true
        → y ≡ true
    not_asked x y q r = ground arith

    later :
        (x : Bool)
        → (if x then some i else first_missing rounds (i + 1) e p) ≡ none
        → first_missing rounds (i + 1) e p ≡ none
    later x q = ground arith

-- The bit that the loop stops at lies in its range, was asked for and is not permitted.
first_missing-some :
    (rounds i e p : ℕ) {k : ℕ}
    → first_missing rounds i e p ≡ some k
    → (k < i + rounds) × (has_bit e k ≡ true) × (has_bit p k ≡ false)
unfolding first_missing
first_missing-some zero i e p h = cc
first_missing-some (suc rounds) i e p {k} h = elim (Bool-cases (has_bit e i && not (has_bit p i))) [
  | inl found ↦ ground (arith, found)
  | inr passed ↦
      let later : first_missing rounds (i + 1) e p ≡ some k = ground (arith, passed) in
      let (a, b, c) = first_missing-some rounds (i + 1) e p later in (omega arith, b, c)
]

table-length : length (keys table) ≡ 41
unfolding table
table-length = refl

halves : (caps : ℕ) → caps < 2 ^ 64 → word (caps % 2 ^ 32) (caps / 2 ^ 32 % 2 ^ 32) ≡ caps
halves caps h = omega arith

abbrev asked_for : Sets → ℕ → Option ℕ
asked_for s caps =
    first_missing (suc (length (keys table))) 0 (effective_of (with_effective s caps))
      (permitted_of s)

set_after-changed :
    (capset : Sets → Bool) (o : Option ℕ) (was : ℕ) (s : Sets) {old : ℕ} {s' : Sets}
    → set_after capset was s o ≡ changed old s'
    → (o ≡ none) × (old ≡ was) × (s' ≡ s) × (capset s' ≡ true)
set_after-changed capset none was s h = ground arith
set_after-changed capset (some i) was s h = cc

set_after-not_permitted :
    (capset : Sets → Bool) (o : Option ℕ) (was : ℕ) (s : Sets) {name : String}
    → set_after capset was s o ≡ not_permitted name
    → (k : ℕ) × (o ≡ some k) × (name ≡ name_of k)
set_after-not_permitted capset none was s h = ground arith
set_after-not_permitted capset (some i) was s h = (i, refl, ground arith)

-- Every bit of the first set below the bound is in the second one.
abbrev pub within : ℕ → ℕ → ℕ → Bool
within zero asked allowed = true
within (suc k) asked allowed =
    (not (has_bit asked k) || has_bit allowed k) && within k asked allowed

none-within :
    (k n : ℕ) (asked allowed : ℕ)
    → first_missing n 0 asked allowed ≡ none
    → k ≤ n
    → within k asked allowed ≡ true
none-within zero n asked allowed h le = refl
none-within (suc k) n asked allowed h le =
    let below = none-within k n asked allowed h (omega arith) in
    elim (Bool-cases (has_bit asked k)) [
      | inl e ↦
          let there = first_missing-none n 0 asked allowed k h (omega arith) (omega arith) e in
          rw (e, there) below
      | inr e ↦ rw e below
    ]

-- Let the set that is asked for be of 64 bits. Where the call succeeds, it returns the effective set
-- that was in force, the new effective set is the one asked for, the permitted set is as before, and
-- every bit up to 41 that was asked for is permitted.
pub set_process_effective-changed :
    (s : Sets) (capset : Sets → Bool) (caps : ℕ) {old : ℕ} {s' : Sets}
    → caps < 2 ^ 64
    → set_process_effective (some s) capset caps ≡ changed old s'
    → (old ≡ effective_of s)
      × (effective_of s' ≡ caps)
      × (permitted_of s' ≡ permitted_of s)
      × (within 42 caps (permitted_of s) ≡ true)
      × (capset s' ≡ true)
unfolding set_process_effective
set_process_effective-changed s capset caps {old} {s'} lt h =
    let (all_there, was, now, accepted) =
      set_after-changed capset (asked_for s caps) (effective_of s) (with_effective s caps) h in
    (
      was,
      rw now (halves caps lt),
      rw now refl,
      rw (← halves caps lt) (
          none-within 42 (suc (length (keys table))) (effective_of (with_effective s caps))
            (permitted_of s) all_there (rw table-length (omega arith))),
      accepted,
    )

-- Let the set that is asked for be of 64 bits. Where the call names a
-- capability that is not permitted, that is the capability of a bit up to 41 that was asked for and is not in the permitted set.
pub set_process_effective-not_permitted :
    (s : Sets) (capset : Sets → Bool) (caps : ℕ) {name : String}
    → caps < 2 ^ 64
    → set_process_effective (some s) capset caps ≡ not_permitted name
    → (k : ℕ) × (k ≤ 41)
      × (has_bit caps k ≡ true)
      × (has_bit (permitted_of s) k ≡ false)
      × (name ≡ name_of k)
unfolding set_process_effective
set_process_effective-not_permitted s capset caps {name} lt h =
    let (k, at, named) =
      set_after-not_permitted capset (asked_for s caps) (effective_of s) (with_effective s caps)
        h in
    let (below, asked, missing) =
      first_missing-some (suc (length (keys table))) 0 (effective_of (with_effective s caps))
        (permitted_of s) at in
    (k, omega (arith, below, table-length), rw (halves caps lt) at asked, missing, named)
