-- ===== src/Capabilities/Process.antt =====
-- process_linux.go: the capability sets of the process. What capget(2) answers and whether
-- capset(2) accepts a request are arguments. The two halves of a set do not overlap, so the
-- source's `lo | hi << 32` is a sum.
mod Examples
pub mod Effective
use apptainer.Prelude.{
  ℕ, zero, suc, ◌+◌, ◌*◌, ◌/◌, ◌%◌, ◌^◌, String, List, [], ◌∷◌, Option, none, some, Bool, true,
  false, length, Assoc, eqb, if◌then◌else◌, ◌&&◌, not, keys,
}
use apptainer.Capabilities.Table.{table}

-- unix.CapUserData, as far as it is read
pub record CapUserData : Type 0 where
  pub effective : ℕ
  pub permitted : ℕ
  pub inheritable : ℕ

-- `[2]unix.CapUserData`
pub record Sets : Type 0 where
  pub low : CapUserData
  pub high : CapUserData

abbrev pub word : ℕ → ℕ → ℕ
word lo hi = lo + hi * 2 ^ 32

abbrev pub effective_of : Sets → ℕ
effective_of s = word s.low.effective s.high.effective

abbrev pub permitted_of : Sets → ℕ
permitted_of s = word s.low.permitted s.high.permitted

abbrev pub inheritable_of : Sets → ℕ
inheritable_of s = word s.low.inheritable s.high.inheritable

-- `none` is the error of capget.
get_process_effective : Option Sets → Option ℕ
get_process_effective none = none
get_process_effective (some s) = some (effective_of s)

get_process_permitted : Option Sets → Option ℕ
get_process_permitted none = none
get_process_permitted (some s) = some (permitted_of s)

get_process_inheritable : Option Sets → Option ℕ
get_process_inheritable none = none
get_process_inheritable (some s) = some (inheritable_of s)

-- `x & (1 << i) != 0`
abbrev pub has_bit : ℕ → ℕ → Bool
has_bit x i = eqb (x / 2 ^ i % 2) 1

-- The first capability of the table that has the value.
name_from : Assoc ℕ → ℕ → String
name_from [] i = "UNKNOWN"
name_from ((name, value) ∷ m) i = if eqb i value then name else name_from m i

unfoldable pub name_of : ℕ → String
unfolding name_from
name_of = name_from table

-- The loop over the bits, `rounds` of them from `i` on: the first bit that is asked for and not
-- permitted.
pub first_missing : ℕ → ℕ → ℕ → ℕ → Option ℕ
first_missing zero i effective permitted = none
first_missing (suc rounds) i effective permitted =
    let rest = first_missing rounds (i + 1) effective permitted in
    if has_bit effective i && not (has_bit permitted i) then some i else rest

pub data Change : Type 0 where
  capget_failed : Change
  not_permitted : String → Change
  capset_failed : Sets → Change
  changed : ℕ → Sets → Change

-- The sets with `caps` as the effective one, `uint32(caps)` and `uint32(caps >> 32)`.
abbrev pub with_effective : Sets → ℕ → Sets
with_effective s caps = record {
  low = record s.low { effective = caps % 2 ^ 32 };
  high = record s.high { effective = caps / 2 ^ 32 % 2 ^ 32 };
}

abbrev pub set_after : (Sets → Bool) → ℕ → Sets → Option ℕ → Change
set_after capset old s (some i) = not_permitted (name_of i)
set_after capset old s none = if capset s then changed old s else capset_failed s

-- The bits 0 to `len(Map)` are looked at, both ends included.
pub set_process_effective : Option Sets → (Sets → Bool) → ℕ → Change
unfolding first_missing
set_process_effective none capset caps = capget_failed
set_process_effective (some s) capset caps =
    let s' = with_effective s caps in
    set_after capset (effective_of s) s'
      (first_missing (suc (length (keys table))) 0 (effective_of s') (permitted_of s'))
