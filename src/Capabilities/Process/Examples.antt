-- ===== src/Capabilities/Process/Examples.antt =====
-- Runs of `SetProcessEffective`.
use apptainer.Prelude.{ℕ, ◌≤◌, Bool, true, false, ◌≡◌, refl, arith}
use apptainer.Capabilities.Table.{table}
use apptainer.Capabilities.Process.{
  Sets, effective_of, permitted_of, has_bit, name_of, with_effective, set_process_effective,
}
use apptainer.Capabilities.Process.Effective.{
  within, set_process_effective-changed, set_process_effective-not_permitted,
}

abbrev sets : Sets
sets = record {
  low = record { effective = 0; permitted = 3; inheritable = 0 };
  high = record { effective = 0; permitted = 0; inheritable = 0 };
}

abbrev allow : Sets → Bool
allow s = true

set_process_effective-changed_example :
    (0 ≡ effective_of sets)
    × (effective_of (with_effective sets 2) ≡ 2)
    × (permitted_of (with_effective sets 2) ≡ permitted_of sets)
    × (within 42 2 (permitted_of sets) ≡ true)
    × (allow (with_effective sets 2) ≡ true)
unfolding set_process_effective table
set_process_effective-changed_example =
    set_process_effective-changed sets allow 2 (omega arith) refl

set_process_effective-not_permitted_example :
    (k : ℕ) × (k ≤ 41)
    × (has_bit 4 k ≡ true)
    × (has_bit (permitted_of sets) k ≡ false)
    × ("CAP_DAC_READ_SEARCH" ≡ name_of k)
unfolding set_process_effective name_of table
set_process_effective-not_permitted_example =
    set_process_effective-not_permitted sets allow 4 (omega arith) refl
