-- ===== src/Mount/Flags/Emitted.antt =====
-- The options that flags are turned into.
use apptainer.Prelude.{
  String, [], ◌∷◌, Bool, true, false, ◌||◌, some, eq_iff, Assoc, lookup, contains, ◌≡◌, arith,
}
use apptainer.Mount.Flags.{Flags, Mask, ms_bind, mask_has, covers_mask, flag_options}

-- An option of the table that has no bind bit is given where all bits of its mask are set.
pub contains-flag_options :
    (f : Flags) (bind : Bool) (o : String) (m : Mask) (rows : Assoc Mask)
    → lookup o rows ≡ some m
    → covers_mask f m ≡ true
    → mask_has m ms_bind ≡ false
    → contains (flag_options f bind rows) o ≡ true
unfolding flag_options lookup
contains-flag_options f bind o m [] h k n = cc
contains-flag_options f bind o m ((j, i) ∷ rows) h k n = ground (
  arith,
  eq_iff j o,
  contains-flag_options f bind o m rows,
  contains-flag_options f (bind || mask_has i ms_bind) o m rows,
)
