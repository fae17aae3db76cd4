-- ===== src/Mount/Import/Examples.antt =====
-- Runs of the operations on mount points.
use apptainer.Prelude.{List, [], ◌∷◌, true, some, ◌≡◌}
use apptainer.Mount.Flags.{no_flags}
use apptainer.Mount.Points.{Go}
use apptainer.Mount.Points.Valid.{is_valid}
use apptainer.Mount.Import.Commands.{
  Command, bind, fs, remount, drop_dest, run_all, run_all-IsValid,
}

abbrev go : Go
go = record {
  quote = λ s. s;
  encode = λ s. s;
  decode = λ s. some s;
  show = λ n. "1";
  scan_number = λ prefix s. some 1;
  scan_word = λ prefix s. some s;
}

abbrev commands : List Command
commands =
    bind "userbinds" "/data" "/mnt" no_flags []
    ∷ bind "userbinds" "/other" "/mnt" no_flags []
    ∷ fs "kernel" "/proc" "proc" no_flags ""
    ∷ remount "userbinds" "/mnt" no_flags
    ∷ drop_dest "/proc"
    ∷ []

run_all-IsValid_example :
    is_valid (run_all go commands (record { context = ""; points = [] })).points ≡ true
run_all-IsValid_example = run_all-IsValid go commands ""
