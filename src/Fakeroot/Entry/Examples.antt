-- ===== src/Fakeroot/Entry/Examples.antt =====
-- Lines of a subuid file.
use apptainer.Prelude.{false, none, some, ◌≡◌, arith}
use apptainer.Fakeroot.Decimal.{show, parse_uint32}
use apptainer.Fakeroot.Decimal.RoundTrip.{parse_uint32-show}
use apptainer.Fakeroot.Entry.{Entry, UserFn, added, parse_entry}
use apptainer.Fakeroot.Entry.Lines.{line_of, parse_entry-line_of}

parse_uint32-show_example : parse_uint32 (show 4294967295) ≡ some 4294967295
parse_uint32-show_example = parse_uint32-show 4294967295 (omega arith)

abbrev nobody : UserFn
nobody name = none

abbrev entry : Entry
entry = record {
  line = line_of 1000 65536 65536;
  uid = 1000;
  start = 65536;
  count = 65536;
  disabled = false;
  invalid = false;
}

line_read : parse_entry nobody (line_of 1000 65536 65536) ≡ added entry
line_read =
    parse_entry-line_of nobody 1000 65536 65536 (omega arith) (omega arith) (omega arith)
      (omega arith)
