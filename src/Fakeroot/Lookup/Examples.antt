-- ===== src/Fakeroot/Lookup/Examples.antt =====
-- The choice among the entries of a user.
use apptainer.Prelude.{ℕ, List, [], ◌∷◌, false}
use apptainer.Fakeroot.Lookup.{Item, made, choose, scan}
use apptainer.Fakeroot.Lookup.Best.{Answers, choose-Answers}

abbrev item : ℕ → Item
item count = record {
  ref = made;
  entry = record {
    line = "";
    uid = 1;
    start = 65536;
    count = count;
    disabled = false;
    invalid = false;
  };
}

abbrev items : List Item
items = item 10 ∷ item 70000 ∷ item 200000 ∷ item 80000 ∷ []

choose-Answers_example : Answers items (choose (scan items [] 0))
choose-Answers_example = choose-Answers items
