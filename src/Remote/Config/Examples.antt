-- ===== src/Remote/Config/Examples.antt =====
-- Runs of the operations on remotes.
use apptainer.Prelude.{
  String, List, [], ◌∷◌, Bool, true, false, ◌==◌, lookup, insert, ◌≡◌, ◌≢◌, refl,
}
use apptainer.Remote.Keyservers.{Endpoint}
use apptainer.Remote.Config.{Config, ok, sync_from, set_default}
use apptainer.Remote.Config.Exclusive.{only_exclusive, sync_from-Locks}
use apptainer.Remote.Config.Default.{default_named}
use apptainer.Remote.Config.Commands.{
  Command, add_remote, set_default_to, rename_remote, remove_remote, sync, run, run-named,
}

abbrev endpoint : String → Bool → Bool → Endpoint
endpoint uri system exclusive = record {
  uri = uri;
  token = "";
  system = system;
  exclusive = exclusive;
  insecure = false;
  keyservers = [];
  credentials = [];
}

abbrev global : Config
global = record {
  default_remote = "company";
  remotes =
      ("cloud", endpoint "cloud.example" true false)
      ∷ ("company", endpoint "company.example" true true)
      ∷ [];
  credentials = [];
  system = true;
}

abbrev user : Config
user = record {
  default_remote = "home";
  remotes =
      ("home", endpoint "home.example" false false)
      ∷ ("cloud", endpoint "old.example" true false)
      ∷ [];
  credentials = [];
  system = false;
}

sync_from-Locks_example :
    (c' : Config) × (sync_from user global ≡ ok c')
    × (c'.default_remote ≡ "company")
    × ((name : String) (exclusive : Bool)
        → (name == "company") ≡ false
        → (d : Config) → set_default c' name exclusive ≢ ok d)
unfolding lookup only_exclusive
sync_from-Locks_example =
    sync_from-Locks user global "company" (endpoint "company.example" true true) refl refl refl refl
      refl refl refl

-- The user's own remote of the name hides the exclusive one.
abbrev hidden : Config
hidden = record user { remotes = ("company", endpoint "mine.example" false false) ∷ [] }

sync_from_own_test :
    sync_from hidden
      (record global { remotes = ("company", endpoint "company.example" true true) ∷ [] })
    ≡ ok hidden
unfolding sync_from lookup insert
sync_from_own_test = refl

abbrev commands : List Command
commands =
    sync global
    ∷ add_remote "new" (endpoint "new.example" false false)
    ∷ set_default_to "new" false
    ∷ rename_remote "company" "firm"
    ∷ remove_remote "home"
    ∷ []

run-named_example : default_named (run commands user) ≡ true
unfolding lookup
run-named_example = run-named commands user refl refl
