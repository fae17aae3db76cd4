-- ===== src/Remote/Config/Commands.antt =====
-- Sequences of operations on a configuration of remotes, failures included.
use apptainer.Prelude.{String, List, [], ◌∷◌, Bool, true, ◌&&◌, ◌≡◌, refl, arith}
use apptainer.Remote.Keyservers.{Endpoint}
use apptainer.Remote.Config.{Config, Result, ok, err, add, sync_from, set_default, remove, rename}
use apptainer.Remote.Config.Default.{
  default_named, set_default-named, add-named, remove-named, rename-named, sync_from-named,
}

pub data Command : Type 0 where
  set_default_to : String → Bool → Command
  add_remote : String → Endpoint → Command
  remove_remote : String → Command
  rename_remote : String → String → Command
  sync : Config → Command

unfoldable pub apply : Command → Config → Result Config
unfolding set_default add remove rename sync_from
apply (set_default_to name exclusive) c = set_default c name exclusive
apply (add_remote name e) c = add c name e
apply (remove_remote name) c = remove c name
apply (rename_remote name new) c = rename c name new
apply (sync sys) c = sync_from c sys

-- A failed operation leaves the configuration.
abbrev pub result_or : Config → Result Config → Config
result_or c (ok c') = c'
result_or c (err x) = c

unfoldable pub run : List Command → Config → Config
unfolding apply
run [] c = c
run (x ∷ xs) c = run xs (result_or c (apply x c))

abbrev pub synced_with_named : List Command → Bool
synced_with_named [] = true
synced_with_named (sync sys ∷ xs) = default_named sys && synced_with_named xs
synced_with_named (_ ∷ xs) = synced_with_named xs

result_or-named :
    (c : Config) (r : Result Config)
    → default_named c ≡ true
    → ((c' : Config) → r ≡ ok c' → default_named c' ≡ true)
    → default_named (result_or c r) ≡ true
result_or-named c (ok c') h f = f c' refl
result_or-named c (err x) h f = h

apply-named :
    (x : Command) (c c' : Config)
    → synced_with_named (x ∷ []) ≡ true
    → default_named c ≡ true
    → apply x c ≡ ok c'
    → default_named c' ≡ true
unfolding apply
apply-named (set_default_to name exclusive) c c' s h e = set_default-named c c' name exclusive e
apply-named (add_remote name r) c c' s h e = add-named c c' name r h e
apply-named (remove_remote name) c c' s h e = remove-named c c' name h e
apply-named (rename_remote name new) c c' s h e = rename-named c c' name new h e
apply-named (sync sys) c c' s h e = sync_from-named c sys c' (ground arith) h e

synced_with_named-tail :
    (x : Command) (xs : List Command)
    → synced_with_named (x ∷ xs) ≡ true
    → (synced_with_named (x ∷ []) ≡ true) × (synced_with_named xs ≡ true)
synced_with_named-tail (set_default_to name exclusive) xs h = (refl, h)
synced_with_named-tail (add_remote name r) xs h = (refl, h)
synced_with_named-tail (remove_remote name) xs h = (refl, h)
synced_with_named-tail (rename_remote name new) xs h = (refl, h)
synced_with_named-tail (sync sys) xs h = ground arith

-- Where the default of the configuration and of each system configuration that it is synchronised with
-- is empty or names a remote, it does so after any operations, those that fail included.
pub run-named :
    (xs : List Command) (c : Config)
    → synced_with_named xs ≡ true
    → default_named c ≡ true
    → default_named (run xs c) ≡ true
unfolding run
run-named [] c s h = h
run-named (x ∷ xs) c s h =
    let (here, next) = synced_with_named-tail x xs s in
    run-named xs (result_or c (apply x c)) next
      (result_or-named c (apply x c) h (λ c' e. apply-named x c c' here h e))
