-- ===== src/Remote/Keyservers/Examples.antt =====
-- Runs of the operations on keyservers.
use apptainer.Prelude.{
  suc, ◌<◌, String, List, [], ◌∷◌, Bool, true, false, none, some, ◌≡◌, refl, ◌⊎◌, arith,
}
use apptainer.Remote.Uri.{Parse, same_keyserver}
use apptainer.Remote.Keyservers.{
  Service, Endpoint, err, ok, order_range, active, update_keyservers_config, add_keyserver,
  new_keyserver, remove_keyserver, after_add_keyserver, update_each,
}
use apptainer.Remote.Keyservers.Order.{Added, add_keyserver-Inserted}
use apptainer.Remote.Keyservers.Removal.{Removed, remove_keyserver-Removed}

-- Each text is the host of an https URL.
abbrev parse : Parse
parse s = some (record { scheme = "https"; host = s; hostname = s; port = "" })

abbrev service : String → Bool → Service
service uri skip = record {
  credential = none;
  uri = uri;
  skip = skip;
  external = true;
  insecure = false;
}

abbrev endpoint : List Service → Endpoint
endpoint ks = record {
  uri = "cloud.example";
  token = "t";
  system = false;
  exclusive = false;
  insecure = false;
  keyservers = ks;
  credentials = [];
}

abbrev two : Endpoint
two = endpoint (service "a" false ∷ service "b" false ∷ [])

abbrev primary : Service
primary = record (service "a" true) {
  credential = some (record { uri = "a"; auth = "Bearer t"; insecure = false });
  external = false;
}

abbrev skipped : Endpoint
skipped = endpoint (primary ∷ service "b" false ∷ [])

add_keyserver-Inserted_example :
    (add_keyserver parse none two "c" 2 false ≡ err order_range × suc (active two.keyservers) < 2)
    ⊎ Added parse "c" false 2 two (add_keyserver parse none two "c" 2 false)
unfolding update_keyservers_config
add_keyserver-Inserted_example =
    add_keyserver-Inserted parse none two two "c" 2 false refl (omega arith)

remove_keyserver-Removed_example :
    Removed parse "a" two.keyservers (service "b" false ∷ [])
    × (active two.keyservers ≡ suc (active (service "b" false ∷ [])))
    × (0 < active (service "b" false ∷ []))
unfolding update_keyservers_config remove_keyserver same_keyserver
remove_keyserver-Removed_example =
    remove_keyserver-Removed parse none two two (endpoint (service "b" false ∷ [])) "a" refl refl

-- A new keyserver without an order goes before an active one that stands behind a skipped one.
early_test :
    add_keyserver parse none skipped "c" 0 false
    ≡ ok
        (record skipped { keyservers = primary ∷ new_keyserver "c" false ∷ service "b" false ∷ [] })
unfolding update_keyservers_config same_keyserver add_keyserver
early_test = refl

-- A refusal keeps what the update of the keyservers changed.
refused_test :
    (after_add_keyserver parse none two "c" 9 false).0.keyservers
    ≡ update_each parse two two.keyservers
unfolding update_keyservers_config same_keyserver after_add_keyserver
refused_test = refl
