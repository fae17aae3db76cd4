-- ===== src/Remote/Login.antt =====
-- `Login` and `Logout` of remote.go: the credentials that the configuration stores. The handlers that
-- talk to the service are arguments.
pub mod Stored
mod Examples
use mathlib.Core.List
use apptainer.Prelude.{
  ℕ, zero, suc, ◌+◌, ◌*◌, String, List, [], ◌∷◌, ◌++◌, Bool, true, false, not, ◌&&◌, ◌||◌, Option,
  none, some, if◌then◌else◌, ◌==◌, Assoc, length,
}
use apptainer.Remote.Uri.{Parse, Url, normalize_keyserver_uri, same_keyserver, same_uri}
use apptainer.Remote.Keyservers.{Credential, Service, Endpoint}
use apptainer.Remote.Config.{Config}

pub data LoginError : Type 0 where
  no_keyserver handler_failed no_fuel : LoginError

pub data Result {ℓ} (A : Type ℓ) : Type ℓ where
  ok : A → Result A
  err : LoginError → Result A

-- The first external keyserver of the URI.
unfoldable pub find_external : Parse → String → List Service → Option Service
find_external parse uri [] = none
find_external parse uri (k ∷ ks) =
    let rest = find_external parse uri ks in
    if not k.external then rest else if same_keyserver parse uri k.uri then some k else rest

abbrev pub or_else : Option Service → Option Service → Option Service
or_else (some k) other = some k
or_else none other = other

unfoldable pub find_keyserver : Parse → String → Assoc Endpoint → Option Service
unfolding find_external
find_keyserver parse uri [] = none
find_keyserver parse uri ((name, e) ∷ remotes) =
    or_else (find_external parse uri e.keyservers) (find_keyserver parse uri remotes)

abbrev pub insecure_by : Bool → Option Service → Result Bool
insecure_by insecure none = err no_keyserver
insecure_by insecure (some k) =
    if k.insecure && not insecure
    then ok true
    else if not k.insecure && insecure
    then ok false
    else ok insecure

-- The insecure flag that the login uses.
abbrev pub login_insecure : Option Url → Bool → Option Service → Result Bool
login_insecure none insecure k = ok insecure
login_insecure (some u) insecure k = insecure_by insecure k

-- The loop that removes the credentials of the URI. `seen` stands before the index, and a removal
-- begins again at index 0. `none` is out of fuel.
unfoldable pub drop_same :
    Parse → String → ℕ → List Credential → List Credential → Option (List Credential)
drop_same parse uri zero seen rest = none
drop_same parse uri (suc f) seen [] = some seen
drop_same parse uri (suc f) seen (c ∷ cs) =
    let again = drop_same parse uri f [] (seen ++ cs) in
    let next = drop_same parse uri f (seen ++ c ∷ []) cs in
    if same_uri parse c.uri uri then again else next

abbrev pub rounds : List Credential → ℕ
rounds cs = suc (suc (length cs) * suc (length cs))

abbrev pub stored : Config → List Credential → Option (List Credential) → Result Config
stored c new none = err no_fuel
stored c new (some cs) = ok (record c { credentials = cs ++ new })

abbrev pub store : Parse → Config → String → String → List Credential → Result Config
store parse c uri auth_file new =
    if not (auth_file == "")
    then ok c
    else stored c new (drop_same parse uri (rounds c.credentials) [] c.credentials)

abbrev pub logged_in : Parse → Config → String → String → Option Credential → Result Config
logged_in parse c uri auth_file none = err handler_failed
logged_in parse c uri auth_file (some new) = store parse c uri auth_file (new ∷ [])

abbrev pub login_with :
    Parse → Config → String → String → (Bool → Option Credential) → Result Bool → Result Config
login_with parse c uri auth_file handler (err x) = err x
login_with parse c uri auth_file handler (ok insecure) =
    logged_in parse c uri auth_file (handler insecure)

-- `handler` is the login of the credential manager for the URI, the user and the password, by the
-- insecure flag.
unfoldable pub login :
    Parse → Config → String → Bool → String → (Bool → Option Credential) → Result Config
unfolding find_keyserver drop_same normalize_keyserver_uri
login parse c uri insecure auth_file handler = login_with parse c uri auth_file handler (
    login_insecure (normalize_keyserver_uri parse uri) insecure
      (find_keyserver parse uri c.remotes))

-- `done` tells whether the handler succeeds.
unfoldable pub logout : Parse → Config → String → String → Bool → Result Config
unfolding drop_same
logout parse c uri auth_file done =
    if not done then err handler_failed else store parse c uri auth_file []
