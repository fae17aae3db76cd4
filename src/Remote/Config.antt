-- ===== src/Remote/Config.antt =====
-- remote.go: the configuration of the remote endpoints. Reading and writing it is YAML and file I/O.
-- The endpoints that two configurations share by a pointer are two values here.
pub mod Sync
pub mod Exclusive
pub mod Default
pub mod Commands
mod Examples
use mathlib.Core.List
use mathlib.Core.Option
use apptainer.Prelude.{
  String, List, [], ◌∷◌, ◌++◌, Bool, true, false, not, ◌&&◌, ◌||◌, Option, none, some,
  if◌then◌else◌, ◌==◌, Assoc, lookup, insert, delete, any, is_some,
}
use apptainer.Remote.Keyservers.{Credential, Endpoint, set_credentials}

pub record Config : Type 0 where
  pub default_remote : String
  pub remotes : Assoc Endpoint
  pub credentials : List Credential
  pub system : Bool

pub data RemoteError : Type 0 where
  not_a_remote already_a_remote user_exclusive set_exclusive global_remote no_default : RemoteError

pub data Result {ℓ} (A : Type ℓ) : Type ℓ where
  ok : A → Result A
  err : RemoteError → Result A

abbrev pub put_remote : Config → String → Endpoint → Config
put_remote c name e = record c { remotes = insert name e c.remotes }

-- The endpoint gets the stored credentials, also in the configuration.
abbrev pub got : Config → String → Option Endpoint → Result (Config × Endpoint)
got c name none = err not_a_remote
got c name (some e) = let e' = set_credentials e c.credentials in ok (put_remote c name e', e')

unfoldable pub get_remote : Config → String → Result (Config × Endpoint)
get_remote c name = got c name (lookup name c.remotes)

unfoldable pub get_default : Config → Result (Config × Endpoint)
unfolding get_remote
get_default c = if c.default_remote == "" then err no_default else get_remote c c.default_remote

unfoldable pub add : Config → String → Endpoint → Result Config
add c name e =
    if is_some (lookup name c.remotes) then err already_a_remote else ok (put_remote c name e)

abbrev pub default_if : Bool → String → Config → Config
default_if true name c = record c { default_remote = name }
default_if false name c = c

-- The endpoint that is new to the user.
abbrev pub from_system : Endpoint → Endpoint
from_system s = record {
  uri = s.uri;
  token = "";
  system = true;
  exclusive = s.exclusive;
  insecure = false;
  keyservers = s.keyservers;
  credentials = [];
}

-- One round of the loop of `SyncFrom`, by what `GetRemote` answers.
abbrev pub sync_got : Config → String → Endpoint → Result (Config × Endpoint) → Result Config
sync_got c name s (err x) = add (default_if s.exclusive name c) name (from_system s)
sync_got c name s (ok (c', u)) =
    if not u.system
    then ok c'
    else ok (
        default_if s.exclusive name (
          put_remote c' name
            (record u { uri = s.uri; exclusive = s.exclusive; keyservers = s.keyservers })))

abbrev pub sync_rest : Result Config → (Config → Result Config) → Result Config
sync_rest (ok c) f = f c
sync_rest (err x) f = err x

-- The loop; the runtime chooses the order of the remotes.
unfoldable pub sync_each : Assoc Endpoint → Config → Result Config
unfolding get_remote add
sync_each [] c = ok c
sync_each ((name, s) ∷ remotes) c =
    sync_rest (sync_got c name s (get_remote c name)) (λ c'. sync_each remotes c')

abbrev pub default_from : Config → Config → Config
default_from sys c =
    if c.default_remote == "" && not (sys.default_remote == "")
    then record c { default_remote = sys.default_remote }
    else c

unfoldable pub sync_from : Config → Config → Result Config
unfolding sync_each
sync_from c sys = sync_rest (sync_each sys.remotes c) (λ c'. ok (default_from sys c'))

-- Is a remote set exclusive?
unfoldable pub any_exclusive : Assoc Endpoint → Bool
any_exclusive [] = false
any_exclusive ((name, e) ∷ remotes) = e.exclusive || any_exclusive remotes

abbrev pub release : Config → Option Endpoint → Config
release c none = c
release c (some d) = put_remote c c.default_remote (record d { exclusive = false })

abbrev pub released : Config → String → Bool → Config
released c name exclusive =
    if not (c.default_remote == name) && exclusive
    then release c (lookup c.default_remote c.remotes)
    else c

-- From the guards on.
abbrev pub make_default : Config → String → Endpoint → Bool → Config
make_default c name r exclusive =
    record (put_remote (released c name exclusive) name (record r { exclusive = exclusive })) {
      default_remote = name;
    }

abbrev pub set_found : Config → String → Bool → Option Endpoint → Result Config
set_found c name exclusive none = err not_a_remote
set_found c name exclusive (some r) =
    if not c.system && exclusive
    then err user_exclusive
    else if not (name == c.default_remote) && any_exclusive c.remotes && not c.system
    then err set_exclusive
    else ok (make_default c name r exclusive)

unfoldable pub set_default : Config → String → Bool → Result Config
unfolding any_exclusive
set_default c name exclusive = set_found c name exclusive (lookup name c.remotes)

abbrev pub without_default : Config → String → Config
without_default c name = if c.default_remote == name then record c { default_remote = "" } else c

abbrev pub remove_found : Config → String → Option Endpoint → Result Config
remove_found c name none = err not_a_remote
remove_found c name (some r) =
    if r.system && not c.system
    then err global_remote
    else ok (record (without_default c name) { remotes = delete name c.remotes })

unfoldable pub remove : Config → String → Result Config
remove c name = remove_found c name (lookup name c.remotes)

abbrev pub rename_found :
    Config → String → String → Option Endpoint → Option Endpoint → Result Config
rename_found c name new none other = err not_a_remote
rename_found c name new (some r) (some e) = err already_a_remote
rename_found c name new (some r) none = ok (record c {
  default_remote = if c.default_remote == name then new else c.default_remote;
  remotes = delete name (insert new r c.remotes);
})

unfoldable pub rename : Config → String → String → Result Config
rename c name new = rename_found c name new (lookup name c.remotes) (lookup new c.remotes)
