-- ===== src/Remote/Keyservers.antt =====
-- The keyservers of an endpoint: config.go and keyserver.go of internal/pkg/remote/endpoint. What
-- `GetServiceURI` answers is an argument. A number of 32 bits keeps its bound.
pub mod Order
pub mod Removal
mod Examples
use mathlib.Core.List
use apptainer.Prelude.{
  ℕ, zero, suc, ◌+◌, ◌-◌, ◌%◌, ◌^◌, String, List, [], ◌∷◌, ◌++◌, Bool, true, false, not, ◌&&◌, ◌||◌,
  Option, none, some, if◌then◌else◌, eqb, ltb, ◌==◌, append, length,
}
use apptainer.Remote.Uri.{Parse, same_keyserver}

-- credential.Config
pub record Credential : Type 0 where
  pub uri : String
  pub auth : String
  pub insecure : Bool

-- ServiceConfig
pub record Service : Type 0 where
  pub credential : Option Credential
  pub uri : String
  pub skip : Bool
  pub external : Bool
  pub insecure : Bool

-- Config of an endpoint, without the services that were discovered
pub record Endpoint : Type 0 where
  pub uri : String
  pub token : String
  pub system : Bool
  pub exclusive : Bool
  pub insecure : Bool
  pub keyservers : List Service
  pub credentials : List Credential

pub data EndpointError : Type 0 where
  service_error order_range already_configured primary_keyserver not_configured : EndpointError
  slice_panic : EndpointError

pub data Result {ℓ} (A : Type ℓ) : Type ℓ where
  ok : A → Result A
  err : EndpointError → Result A

-- `SetCredentials`
abbrev pub set_credentials : Endpoint → List Credential → Endpoint
set_credentials e creds = record e { credentials = creds }

abbrev pub token_credential : String → String → Credential
token_credential uri token = record { uri = uri; auth = append "Bearer " token; insecure = false }

-- The first stored credential of the keyserver.
unfoldable pub find_credential : Parse → List Credential → String → Option Credential
find_credential parse [] uri = none
find_credential parse (c ∷ cs) uri =
    if same_keyserver parse c.uri uri then some c else find_credential parse cs uri

abbrev pub with_credential : Parse → Endpoint → Service → Option Credential → Service
with_credential parse e k (some c) = k
with_credential parse e k none =
    if not k.external
    then record k { credential = some (token_credential k.uri e.token) }
    else record k { credential = find_credential parse e.credentials k.uri }

unfoldable pub update_each : Parse → Endpoint → List Service → List Service
unfolding find_credential
update_each parse e [] = []
update_each parse e (k ∷ ks) = with_credential parse e k k.credential ∷ update_each parse e ks

abbrev pub first_keyserver : Endpoint → Option String → Result Endpoint
first_keyserver e none = err service_error
first_keyserver e (some uri) = ok (record e {
  keyservers =
      record {
        credential = some (token_credential uri e.token);
        uri = uri;
        skip = false;
        external = false;
        insecure = false;
      }
      ∷ [];
})

abbrev pub updated : Parse → Option String → Endpoint → List Service → Result Endpoint
updated parse service_uri e [] = first_keyserver e service_uri
updated parse service_uri e (k ∷ ks) = ok (record e { keyservers = update_each parse e (k ∷ ks) })

unfoldable pub update_keyservers_config : Parse → Option String → Endpoint → Result Endpoint
unfolding update_each
update_keyservers_config parse service_uri e = updated parse service_uri e e.keyservers

-- The number of the keyservers that are not skipped.
unfoldable pub active : List Service → ℕ
active [] = 0
active (k ∷ ks) = if k.skip then active ks else suc (active ks)

-- The last keyserver that is the same one, as the ones before it, itself, and the ones after it.
abbrev pub Match : Type 0
Match = Option (List Service × Service × List Service)

abbrev pub match_or : Bool → Service → List Service → Match → Match
match_or here k ks (some (pre, found, post)) = some (k ∷ pre, found, post)
match_or true k ks none = some ([], k, ks)
match_or false k ks none = none

unfoldable pub last_match : Parse → String → List Service → Match
last_match parse uri [] = none
last_match parse uri (k ∷ ks) =
    match_or (same_keyserver parse k.uri uri) k ks (last_match parse uri ks)

-- `append(ks[:i], append([]*ServiceConfig{k}, ks[i:]...)...)`; `none` is an index out of range.
abbrev pub onto : Service → Option (List Service) → Option (List Service)
onto k none = none
onto k (some ks) = some (k ∷ ks)

unfoldable pub insert_at : ℕ → Service → List Service → Option (List Service)
insert_at zero k ks = some (k ∷ ks)
insert_at (suc i) k [] = none
insert_at (suc i) k (x ∷ ks) = onto x (insert_at i k ks)

abbrev pub put_back : Endpoint → Option (List Service) → Result Endpoint
put_back e none = err slice_panic
put_back e (some ks) = ok (record e { keyservers = ks })

abbrev pub new_keyserver : String → Bool → Service
new_keyserver uri insecure = record {
  credential = none;
  uri = uri;
  skip = false;
  external = true;
  insecure = insecure;
}

-- From the test of the match on.
abbrev pub add_matched : Endpoint → String → Bool → ℕ → Match → Result Endpoint
add_matched e uri insecure order none =
    put_back e (insert_at (order - 1) (new_keyserver uri insecure) e.keyservers)
add_matched e uri insecure order (some (pre, k, post)) =
    if not k.external && k.skip
    then put_back e (insert_at (order - 1) (record k { skip = false }) (pre ++ post))
    else err already_configured

-- `maxOrder`, which begins at 1
abbrev pub max_order : List Service → ℕ
max_order ks = (1 + active ks) % 2 ^ 32

abbrev pub add_updated : Parse → String → ℕ → Bool → Result Endpoint → Result Endpoint
add_updated parse uri order insecure (err x) = err x
add_updated parse uri order insecure (ok e) =
    let most = max_order e.keyservers in
    if eqb order 0
    then add_matched e uri insecure most (last_match parse uri e.keyservers)
    else if ltb most order
    then err order_range
    else add_matched e uri insecure order (last_match parse uri e.keyservers)

unfoldable pub add_keyserver :
    Parse → Option String → Endpoint → String → ℕ → Bool → Result Endpoint
unfolding active last_match insert_at update_keyservers_config
add_keyserver parse service_uri e uri order insecure =
    add_updated parse uri order insecure (update_keyservers_config parse service_uri e)

-- The loop of `RemoveKeyserver`; the total was counted before.
abbrev pub remove_step : ℕ → Service → List Service → Result (List Service)
remove_step total k ks =
    if eqb total 1
    then err primary_keyserver
    else if k.external
    then ok ks
    else ok (record k { skip = true } ∷ ks)

abbrev pub after_kept : Service → Result (List Service) → Result (List Service)
after_kept k (ok ks) = ok (k ∷ ks)
after_kept k (err x) = err x

unfoldable pub remove_from : Parse → String → ℕ → List Service → Result (List Service)
remove_from parse uri total [] = err not_configured
remove_from parse uri total (k ∷ ks) =
    let rest = after_kept k (remove_from parse uri total ks) in
    if same_keyserver parse k.uri uri && not k.skip then remove_step total k ks else rest

abbrev pub with_keyservers : Endpoint → Result (List Service) → Result Endpoint
with_keyservers e (ok ks) = ok (record e { keyservers = ks })
with_keyservers e (err x) = err x

abbrev pub remove_updated : Parse → String → Result Endpoint → Result Endpoint
remove_updated parse uri (err x) = err x
remove_updated parse uri (ok e) =
    with_keyservers e (remove_from parse uri (active e.keyservers) e.keyservers)

unfoldable pub remove_keyserver : Parse → Option String → Endpoint → String → Result Endpoint
unfolding active remove_from update_keyservers_config
remove_keyserver parse service_uri e uri =
    remove_updated parse uri (update_keyservers_config parse service_uri e)

-- What a call leaves and its error: the new endpoint, or where it fails, what the update of the
-- keyservers before it left, and the endpoint as it was where that fails, too.
abbrev left_by : Endpoint → Result Endpoint → Result Endpoint → Endpoint × Option EndpointError
left_by e start (ok e') = (e', none)
left_by e (ok e0) (err x) = (e0, some x)
left_by e (err y) (err x) = (e, some x)

unfoldable pub after_add_keyserver :
    Parse → Option String → Endpoint → String → ℕ → Bool → Endpoint × Option EndpointError
unfolding add_keyserver
after_add_keyserver parse service_uri e uri order insecure =
    left_by e (update_keyservers_config parse service_uri e)
      (add_keyserver parse service_uri e uri order insecure)

unfoldable pub after_remove_keyserver :
    Parse → Option String → Endpoint → String → Endpoint × Option EndpointError
unfolding remove_keyserver
after_remove_keyserver parse service_uri e uri =
    left_by e (update_keyservers_config parse service_uri e)
      (remove_keyserver parse service_uri e uri)
