-- ===== src/Remote/Login/Examples.antt =====
-- Runs of `Login` and `Logout`.
use apptainer.Prelude.{String, [], ◌∷◌, true, false, some, ◌≡◌, refl, select}
use apptainer.Remote.Uri.{Parse, same_uri}
use apptainer.Remote.Keyservers.{Credential}
use apptainer.Remote.Config.{Config}
use apptainer.Remote.Login.{ok, login, logout}
use apptainer.Remote.Login.Stored.{is_other, logout_lem}

abbrev parse : Parse
parse s = some (record { scheme = "docker"; host = s; hostname = s; port = "" })

abbrev credential : String → String → Credential
credential uri auth = record { uri = uri; auth = auth; insecure = false }

abbrev config : Config
config = record {
  default_remote = "";
  remotes = [];
  credentials = credential "a" "1" ∷ credential "b" "2" ∷ credential "a" "3" ∷ [];
  system = false;
}

logout_lem_example :
    logout parse config "a" "" true
    ≡ ok (record config { credentials = select (is_other parse "a") config.credentials })
logout_lem_example = logout_lem parse config "a"

login_test :
    login parse config "a" true "" (λ insecure. some (credential "a" "4"))
    ≡ ok (record config { credentials = credential "b" "2" ∷ credential "a" "4" ∷ [] })
unfolding login same_uri
login_test = refl
