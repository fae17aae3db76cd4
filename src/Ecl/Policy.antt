-- ===== src/Ecl/Policy.antt =====
-- `checkWhiteList`, `checkWhiteStrict` and `checkBlackList` of syecl.go, on the fingerprints that
-- the verifier gave; `unvalidated` are those of the signatures that did not validate.
pub mod Lists
use apptainer.Prelude.{
  String, List, [], ◌∷◌, Bool, true, false, not, ◌&&◌, if◌then◌else◌, Assoc, insert,
}
use apptainer.Ecl.Hex.{Fingerprint, names_key}

-- The loop over the unvalidated fingerprints.
pub is_named : String → List Fingerprint → Bool
is_named key [] = false
is_named key (ufp ∷ ufps) = if names_key key ufp then true else is_named key ufps

-- The loops over `keyfps` for one key of the group: `ok` is taken back where the key names an
-- unvalidated fingerprint, and the loop then goes on.
pub vouched : String → List Fingerprint → List Fingerprint → Bool
unfolding is_named
vouched key [] unvalidated = false
vouched key (u ∷ us) unvalidated =
    if names_key key u && not (is_named key unvalidated) then true else vouched key us unvalidated

pub white_list : List String → List Fingerprint → List Fingerprint → Bool
unfolding vouched
white_list [] keyfps unvalidated = false
white_list (key ∷ keys) keyfps unvalidated =
    if vouched key keyfps unvalidated then true else white_list keys keyfps unvalidated

-- The loop over `keyfps` on the value of the key in the map. This loop has no `break`, and the
-- value is set anew at each fingerprint that the key names.
pub strict_value : String → List Fingerprint → List Fingerprint → Bool → Bool
unfolding is_named
strict_value key [] unvalidated value = value
strict_value key (u ∷ us) unvalidated value =
    strict_value key us unvalidated
      (if names_key key u then not (is_named key unvalidated) else value)

pub strict_map : List String → List Fingerprint → List Fingerprint → Assoc Bool → Assoc Bool
unfolding strict_value
strict_map [] keyfps unvalidated m = m
strict_map (key ∷ keys) keyfps unvalidated m =
    strict_map keys keyfps unvalidated (insert key (strict_value key keyfps unvalidated false) m)

-- The loop over the values of the map, in any order.
pub every_value : Assoc Bool → Bool
every_value [] = true
every_value ((k, v) ∷ m) = if not v then false else every_value m

pub white_strict : List String → List Fingerprint → List Fingerprint → Bool
unfolding strict_map every_value
white_strict keys keyfps unvalidated = every_value (strict_map keys keyfps unvalidated [])

-- Is a fingerprint named by a key of the group?
pub black_list : List String → List Fingerprint → Bool
unfolding is_named
black_list [] keyfps = true
black_list (key ∷ keys) keyfps = if is_named key keyfps then false else black_list keys keyfps
