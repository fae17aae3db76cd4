-- ===== src/Ecl/Policy/Lists.antt =====
-- Which images each mode lets run, by the fingerprints.
use apptainer.Prelude.{
  String, List, [], ◌∷◌, Bool, false, not, ◌&&◌, ◌≡◌, refl, ap, arith, Bool-cases, inl, inr,
  if◌then◌else◌, any, all, Assoc, insert, eq_iff, ◌==◌,
}
use apptainer.Ecl.Hex.{Fingerprint, names_key}
use apptainer.Ecl.Policy.{
  is_named, vouched, white_list, strict_value, strict_map, every_value, white_strict, black_list,
}

is_named-any : (key : String) (fps : List Fingerprint) → is_named key fps ≡ any (names_key key) fps
unfolding is_named
is_named-any key [] = refl
is_named-any key (u ∷ us) = ground (arith, is_named-any key us)

-- A key of the group vouches for an image where it names a signer and no unvalidated signature.
abbrev pub vouches : List Fingerprint → List Fingerprint → String → Bool
vouches keyfps unvalidated key = any (names_key key) keyfps && not (any (names_key key) unvalidated)

vouched-vouches :
    (key : String) (keyfps unvalidated : List Fingerprint)
    → vouched key keyfps unvalidated ≡ vouches keyfps unvalidated key
unfolding vouched
vouched-vouches key [] unvalidated = refl
vouched-vouches key (u ∷ us) unvalidated =
    ground (arith, vouched-vouches key us unvalidated, is_named-any key unvalidated)

-- A white list lets an image run exactly when some key of the group names a fingerprint that
-- signed all objects, and names no signature that did not validate.
pub white_list-any :
    (keys : List String) (keyfps unvalidated : List Fingerprint)
    → white_list keys keyfps unvalidated ≡ any (vouches keyfps unvalidated) keys
unfolding white_list
white_list-any [] keyfps unvalidated = refl
white_list-any (key ∷ keys) keyfps unvalidated =
    ground (arith, vouched-vouches key keyfps unvalidated, white_list-any keys keyfps unvalidated)

strict_value_lem :
    (key : String) (keyfps unvalidated : List Fingerprint) (value : Bool)
    → strict_value key keyfps unvalidated value
      ≡ (if any (names_key key) keyfps then not (any (names_key key) unvalidated) else value)
unfolding strict_value
strict_value_lem key [] unvalidated value = refl
strict_value_lem key (u ∷ us) unvalidated value = ground (
  arith,
  is_named-any key unvalidated,
  strict_value_lem key us unvalidated (not (is_named key unvalidated)),
  strict_value_lem key us unvalidated value,
)

-- Every value of the map is the one that its key has.
abbrev Follows : (String → Bool) → Assoc Bool → Type 0
Follows f [] = Unit
Follows f ((k, v) ∷ m) = (v ≡ f k) × Follows f m

every_value-insert :
    (f : String → Bool) (key : String) (v : Bool) (m : Assoc Bool)
    → v ≡ f key
    → Follows f m
    → (every_value (insert key v m) ≡ (f key && every_value m)) × Follows f (insert key v m)
unfolding every_value insert
every_value-insert f key v [] e h = ground arith
every_value-insert f key v ((k, w) ∷ m) e h = elim (Bool-cases (k == key)) [
  | inl same ↦ rw same (ground (arith, ap f ((eq_iff k key).0 same)))
  | inr other ↦ rw other (ground (arith, every_value-insert f key v m))
]

strict_map_lem :
    (keys : List String) (keyfps unvalidated : List Fingerprint) (m : Assoc Bool)
    → Follows (vouches keyfps unvalidated) m
    → every_value (strict_map keys keyfps unvalidated m)
      ≡ (all (vouches keyfps unvalidated) keys && every_value m)
unfolding strict_map
strict_map_lem [] keyfps unvalidated m h = refl
strict_map_lem (key ∷ keys) keyfps unvalidated m h =
    let v = strict_value key keyfps unvalidated false in
    let e : v ≡ vouches keyfps unvalidated key =
      ground (arith, strict_value_lem key keyfps unvalidated false) in
    let (now, follows) = every_value-insert (vouches keyfps unvalidated) key v m e h in
    ground (arith, strict_map_lem keys keyfps unvalidated (insert key v m) follows, now)

-- A strict white list lets an image run exactly when every key of the group names a fingerprint that
-- signed all objects, and names no signature that did not validate.
pub white_strict-all :
    (keys : List String) (keyfps unvalidated : List Fingerprint)
    → white_strict keys keyfps unvalidated ≡ all (vouches keyfps unvalidated) keys
unfolding white_strict every_value
white_strict-all keys keyfps unvalidated =
    ground (arith, strict_map_lem keys keyfps unvalidated [] tt)

-- A black list lets an image run exactly when no key of the group names a fingerprint that signed
-- an object.
pub black_list-any :
    (keys : List String) (keyfps : List Fingerprint)
    → black_list keys keyfps ≡ not (any (λ key. any (names_key key) keyfps) keys)
unfolding black_list
black_list-any [] keyfps = refl
black_list-any (key ∷ keys) keyfps =
    ground (arith, is_named-any key keyfps, black_list-any keys keyfps)
