-- ===== src/Prelude/Maps.antt =====
-- Go's `map[string]V` as an association list. The program ranges over a map in an order that the
-- runtime chooses; where a result may depend on it, the model says so at that function.
use Prim.Native.String.{String}
use mathlib.Core.Path.{◌≡◌, refl}
use mathlib.Core.Bool.{Bool, true, false, not}
use mathlib.Core.Option.{Option, none, some}
use mathlib.Core.List.{List, [], ◌∷◌}
use native.Mathlib.Omega.{arith}
use text.Mathlib.Text.{◌==◌}
use text.Mathlib.TextEquality.{eq_iff}
use apptainer.Prelude.Tests.{if◌then◌else◌, Bool-cases}
use apptainer.Prelude.Lists.{all}
use mathlib.Core.Logic.{inl, inr}

abbrev pub Assoc {ℓ} : Type ℓ → Type ℓ
Assoc V = List (String × V)

module _ {ℓ} {V : Type ℓ} where
  abbrev pub is_some : Option V → Bool
  is_some none = false
  is_some (some value) = true

  abbrev pub keys : Assoc V → List String
  keys [] = []
  keys (entry ∷ others) = entry.0 ∷ keys others

  -- `m[key]`
  unfoldable pub lookup : String → Assoc V → Option V
  lookup key [] = none
  lookup key ((name, value) ∷ others) = if name == key then some value else lookup key others

  -- `delete(m, key)`
  unfoldable pub delete : String → Assoc V → Assoc V
  delete key [] = []
  delete key ((name, value) ∷ others) =
      let cleared = delete key others in
      if not (name == key) then (name, value) ∷ cleared else cleared

  -- `m[key] = new`
  unfoldable pub insert : String → V → Assoc V → Assoc V
  insert key new [] = (key, new) ∷ []
  insert key new ((name, value) ∷ others) =
      if name == key then (key, new) ∷ others else (name, value) ∷ insert key new others

  pub lookup-delete :
      (key other : String) (m : Assoc V)
      → lookup other (delete key m) ≡ (if key == other then none else lookup other m)
  unfolding lookup delete
  lookup-delete key other [] = ground arith
  lookup-delete key other ((name, value) ∷ others) =
      ground (
        arith,
        lookup-delete key other others,
        eq_iff name key,
        eq_iff key other,
        eq_iff name other,
      )

  pub lookup-insert :
      (key other : String) (new : V) (m : Assoc V)
      → lookup other (insert key new m) ≡ (if key == other then some new else lookup other m)
  unfolding lookup insert
  lookup-insert key other new [] = refl
  lookup-insert key other new ((name, value) ∷ others) = ground (
    arith,
    lookup-insert key other new others,
    eq_iff name key,
    eq_iff key other,
    eq_iff name other,
  )

  pub all-keys-insert :
      (p : String → Bool) (key : String) (new : V) (m : Assoc V)
      → p key ≡ true
      → all p (keys m) ≡ true
      → all p (keys (insert key new m)) ≡ true
  unfolding insert
  all-keys-insert p key new [] k h = ground arith
  all-keys-insert p key new ((name, value) ∷ others) k h = elim (Bool-cases (name == key)) [
    | inl e ↦ rw e (ground arith)
    | inr e ↦ rw e (ground (arith, all-keys-insert p key new others k (ground arith)))
  ]

  pub all-keys-delete :
      (p : String → Bool) (key : String) (m : Assoc V)
      → all p (keys m) ≡ true
      → all p (keys (delete key m)) ≡ true
  unfolding delete
  all-keys-delete p key [] h = refl
  all-keys-delete p key ((name, value) ∷ others) h = elim (Bool-cases (name == key)) [
    | inl e ↦ rw e (all-keys-delete p key others (ground arith))
    | inr e ↦ rw e (ground (arith, all-keys-delete p key others (ground arith)))
  ]
