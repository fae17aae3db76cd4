-- ===== src/Deffile/Populate/Kept.antt =====
-- What a definition has that sections make.
use apptainer.Prelude.{
  String, Bool, true, ◌&&◌, List, [], ◌∷◌, Option, none, some, all, contains, distinct, Assoc, keys,
  delete, all-keys-delete, Bool-cases, List-cases, inl, inr, ◌≡◌, refl, arith,
}
use apptainer.Deffile.Types.{Script, Definition, Gives, value, no_value}
use apptainer.Deffile.Sections.{Found, is_app_key}
use apptainer.Deffile.Sections.Tidy.{args_of, app_name, is_recorded, IsTidy}
use apptainer.Deffile.Header.Keywords.{HasKeywords}
use apptainer.Deffile.Populate.{
  valid_sections, delete_all, scripts_of, invalid_keys, is_empty, populated, build_data_of,
  custom_data_of, or_old, populate_definition,
}

-- A key of an app section whose app is in the order
abbrev pub is_app_of : List String → String → Bool
is_app_of order key = is_app_key key && contains order (app_name key)

abbrev pub HasApps : List String → Option (Assoc String) → Type 0
HasApps order none = Unit
HasApps order (some custom) = all (is_app_of order) (keys custom) ≡ true

-- The header has only keywords, no two `%files` sections have the same arguments, no app is twice
-- in the order, and the other sections are those of apps in the order.
abbrev pub IsAccepted : Definition → Type 0
IsAccepted d =
    HasKeywords d.header
    × (distinct (args_of d.build_data.files) ≡ true)
    × (distinct d.app_order ≡ true)
    × HasApps d.app_order d.custom_data

delete_all-all :
    (p : String → Bool) (names : List String) (m : Assoc Script)
    → all p (keys m) ≡ true
    → all p (keys (delete_all names m)) ≡ true
unfolding delete_all
delete_all-all p [] m h = h
delete_all-all p (name ∷ names) m h =
    delete_all-all p names (delete name m) (all-keys-delete p name m h)

-- Where no key is refused, the recorded sections are those of apps.
valid_keys :
    (order : List String) (m : Assoc Script)
    → all (is_recorded order) (keys m) ≡ true
    → invalid_keys m ≡ []
    → all (is_app_of order) (keys (scripts_of m)) ≡ true
valid_keys order [] h n = refl
valid_keys order ((name, script) ∷ m) h n = elim (Bool-cases (is_app_key name)) [
  | inl k ↦ ground (arith, valid_keys order m (ground arith) (rw k at n))
  | inr k ↦ let some_key = rw k at n in cc
]

custom_data_of-HasApps :
    (order : List String) (m : Assoc Script)
    → all (is_recorded order) (keys m) ≡ true
    → invalid_keys m ≡ []
    → HasApps order (custom_data_of m)
unfolding custom_data_of
custom_data_of-HasApps order [] h n = tt
custom_data_of-HasApps order (section ∷ m) h n = valid_keys order (section ∷ m) h n

or_old-none : (new : Option (Assoc String)) → or_old new none ≡ new
or_old-none none = refl
or_old-none (some new) = refl

pub populate_definition-IsAccepted :
    (found : Found) (d : Definition)
    → IsTidy found
    → HasKeywords d.header
    → d.custom_data ≡ none
    → Gives IsAccepted (populate_definition found d)
unfolding populate_definition populated build_data_of
populate_definition-IsAccepted found d h k n =
    let remaining = delete_all valid_sections found.sections in
    elim (List-cases (invalid_keys remaining)) [
      | inl e ↦
          let tidy =
            delete_all-all (is_recorded found.app_order) valid_sections found.sections h.2 in
          let apps = custom_data_of-HasApps found.app_order remaining tidy e in
          rw (populate_definition, e)
            (elim (Bool-cases (is_empty (populated remaining found d))) [
              | inl b ↦ rw b no_value
              | inr b ↦ rw b (value (k, h.0, h.1, rw (n, or_old-none) apps))
            ])
      | inr e ↦ rw (populate_definition, e.2) no_value
    ]
