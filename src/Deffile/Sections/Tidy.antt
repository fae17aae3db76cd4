-- ===== src/Deffile/Sections/Tidy.antt =====
-- What the parser of sections keeps.
use mathlib.Core.List.{List}
use apptainer.Prelude.{
  String, Bool, true, false, not, ◌||◌, Option, none, some, ◌==◌, ◌++◌, all, contains,
  contains-append, contains_congr, distinct, append, split, split_two, trim_space, free_of, Assoc,
  keys, all-keys-insert, Bool-cases, Option-cases, inl, inr, eq_iff, eq_refl, ◌≡◌, refl, ◌∙◌, arith,
}
use apptainer.Deffile.Texts.{trim_percent, to_lower, up_to}
use apptainer.Deffile.Texts.Parts.{
  append-one, up_to-twice, up_to-free, split_two-free, split_two-append, up_to_whole,
}
use apptainer.Deffile.Types.{
  Script, Files, Gives, value, no_value, Gives-and_then, all_given, or_default,
}
use apptainer.Deffile.Sections.{
  Found, app_sections, is_app_key, get_section_name, section_args, read_files, put_files,
  add_script, add_app, parse_files, parse_app, parse_script, parse_section, parse_token_section,
  parse_tokens,
}

abbrev pub args_of : List Files → List String
args_of List.[] = List.[]
args_of (List.◌∷◌ f fs) = List.◌∷◌ f.args (args_of fs)

-- The name of the app in a key, which stands behind its first space.
abbrev pub app_name : String → String
app_name key = up_to b' ' (or_default (behind (split_two b' ' key)) "")
  where
    behind : Option (String × String) → Option String
    behind none = none
    behind (some parts) = some (parts.1)

-- If the key is one of an app section, then its app is in the order.
abbrev pub is_recorded : List String → String → Bool
is_recorded order key = not (is_app_key key) || contains order (app_name key)

-- No two `%files` sections have the same arguments, no app is twice in the order, and every app
-- with a section is in it.
abbrev pub IsTidy : Found → Type 0
IsTidy found =
    (distinct (args_of found.files) ≡ true)
    × (distinct found.app_order ≡ true)
    × (all (is_recorded found.app_order) (keys found.sections) ≡ true)

put_files-contains :
    (new : Files) (fs : List Files) (a : String)
    → contains (args_of (put_files new fs)) a ≡ (contains (args_of fs) a || new.args == a)
unfolding put_files
put_files-contains new List.[] a = ground arith
put_files-contains new (List.◌∷◌ f fs) a = elim (Bool-cases (f.args == new.args)) [
  | inl e ↦
      let same = (eq_iff f.args new.args).0 e in
      rw (put_files, e)
        (ground (
          arith,
          contains_congr (List.◌∷◌ a List.[]) f.args new.args e,
          eq_iff f.args a,
          eq_iff new.args a,
        ))
  | inr e ↦ rw (put_files, e) (ground (arith, put_files-contains new fs a))
]

put_files-distinct :
    (new : Files) (fs : List Files)
    → distinct (args_of fs) ≡ true
    → distinct (args_of (put_files new fs)) ≡ true
unfolding put_files
put_files-distinct new List.[] h = refl
put_files-distinct new (List.◌∷◌ f fs) h = elim (Bool-cases (f.args == new.args)) [
  | inl e ↦ rw (put_files, e) h
  | inr e ↦
      rw (put_files, e)
        (ground (
          arith,
          put_files-contains new fs f.args,
          put_files-distinct new fs (ground arith),
          eq_iff new.args f.args,
          eq_iff f.args new.args,
        ))
]

distinct_snoc :
    (xs : List String) (a : String)
    → distinct xs ≡ true
    → contains xs a ≡ false
    → distinct (xs ++ List.◌∷◌ a List.[]) ≡ true
distinct_snoc List.[] a h n = refl
distinct_snoc (List.◌∷◌ x xs) a h n = ground (
  arith,
  contains-append xs (List.◌∷◌ a List.[]) x,
  distinct_snoc xs a (ground arith) (ground arith),
  eq_iff a x,
  eq_iff x a,
)

add_app-distinct :
    (app : String) (order : List String)
    → distinct order ≡ true
    → distinct (add_app app order) ≡ true
unfolding add_app
add_app-distinct app order h = elim (Bool-cases (contains order app)) [
  | inl e ↦ rw e h
  | inr e ↦ rw e (distinct_snoc order app h e)
]

-- The order has an app that was added, and those it had.
add_app-contains :
    (app : String) (order : List String) (a : String)
    → contains (add_app app order) a ≡ (contains order a || app == a)
unfolding add_app
add_app-contains app order a = elim (Bool-cases (contains order app)) [
  | inl e ↦ rw e (elim (Bool-cases (app == a)) [
    | inl k ↦ ground (arith, contains_congr order app a k)
    | inr k ↦ ground arith
  ])
  | inr e ↦ rw e (contains-append order (List.◌∷◌ app List.[]) a ∙ ground arith)
]

add_script-recorded :
    (p : String → Bool) (key : String) (args : Option String) (body : String)
    (sections : Assoc Script)
    → p key ≡ true
    → all p (keys sections) ≡ true
    → all p (keys (add_script key args body sections)) ≡ true
unfolding add_script
add_script-recorded p key args body sections k h = all-keys-insert p key _ sections k h

-- An order with more apps has those of the sections that were recorded.
recorded_still :
    (app : String) (order names : List String)
    → all (is_recorded order) names ≡ true
    → all (is_recorded (add_app app order)) names ≡ true
recorded_still app order List.[] h = refl
recorded_still app order (List.◌∷◌ key names) h = ground (
  arith,
  add_app-contains app order (app_name key),
  recorded_still app order names (ground arith),
)

-- The key of an app section is recorded once its app is in the order.
app_key-recorded :
    (name app : String) (order : List String)
    → free_of b' ' name ≡ true
    → free_of b' ' app ≡ true
    → is_recorded (add_app app order) (append name (append " " app)) ≡ true
app_key-recorded name app order n a =
    rw (append-one " " app, split_two-append b' ' name " " app n refl, up_to_whole b' ' app a)
      (ground (arith, add_app-contains app order app, eq_refl app))

parse_files-IsTidy :
    (heading body : String) (found : Found)
    → IsTidy found
    → Gives IsTidy (parse_files heading body found)
unfolding parse_files
parse_files-IsTidy heading body found h =
    Gives-and_then (all_given (read_files (split b'\n' (trim_space body))))
      λ files _. value (put_files-distinct _ found.files h.0, h.1, h.2)

parse_app-IsTidy :
    (heading body : String) (found : Found)
    → IsTidy found
    → Gives IsTidy (parse_app heading body found)
unfolding parse_app
parse_app-IsTidy heading body found h =
    elim (Option-cases (split_two b' ' (trim_percent heading))) [
      | inl n ↦ rw (parse_app, n) no_value
      | inr p ↦
          let app = up_to b' ' p.0.1 in
          rw (parse_app, p.1)
            (value (
              h.0,
              add_app-distinct app found.app_order h.1,
              add_script-recorded (is_recorded (add_app app found.app_order))
                  (append p.0.0 (append " " app)) none body found.sections
                  (app_key-recorded p.0.0 app found.app_order
                    (split_two-free b' ' (trim_percent heading) p.0.0 p.0.1 p.1)
                    (up_to-free b' ' p.0.1))
                  (recorded_still app found.app_order (keys found.sections) h.2),
            ))
    ]

parse_script-IsTidy :
    (line heading body : String) (found : Found)
    → contains app_sections (up_to b' ' line) ≡ false
    → IsTidy found
    → Gives IsTidy (parse_script (up_to b' ' line) heading body found)
unfolding parse_script is_app_key
parse_script-IsTidy line heading body found n h = value (
  h.0,
  h.1,
  add_script-recorded (is_recorded found.app_order) (up_to b' ' line) (section_args heading) body
      found.sections (rw (up_to-twice b' ' line, n) refl) h.2,
)

pub parse_token_section-IsTidy :
    (tok : String) (found : Found) → IsTidy found → Gives IsTidy (parse_token_section tok found)
unfolding parse_token_section parse_section get_section_name
parse_token_section-IsTidy tok found h = elim (Option-cases (split_two b'\n' tok)) [
  | inl n ↦ rw (parse_token_section, n) no_value
  | inr p ↦
      let line = to_lower (trim_percent p.0.0) in
      rw (parse_token_section, p.1)
        (elim (Bool-cases (up_to b' ' line == "files")) [
          | inl e ↦ rw e (parse_files-IsTidy p.0.0 p.0.1 found h)
          | inr e ↦ rw e (elim (Bool-cases (contains app_sections (up_to b' ' line))) [
            | inl a ↦ rw a (parse_app-IsTidy p.0.0 p.0.1 found h)
            | inr a ↦ rw a (parse_script-IsTidy line p.0.0 p.0.1 found a h)
          ])
        ])
]

-- Parsing sections keeps what was found tidy.
pub parse_tokens-IsTidy :
    (toks : List String) (found : Found) → IsTidy found → Gives IsTidy (parse_tokens toks found)
unfolding parse_tokens
parse_tokens-IsTidy List.[] found h = value h
parse_tokens-IsTidy (List.◌∷◌ tok others) found h =
    Gives-and_then (parse_token_section-IsTidy tok found h) (parse_tokens-IsTidy others)
