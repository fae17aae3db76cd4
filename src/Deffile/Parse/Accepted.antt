-- ===== src/Deffile/Parse/Accepted.antt =====
-- What the definitions have that the parser accepts.
use apptainer.Prelude.{
  String, List, [], ◌∷◌, Bool, true, false, Option, none, some, ◌==◌, All, trim_space, Bool-cases,
  inl, inr, ◌≡◌, refl,
}
use apptainer.Deffile.Types.{
  Definition, Outcome, ok, empty_definition, Gives, value, no_value, stopped, Gives-and_then,
  Gives-ok, no_definition,
}
use apptainer.Deffile.Scan.{tokens, is_percent}
use apptainer.Deffile.Sections.{Found}
use apptainer.Deffile.Sections.Tidy.{IsTidy, parse_token_section-IsTidy, parse_tokens-IsTidy}
use apptainer.Deffile.Header.Keywords.{HasKeywords, do_header-HasKeywords}
use apptainer.Deffile.Populate.Kept.{IsAccepted, populate_definition-IsAccepted}
use apptainer.Deffile.Parse.{
  no_sections, header_result, first_token, do_sections, unless_long, from_tokens,
  parse_definition_file, with_stage, parse_stages, split_buf, all_stages, some_stages,
}

-- A definition before its sections are populated.
abbrev IsStarted : Found × Definition → Type 0
IsStarted first = IsTidy first.0 × HasKeywords first.1.header × (first.1.custom_data ≡ none)

header_result-HasKeywords :
    {o : Outcome (Option (List (String × String)))}
    → Gives HasKeywords o
    → Gives HasKeywords (header_result o)
header_result-HasKeywords (value h) = value h
header_result-HasKeywords no_value = no_value
header_result-HasKeywords stopped = stopped

no_sections-IsTidy : IsTidy no_sections
no_sections-IsTidy = (refl, refl, refl)

first_token-IsStarted :
    (tok : String) (d : Definition)
    → d.header ≡ none
    → d.custom_data ≡ none
    → Gives IsStarted (first_token tok d)
unfolding first_token
first_token-IsStarted tok d h n =
    let keyed : HasKeywords d.header = rw h tt in
    elim (Bool-cases (trim_space tok == "")) [
      | inl e ↦ rw e (value (no_sections-IsTidy, keyed, n))
      | inr e ↦ rw e (elim (Bool-cases (is_percent (trim_space tok))) [
        | inl p ↦ rw p (
            Gives-and_then
              (parse_token_section-IsTidy (trim_space tok) no_sections no_sections-IsTidy)
              λ found tidy. value (tidy, keyed, n))
        | inr p ↦
            rw (p, h)
              (Gives-and_then (header_result-HasKeywords (do_header-HasKeywords (trim_space tok)))
                λ header keys. value (no_sections-IsTidy, keys, n))
      ])
    ]

unless_long-Gives :
    {A : Type 0} {P : A → Type 0} (long : Bool) {done : Outcome A}
    → Gives P done
    → Gives P (unless_long long done)
unless_long-Gives true h = no_value
unless_long-Gives false h = h

do_sections-IsAccepted :
    (tok : String) (others : List String) (long : Bool) (d : Definition)
    → d.header ≡ none
    → d.custom_data ≡ none
    → Gives IsAccepted (do_sections tok others long d)
unfolding do_sections
do_sections-IsAccepted tok others long d h n =
    Gives-and_then (first_token-IsStarted tok d h n) λ first s.
      Gives-and_then (parse_tokens-IsTidy others first.0 s.0) λ found tidy.
        unless_long-Gives long (populate_definition-IsAccepted found first.1 tidy s.1 s.2)

from_tokens-IsAccepted :
    (raw : String) (r : List String × Bool) → Gives IsAccepted (from_tokens raw r)
unfolding from_tokens
from_tokens-IsAccepted raw ([], long) = unless_long-Gives long no_value
from_tokens-IsAccepted raw (tok ∷ others, long) =
    do_sections-IsAccepted tok others long (record no_definition { raw = raw; full_raw = raw }) refl
      refl

parse_definition_file-IsAccepted :
    (raw : String) → Gives IsAccepted (parse_definition_file (some raw))
unfolding parse_definition_file
parse_definition_file-IsAccepted raw = from_tokens-IsAccepted raw (tokens raw)

-- An accepted definition with the text of the whole file
abbrev pub IsStage : String → Definition → Type 0
IsStage raw d = IsAccepted d × (d.full_raw ≡ raw)

with_stage-IsStage :
    (raw : String) {d : Outcome Definition} {others : Outcome (List Definition)}
    → Gives IsAccepted d
    → Gives (All (IsStage raw)) others
    → Gives (All (IsStage raw)) (with_stage raw d others)
with_stage-IsStage raw (value h) k = Gives-and_then k λ ds all. value ((h, refl), all)
with_stage-IsStage raw (no_value {e = empty_definition}) k = k
with_stage-IsStage raw (no_value) k = no_value
with_stage-IsStage raw stopped k = stopped

parse_stages-IsStage :
    (raw : String) (parts : List String) → Gives (All (IsStage raw)) (parse_stages raw parts)
unfolding parse_stages
parse_stages-IsStage raw [] = value tt
parse_stages-IsStage raw (part ∷ others) = elim (Bool-cases (part == "")) [
  | inl e ↦ rw e (parse_stages-IsStage raw others)
  | inr e ↦ rw e (
      with_stage-IsStage raw (parse_definition_file-IsAccepted part)
        (parse_stages-IsStage raw others))
]

some_stages-IsStage :
    (raw : String) (ds : List Definition)
    → All (IsStage raw) ds
    → Gives (All (IsStage raw)) (some_stages ds)
some_stages-IsStage raw [] h = no_value
some_stages-IsStage raw (d ∷ ds) h = value h

-- Every stage that All returns has the text of the whole file, a header of keywords, `%files`
-- sections of different arguments and an order without repetition of apps, in which every app
-- stands that has a section; and it has no other sections than the standard ones and those of apps.
pub all_stages-IsStage :
    (raw : String) (ds : List Definition) → all_stages (some raw) ≡ ok ds → All (IsStage raw) ds
unfolding all_stages
all_stages-IsStage raw ds =
    Gives-ok (Gives-and_then (parse_stages-IsStage raw (split_buf raw)) (some_stages-IsStage raw))
