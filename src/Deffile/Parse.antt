-- ===== src/Deffile/Parse.antt =====
-- pkg/build/types/parser/deffile.go: the definitions in a file, `ParseDefinitionFile` and `All`. A
-- reader gives the whole text, or none where it cannot be read.
pub mod Stages
pub mod Accepted
use Prim.Native.Char.{code}
use Prim.Native.String.{[], ◌∷◌}
use mathlib.Core.List.{List}
use apptainer.Prelude.{
  ℕ, suc, String, Bool, true, false, ◌&&◌, Option, none, some, ◌==◌, eqb, if◌then◌else◌, has_prefix,
  to_upper, trim_space,
}
use apptainer.Deffile.Texts.{take_chars, drop_chars}
use apptainer.Deffile.Types.{
  Definition, Outcome, ParseError, ok, failed, panicked, and_then, read_failed, empty_definition,
  no_stages, token_too_long, header_failed, no_definition,
}
use apptainer.Deffile.Scan.{tokens, is_percent}
use apptainer.Deffile.Sections.{Found, parse_token_section, parse_tokens}
use apptainer.Deffile.Header.{do_header}
use apptainer.Deffile.Populate.{populate_definition}

abbrev no_sections : Found
no_sections = record { sections = List.[]; files = List.[]; app_order = List.[] }

-- The error of a header is wrapped.
abbrev pub header_result : {A : Type 0} → Outcome A → Outcome A
header_result (ok a) = ok a
header_result (failed e) = failed (header_failed e)
header_result panicked = panicked

-- What the first token leaves: the header of the definition, or a first section.
unfoldable pub first_token : String → Definition → Outcome (Found × Definition)
first_token tok d =
    let trimmed = trim_space tok in
    if trimmed == ""
    then ok (no_sections, d)
    else if is_percent trimmed
    then and_then (parse_token_section trimmed no_sections) (λ found. ok (found, d))
    else and_then (header_result (do_header trimmed d.header))
        (λ header. ok (no_sections, record d { header = header }))

-- The error of the scanner, behind its tokens
abbrev pub unless_long : {A : Type 0} → Bool → Outcome A → Outcome A
unless_long true done = failed token_too_long
unless_long false done = done

-- `doSections`, from the token that the scanner stands on
unfoldable pub do_sections : String → List String → Bool → Definition → Outcome Definition
unfolding first_token
do_sections tok others long d = and_then (first_token tok d) λ first.
    and_then (parse_tokens others (first.0))
      λ found. unless_long long (populate_definition found (first.1))

-- From the first token on, which is never empty.
unfoldable pub from_tokens : String → List String × Bool → Outcome Definition
unfolding do_sections
from_tokens raw (List.[], long) = unless_long long (failed empty_definition)
from_tokens raw (List.◌∷◌ tok others, long) =
    do_sections tok others long (record no_definition { raw = raw; full_raw = raw })

-- `ParseDefinitionFile`
unfoldable pub parse_definition_file : Option String → Outcome Definition
unfolding from_tokens
parse_definition_file none = failed read_failed
parse_definition_file (some raw) = from_tokens raw (tokens raw)

-- Where `(?mi)^bootstrap:` matches: the positions of the characters, at the start of the text or of
-- a line. Letters are compared in upper case, where U+017F is an S as in the pattern.
unfoldable pub bootstraps : Bool → ℕ → String → List ℕ
bootstraps line_start i [] = List.[]
bootstraps line_start i (c ∷ s) =
    let rest = bootstraps (eqb (code c) b'\n') (suc i) s in
    if line_start && has_prefix (to_upper (c ∷ s)) "BOOTSTRAP:" then List.◌∷◌ i rest else rest

-- The loop over the positions, the last one first: what is left of the text, and the parts that
-- are split off behind it.
unfoldable pub split_at_last : List ℕ → String → String × List String
split_at_last List.[] buf = (buf, List.[])
split_at_last (List.◌∷◌ index others) buf =
    let done = split_at_last others buf in
    (take_chars index (done.0), List.◌∷◌ (drop_chars index (done.0)) (done.1))

-- `splitBuf` of a whole file
unfoldable pub split_buf : String → List String
unfolding bootstraps split_at_last
split_buf raw = let done = split_at_last (bootstraps true 0 raw) raw in List.◌∷◌ (done.0) (done.1)

-- A stage before the others. The first error ends the loop; an empty definition does not.
abbrev pub with_stage :
    String → Outcome Definition → Outcome (List Definition) → Outcome (List Definition)
with_stage raw (failed empty_definition) others = others
with_stage raw (failed e) others = failed e
with_stage raw panicked others = panicked
with_stage raw (ok d) others = and_then others λ ds. ok (List.◌∷◌ (record d { full_raw = raw }) ds)

-- The loop over the parts, empty ones left out.
unfoldable pub parse_stages : String → List String → Outcome (List Definition)
unfolding parse_definition_file
parse_stages raw List.[] = ok List.[]
parse_stages raw (List.◌∷◌ stage others) =
    if stage == ""
    then parse_stages raw others
    else with_stage raw (parse_definition_file (some stage)) (parse_stages raw others)

abbrev pub some_stages : List Definition → Outcome (List Definition)
some_stages List.[] = failed no_stages
some_stages (List.◌∷◌ d ds) = ok (List.◌∷◌ d ds)

-- `All`
unfoldable pub all_stages : Option String → Outcome (List Definition)
unfolding parse_stages split_buf
all_stages none = failed read_failed
all_stages (some raw) = and_then (parse_stages raw (split_buf raw)) some_stages
