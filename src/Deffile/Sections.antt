-- ===== src/Deffile/Sections.antt =====
-- pkg/build/types/parser/deffile.go: the sections of a definition file. The maps of the parser are
-- association lists.
pub mod Tidy
use mathlib.Core.List.{List}
use apptainer.Prelude.{
  String, Bool, true, false, ◌||◌, List, [], ◌∷◌, ◌++◌, Option, none, some, ◌==◌, if◌then◌else◌,
  contains, split, split_two, trim_space, has_prefix, append, Assoc, lookup, insert, is_some,
}
use apptainer.Deffile.Texts.{trim_percent, trim_quotes, to_lower, up_to}
use apptainer.Deffile.Types.{
  Script, FileTransport, Files, Outcome, ok, failed, panicked, and_then, no_body, no_app_name,
  no_script, or_default,
}
use apptainer.Deffile.Regex.{split_file_line}

-- What `parseTokenSection` writes to.
pub record Found : Type 0 where
  pub sections : Assoc Script
  pub files : List Files
  pub app_order : List String

abbrev pub app_sections : List String
app_sections =
    "appinstall" ∷ "applabels" ∷ "appfiles" ∷ "appenv" ∷ "apptest" ∷ "apphelp" ∷ "apprun"
    ∷ "appstart" ∷ []

-- Is the first word of a key the name of an app section?
unfoldable pub is_app_key : String → Bool
is_app_key key = contains app_sections (up_to b' ' key)

-- `getSectionName`
unfoldable pub get_section_name : String → String
get_section_name line = up_to b' ' (to_lower (trim_percent line))

-- The arguments behind the name of a section, if there is a space.
abbrev pub section_args : String → Option String
section_args heading = elim (split_two b' ' (trim_percent heading)) [
  | none ↦ none
  | some parts ↦ some (parts.1)
]

abbrev transport : String → String → FileTransport
transport src dst = record {
  src = trim_quotes (trim_space src);
  dst = trim_quotes (trim_space dst);
}

-- The first two fields of a line. Without a field, `lineSubs[0]` is out of range.
file_of : List String → Outcome FileTransport
file_of [] = panicked
file_of (src ∷ []) = ok (transport src "")
file_of (src ∷ dst ∷ others) = ok (transport src dst)

abbrev pub is_comment : String → Bool
is_comment line = line == "" || has_prefix line "#"

-- The loop over the lines of a `%files` section
unfoldable pub read_files : List String → Outcome (List FileTransport)
unfolding file_of
read_files [] = ok []
read_files (line ∷ others) =
    if is_comment (trim_space line)
    then read_files others
    else and_then (file_of (split_file_line (trim_space line)))
        λ file. and_then (read_files others) λ files. ok (file ∷ files)

-- The files go to the section of the same arguments, or a new one at the end.
unfoldable pub put_files : Files → List Files → List Files
put_files new [] = new ∷ []
put_files new (old ∷ others) =
    if old.args == new.args
    then record { args = old.args; files = old.files ++ new.files } ∷ others
    else old ∷ put_files new others

-- `sections[key]`, which is made where there is none
abbrev pub script_of : String → Assoc Script → Script
script_of key sections = or_default (lookup key sections) no_script

-- `sections[key].Args = args` where there are arguments, `sections[key].Script += body`
unfoldable pub add_script : String → Option String → String → Assoc Script → Assoc Script
add_script key args body sections =
    let old = script_of key sections in
    let kept = or_default args old.args in
    insert key (record { args = kept; script = append (old.script) body }) sections

-- The order of the apps, with an app that is new at its end.
unfoldable pub add_app : String → List String → List String
add_app app order = if contains order app then order else order ++ (app ∷ [])

-- The parts of the section of a token whose lines are split from its heading
parse_files : String → String → Found → Outcome Found
unfolding read_files put_files
parse_files heading body found = and_then (read_files (split b'\n' (trim_space body))) λ files.
    let args = or_default (section_args heading) "" in
    ok (record found { files = put_files (record { args = args; files = files }) (found.files) })

-- The name of an app, the second word of its heading.
abbrev app_of : String → String
app_of rest = up_to b' ' rest

parse_app : String → String → Found → Outcome Found
unfolding add_script add_app
parse_app heading body found = elim (split_two b' ' (trim_percent heading)) [
  | none ↦ failed (no_app_name (trim_percent heading))
  | some parts ↦
      let app = app_of (parts.1) in
      ok (record found {
        sections = add_script (append (parts.0) (append " " app)) none body (found.sections);
        app_order = add_app app (found.app_order);
      })
]

unfoldable pub parse_script : String → String → String → Found → Outcome Found
unfolding add_script
parse_script key heading body found =
    ok (record found { sections = add_script key (section_args heading) body (found.sections) })

unfoldable pub parse_section : String → String → String → Found → Outcome Found
unfolding parse_files parse_app parse_script
parse_section key heading body found =
    if key == "files"
    then parse_files heading body found
    else if contains app_sections key
    then parse_app heading body found
    else parse_script key heading body found

-- `parseTokenSection`
unfoldable pub parse_token_section : String → Found → Outcome Found
unfolding parse_section get_section_name
parse_token_section tok found = elim (split_two b'\n' tok) [
  | none ↦ failed (no_body tok)
  | some parts ↦ parse_section (get_section_name (parts.0)) (parts.0) (parts.1) found
]

-- The loop over the tokens that the scanner gives
unfoldable pub parse_tokens : List String → Found → Outcome Found
unfolding parse_token_section
parse_tokens [] found = ok found
parse_tokens (tok ∷ others) found = and_then (parse_token_section tok found) (parse_tokens others)
