-- ===== src/Deffile/Examples.antt =====
-- Runs of the parser of definition files, and its theorems at concrete files.
use mathlib.Core.List.{List}
use apptainer.Prelude.{
  lookup, if◌then◌else◌, ◌==◌, String, Bool, true, false, All, none, some, ◌↔◌, split, append, ◌≡◌,
  refl,
}
use apptainer.Deffile.Types.{
  Script, Definition, Outcome, ok, failed, panicked, no_body, invalid_section,
}
use apptainer.Deffile.Regex.{split_file_line}
use apptainer.Deffile.Scan.{Advance, token, scan_definition_file, tokens}
use apptainer.Deffile.Scan.Groups.{Starts, lines_of, groups, tokens-groups}
use apptainer.Deffile.Scan.Chunks.{continue_lines, scan_definition_file-continue}
use apptainer.Deffile.Sections.{Found, read_files, add_script, parse_token_section}
use apptainer.Deffile.Header.{Reading, read_line, do_header}
use apptainer.Deffile.Parse.{all_stages, split_buf, parse_definition_file}
use apptainer.Deffile.Parse.Stages.{stages_from, split_buf-stages}
use apptainer.Deffile.Parse.Accepted.{IsStage, all_stages-IsStage}
use apptainer.Deffile.Raw.{write_section_if_exists}
use apptainer.Deffile.Raw.Sections.{parse_token_section-write_section_if_exists}

-- Two stages, with `%files` sections of the same arguments and the section of an app.
abbrev two_stages : String
two_stages =
    "Bootstrap: docker\nFrom: alpine # c\n\n%post\n  a\r\n  b\n%files in\na b\n\"c d\" e\n%appinstall foo\nx\n%files in\nq\nbootstrap: x\\\n y\n%help a b\nhi"

abbrev small : String
small = "from: a\n%files\nb c\n%appenv x\ny\n"

abbrev stages_in : Outcome (List Definition) → List Definition
stages_in (ok ds) = ds
stages_in (failed e) = List.[]
stages_in panicked = List.[]

abbrev started : Found
started = record {
  sections = List.◌∷◌ ("post", record { args = ""; script = "old\n" }) List.[];
  files = List.[];
  app_order = List.[];
}

abbrev post : Script
post = record { args = "-c sh"; script = "make\n" }

abbrev continued : Reading
continued = record { old = none; header = List.[]; key_cont = "from"; val_cont = "a" }

split_file_line_templates :
    split_file_line "a{{ b }}c d\"e f\"'g h"
    ≡ List.◌∷◌ "a{{ b }}c" (List.◌∷◌ "d" (List.◌∷◌ "\"e f\"" (List.◌∷◌ "'g h" List.[])))
unfolding split_file_line
split_file_line_templates = refl

-- A lone quotation mark in a `%files` section is no field at all.
read_files_quote : read_files (List.◌∷◌ "\"" List.[]) ≡ panicked
unfolding read_files split_file_line apptainer.Prelude.trim_space apptainer.Prelude.has_prefix
read_files_quote = refl

-- The value of a line that ends in a backslash goes on in the next line.
do_header_continued : do_header "from: a\\\n b" none ≡ ok (some (List.◌∷◌ ("from", "ab") List.[]))
unfolding do_header split apptainer.Prelude.trim_space apptainer.Prelude.has_prefix
    apptainer.Prelude.split_two apptainer.Deffile.Texts.up_to apptainer.Deffile.Texts.cut_suffix
    apptainer.Deffile.Header.is_keyword apptainer.Deffile.Texts.to_lower apptainer.Prelude.insert
do_header_continued = refl

-- Without a next line it is dropped, with its key.
do_header_dropped :
    do_header "bootstrap: docker\nfrom: a\\" none
    ≡ ok (some (List.◌∷◌ ("bootstrap", "docker") List.[]))
unfolding do_header split apptainer.Prelude.trim_space apptainer.Prelude.has_prefix
    apptainer.Prelude.split_two apptainer.Deffile.Texts.up_to apptainer.Deffile.Texts.cut_suffix
    apptainer.Deffile.Header.is_keyword apptainer.Deffile.Texts.to_lower apptainer.Prelude.insert
do_header_dropped = refl

-- The section of an app is found by its name in lower case, but kept by the name as written.
app_in_capitals :
    parse_definition_file (some "%help\nx\n%AppInstall foo\ny\n")
    ≡ failed (invalid_section (List.◌∷◌ "AppInstall foo" List.[]))
unfolding parse_definition_file tokens split apptainer.Deffile.Scan.is_heading
    apptainer.Deffile.Texts.drop_while apptainer.Deffile.Scan.drop_cr apptainer.Prelude.trim_space
    parse_token_section apptainer.Prelude.split_two apptainer.Deffile.Texts.up_to
    apptainer.Deffile.Texts.to_lower apptainer.Deffile.Sections.parse_tokens apptainer.Prelude.join
    apptainer.Deffile.Populate.populate_definition apptainer.Prelude.delete apptainer.Prelude.insert
    apptainer.Deffile.Sections.is_app_key
app_in_capitals = refl

-- A section without a body is refused where it comes first.
first_without_body : parse_definition_file (some "%help\n\n%post\nx\n") ≡ failed (no_body "%help")
unfolding parse_definition_file tokens split apptainer.Deffile.Scan.is_heading
    apptainer.Deffile.Texts.drop_while apptainer.Deffile.Scan.drop_cr apptainer.Prelude.trim_space
    parse_token_section apptainer.Prelude.split_two
first_without_body = refl

tokens-groups_example : Starts (tokens two_stages) (groups (lines_of (split b'\n' two_stages)))
tokens-groups_example = tokens-groups two_stages

scan_definition_file-continue_example :
    scan_definition_file (append "from: a\n%post\nx" "y\n") true
    ≡ token "from: a\n"
        (continue_lines (List.◌∷◌ "%post" (List.◌∷◌ "x" List.[])) (split b'\n' "y\n"))
unfolding scan_definition_file split apptainer.Deffile.Scan.is_heading
    apptainer.Deffile.Texts.drop_while apptainer.Deffile.Scan.drop_cr
scan_definition_file-continue_example =
    scan_definition_file-continue "from: a\n%post\nx" "y\n" "from: a\n"
      (List.◌∷◌ "%post" (List.◌∷◌ "x" List.[])) true refl

split_buf-stages_example :
    split_buf two_stages
    ≡ List.◌∷◌ ((stages_from true two_stages).0) ((stages_from true two_stages).1)
split_buf-stages_example = split_buf-stages two_stages

all_stages-IsStage_example : All (IsStage small) (stages_in (all_stages (some small)))
unfolding all_stages apptainer.Prelude.has_prefix apptainer.Prelude.to_upper
    apptainer.Deffile.Texts.take_chars apptainer.Deffile.Texts.drop_chars tokens split
    apptainer.Deffile.Scan.is_heading apptainer.Deffile.Texts.drop_while
    apptainer.Deffile.Scan.drop_cr apptainer.Prelude.trim_space do_header
    apptainer.Prelude.split_two apptainer.Deffile.Texts.up_to apptainer.Deffile.Texts.cut_suffix
    apptainer.Deffile.Header.is_keyword apptainer.Deffile.Texts.to_lower
    apptainer.Deffile.Sections.parse_tokens apptainer.Deffile.Sections.add_app
    apptainer.Deffile.Sections.add_script apptainer.Deffile.Sections.get_section_name
    apptainer.Deffile.Sections.is_app_key split_file_line apptainer.Deffile.Sections.put_files
    read_files apptainer.Deffile.Texts.drop_end apptainer.Prelude.delete apptainer.Prelude.insert
    apptainer.Prelude.lookup apptainer.Prelude.join apptainer.Deffile.Populate.populate_definition
all_stages-IsStage_example = all_stages-IsStage small (stages_in (all_stages (some small))) refl

parse_token_section-write_section_if_exists_example :
    (after : Found) × (parse_token_section (write_section_if_exists "test" post) started ≡ ok after)
    × ((key : String)
        → lookup key after.sections ≡ (
            if "test" == key
            then some (record { args = post.args; script = append post.script "\n\n" })
            else lookup key started.sections))
    × (after.files ≡ started.files)
    × (after.app_order ≡ started.app_order)
unfolding apptainer.Deffile.Texts.to_lower lookup
parse_token_section-write_section_if_exists_example =
    parse_token_section-write_section_if_exists "test" post started
      (refl, refl, refl, refl, refl, refl, refl) refl refl refl
