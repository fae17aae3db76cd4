-- ===== src/Deffile/Raw.antt =====
-- pkg/build/types/definition.go: the text of a definition, and a definition from a URI. A header and
-- labels are written in the order of their lists; the program's order is one that the runtime
-- chooses.
pub mod Sections
use Prim.Native.String.{[], ◌∷◌}
use mathlib.Core.List.{List}
use apptainer.Prelude.{
  String, Bool, true, false, not, Option, none, some, ◌==◌, map, if◌then◌else◌, append, onto_pair,
  has_prefix, drop_text, has_infix, Assoc, lookup, delete, is_some,
}
use apptainer.Deffile.Texts.{concat}
use apptainer.Deffile.Types.{Script, FileTransport, Files, Definition, no_definition, or_default}

-- `writeSectionIfExists`
unfoldable pub write_section_if_exists : String → Script → String
write_section_if_exists ident s =
    if s.script == ""
    then ""
    else append (append "%" ident) (
        append (if s.args == "" then "" else append " " s.args)
          (append "\n" (append s.script "\n\n")))

write_transports : List FileTransport → String
write_transports List.[] = ""
write_transports (List.◌∷◌ f fs) =
    append "\t" (append f.src (append "\t" (append f.dst (append "\n" (write_transports fs)))))

-- `writeFilesIfExists`
unfoldable pub write_files_if_exists : List Files → String
unfolding write_transports
write_files_if_exists List.[] = ""
write_files_if_exists (List.◌∷◌ f fs) = append (section_of f.files) (write_files_if_exists fs)
  where
    section_of : List FileTransport → String
    section_of List.[] = ""
    section_of (List.◌∷◌ t ts) = append "%files" (
        append (if f.args == "" then "" else append " " f.args)
          (append "\n" (append (write_transports (List.◌∷◌ t ts)) "\n")))

label_lines : Assoc String → String
label_lines List.[] = ""
label_lines (List.◌∷◌ l ls) =
    append "\t" (append (l.0) (append " " (append (l.1) (append "\n" (label_lines ls)))))

-- `writeLabelsIfExists`
unfoldable pub write_labels_if_exists : Assoc String → String
unfolding label_lines
write_labels_if_exists List.[] = ""
write_labels_if_exists (List.◌∷◌ l ls) =
    append "%labels\n" (append (label_lines (List.◌∷◌ l ls)) "\n")

abbrev header_line : String → String → String
header_line key val = append key (append ": " (append val "\n"))

abbrev header_lines : Assoc String → String
header_lines List.[] = ""
header_lines (List.◌∷◌ h hs) = append (header_line (h.0) (h.1)) (header_lines hs)

-- The bootstrap is written first.
abbrev write_header : Assoc String → String
write_header header =
    append (bootstrap_line (lookup "bootstrap" header))
      (append (header_lines (delete "bootstrap" header)) "\n")
  where
    bootstrap_line : Option String → String
    bootstrap_line none = ""
    bootstrap_line (some val) = header_line "bootstrap" val

-- `populateRaw`
unfoldable pub populate_raw : Definition → String
unfolding write_section_if_exists write_files_if_exists write_labels_if_exists
populate_raw d =
    let image = d.image_data.image_scripts in
    let build = d.build_data.scripts in
    concat (
      List.◌∷◌ (write_header (or_default d.header List.[])) (
        List.◌∷◌ (write_labels_if_exists d.image_data.labels) (
          List.◌∷◌ (write_files_if_exists d.build_data.files) (
            List.◌∷◌ (write_section_if_exists "help" image.help) (
              List.◌∷◌ (write_section_if_exists "environment" image.environment) (
                List.◌∷◌ (write_section_if_exists "runscript" image.runscript) (
                  List.◌∷◌ (write_section_if_exists "test" image.test) (
                    List.◌∷◌ (write_section_if_exists "startscript" image.startscript) (
                      List.◌∷◌ (write_section_if_exists "pre" build.pre) (
                        List.◌∷◌ (write_section_if_exists "setup" build.setup) (
                          List.◌∷◌ (write_section_if_exists "post" build.post) (
                            List.◌∷◌ (write_section_if_exists "arguments" build.arguments)
                              List.[]))))))))))))

abbrev with_full_raw : String → Definition → Definition
with_full_raw buf d = record d { full_raw = buf }

-- `UpdateDefinitionRaw`. The loop that writes `Raw` writes it to a copy of each definition.
unfoldable pub update_definition_raw : List Definition → List Definition
unfolding populate_raw
update_definition_raw defs =
    let buf = concat (map populate_raw defs) in map (with_full_raw buf) defs

-- The parts of `strings.SplitN(s, sep, 2)` for a separator that is a text.
split_at_text : String → String → Option (String × String)
split_at_text sep [] = none
split_at_text sep (c ∷ s) =
    if has_prefix (c ∷ s) sep
    then some ("", drop_text sep (c ∷ s))
    else onto_pair c (split_at_text sep s)

abbrev from_parts : Option (String × String) → Option Definition
from_parts none = none
from_parts (some parts) = some (
    with_text (record no_definition {
      header = some (List.◌∷◌ ("bootstrap", parts.0) (List.◌∷◌ ("from", parts.1) List.[]));
    }))
  where
    with_text : Definition → Definition
    with_text d = record d { full_raw = populate_raw d }

-- `NewDefinitionFromURI`; none is the error of a URI without a colon.
unfoldable pub new_definition_from_uri : String → Option Definition
unfolding split_at_text
new_definition_from_uri uri =
    if has_infix uri "://"
    then from_parts (split_at_text "://" uri)
    else if has_infix uri ":"
    then from_parts (split_at_text ":" uri)
    else none
