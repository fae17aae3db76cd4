-- ===== src/Deffile/Populate.antt =====
-- pkg/build/types/parser/deffile.go: the definition that the sections of a file make.
pub mod Kept
use apptainer.Prelude.{
  String, Bool, true, false, not, ◌&&◌, List, [], ◌∷◌, Option, none, some, ◌==◌, if◌then◌else◌,
  contains, select, split, split_two, trim_space, Assoc, keys, insert, delete, is_some,
}
use apptainer.Deffile.Types.{
  Script, Scripts, ImageScripts, ImageData, Data, Definition, Outcome, ok, failed, empty_definition,
  invalid_section,
}
use apptainer.Deffile.Sections.{Found, is_app_key, script_of, is_comment}

abbrev pub valid_sections : List String
valid_sections =
    "help" ∷ "setup" ∷ "files" ∷ "labels" ∷ "environment" ∷ "pre" ∷ "post" ∷ "runscript" ∷ "test"
    ∷ "startscript" ∷ "arguments" ∷ []

-- A label in a line that is no comment
abbrev label_of : String → String × String
label_of line = elim (split_two b' ' line) [
  | none ↦ (trim_space line, "")
  | some parts ↦ (trim_space (parts.0), trim_space (parts.1))
]

label_lines : List String → Assoc String → Assoc String
label_lines [] labels = labels
label_lines (line ∷ others) labels =
    let trimmed = trim_space line in
    if is_comment trimmed
    then label_lines others labels
    else label_lines others (insert ((label_of trimmed).0) ((label_of trimmed).1) labels)

-- `GetLabels`
unfoldable pub get_labels : String → Assoc String
unfolding label_lines
get_labels content = label_lines (split b'\n' (trim_space content)) []

-- `delete(sections, s)` for every standard section
unfoldable pub delete_all {ℓ} : {V : Type ℓ} → List String → Assoc V → Assoc V
delete_all [] sections = sections
delete_all (s ∷ others) sections = delete_all others (delete s sections)

-- `CustomData` of the sections that remain
abbrev pub scripts_of : Assoc Script → Assoc String
scripts_of [] = []
scripts_of (section ∷ others) = (section.0, section.1.script) ∷ scripts_of others

-- The keys that are refused; the program gives them in an order that the runtime chooses.
abbrev pub invalid_keys : Assoc Script → List String
invalid_keys sections = select (λ key. not (is_app_key key)) (keys sections)

abbrev is_nil {ℓ} : {A : Type ℓ} → List A → Bool
is_nil [] = true
is_nil (x ∷ xs) = false

abbrev is_no_script : Script → Bool
is_no_script s = s.args == "" && s.script == ""

abbrev no_scripts : Scripts → Bool
no_scripts s =
    is_no_script s.pre
    && is_no_script s.setup
    && is_no_script s.post
    && is_no_script s.test
    && is_no_script s.arguments

abbrev no_image_scripts : ImageScripts → Bool
no_image_scripts s =
    is_no_script s.help
    && is_no_script s.environment
    && is_no_script s.runscript
    && is_no_script s.test
    && is_no_script s.startscript

-- `isEmpty`; the labels, the files and the order of the apps are compared with empty ones that
-- are not nil, as `populateDefinition` leaves them.
unfoldable pub is_empty : Definition → Bool
is_empty d =
    not (is_some d.header)
    && not (is_some d.image_data.metadata)
    && is_nil d.image_data.labels
    && no_image_scripts d.image_data.image_scripts
    && is_nil d.build_data.files
    && no_scripts d.build_data.scripts
    && not (is_some d.custom_data)
    && is_nil d.app_order

-- The standard sections of a definition
image_data_of : Assoc Script → ImageData
unfolding get_labels
image_data_of sections = record {
  metadata = none;
  labels = get_labels ((script_of "labels" sections).script);
  image_scripts = record {
    help = script_of "help" sections;
    environment = script_of "environment" sections;
    runscript = script_of "runscript" sections;
    test = script_of "test" sections;
    startscript = script_of "startscript" sections;
  };
}

build_data_of : Found → Data
build_data_of found = record {
  files = found.files;
  scripts = record {
    pre = script_of "pre" found.sections;
    setup = script_of "setup" found.sections;
    post = script_of "post" found.sections;
    test = script_of "test" found.sections;
    arguments = script_of "arguments" found.sections;
  };
}

custom_data_of : Assoc Script → Option (Assoc String)
custom_data_of [] = none
custom_data_of (section ∷ others) = some (scripts_of (section ∷ others))

abbrev or_old : Option (Assoc String) → Option (Assoc String) → Option (Assoc String)
or_old none old = old
or_old (some new) old = some new

populated : Assoc Script → Found → Definition → Definition
unfolding image_data_of build_data_of custom_data_of
populated remaining found d = record {
  header = d.header;
  image_data = image_data_of found.sections;
  build_data = build_data_of found;
  custom_data = or_old (custom_data_of remaining) d.custom_data;
  raw = d.raw;
  full_raw = d.full_raw;
  app_order = found.app_order;
}

-- `populateDefinition`
unfoldable pub populate_definition : Found → Definition → Outcome Definition
unfolding delete_all populated is_empty
populate_definition found d =
    let remaining = delete_all valid_sections found.sections in
    elim (invalid_keys remaining) [
      | key ∷ others ↦ failed (invalid_section (key ∷ others))
      | [] ↦
          if is_empty (populated remaining found d)
          then failed empty_definition
          else ok (populated remaining found d)
    ]
