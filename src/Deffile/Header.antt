-- ===== src/Deffile/Header.antt =====
-- pkg/build/types/parser/deffile.go, `doHeader`: the header of a definition file.
pub mod Keywords
use apptainer.Prelude.{
  ℕ, String, Bool, true, false, not, ◌&&◌, ◌||◌, List, [], ◌∷◌, Option, none, some, ◌==◌, leb,
  if◌then◌else◌, contains, split, split_two, trim_space, append, Assoc, insert,
}
use apptainer.Deffile.Texts.{drop_end, to_lower, cut_suffix, up_to}
use apptainer.Deffile.Types.{Outcome, ok, failed, panicked, and_then, no_val, invalid_keyword}
use apptainer.Deffile.Sections.{is_comment}

abbrev pub valid_headers : List String
valid_headers =
    "bootstrap" ∷ "from" ∷ "includecmd" ∷ "mirrorurl" ∷ "updateurl" ∷ "osversion" ∷ "include"
    ∷ "library" ∷ "registry" ∷ "namespace" ∷ "stage" ∷ "product" ∷ "user" ∷ "regcode" ∷ "productpgp"
    ∷ "registerurl" ∷ "modules" ∷ "otherurl&n" ∷ "fingerprints" ∷ "confurl" ∷ "setopt" ∷ "target"
    ∷ "frontend" ∷ "filename" ∷ "buildargs" ∷ []

abbrev is_digit : ℕ → Bool
is_digit c = leb b'0' c && leb c b'9'

-- `regexp.MustCompile("\d+$").ReplaceAllString(key, "&n")`
unfoldable pub number_key : String → String
number_key key = let bare = drop_end is_digit key in if bare == key then key else append bare "&n"

-- Is a key among the headers, itself or with `&n` in place of the number at its end?
unfoldable pub is_keyword : String → Bool
unfolding number_key
is_keyword key =
    contains valid_headers key
    || (not (number_key key == key) && contains valid_headers (number_key key))

-- The variables of the loop: `d.Header`, which is nil in a new definition, the header that is
-- read, and the key and the value that the next line continues.
pub record Reading : Type 0 where
  pub old : Option (Assoc String)
  pub header : Assoc String
  pub key_cont : String
  pub val_cont : String

-- `valCont` of a value before its backslash
abbrev continued : String → String
continued val = elim (cut_suffix val "\\n") [ none ↦ val | some cut ↦ append cut "\n" ]

-- A key with its value, which ends in a backslash where the next line continues it.
unfoldable pub accept : String → String → Reading → Outcome Reading
accept key val reading = elim (cut_suffix val "\\") [
  | some cut ↦ ok (record reading { key_cont = key; val_cont = continued cut })
  | none ↦
      if is_keyword key
      then ok (record reading { header = insert key val (reading.header) })
      else failed (invalid_keyword key)
]

-- An empty line or a comment, which ends a value that was continued.
unfoldable pub end_cont : Reading → Outcome Reading
end_cont reading = if reading.key_cont == "" then ok reading else elim (reading.old) [
  | none ↦ panicked
  | some old ↦ ok (record {
    old = some (insert (reading.key_cont) (reading.val_cont) old);
    header = reading.header;
    key_cont = "";
    val_cont = "";
  })
]

-- A line without its comment
read_entry : String → Reading → Outcome Reading
unfolding accept
read_entry line reading =
    if reading.val_cont == ""
    then elim (split_two b':' line) [
      | none ↦ failed (no_val line)
      | some parts ↦ accept (to_lower (trim_space (parts.0))) (trim_space (parts.1)) reading
    ]
    else accept (reading.key_cont) (append (reading.val_cont) (trim_space line))
        (record reading { key_cont = ""; val_cont = "" })

unfoldable pub read_line : String → Reading → Outcome Reading
unfolding end_cont read_entry
read_line line reading =
    let trimmed = trim_space line in
    if is_comment trimmed then end_cont reading else read_entry (up_to b'#' trimmed) reading

unfoldable pub read_header : List String → Reading → Outcome Reading
unfolding read_line
read_header [] reading = ok reading
read_header (line ∷ others) reading = and_then (read_line line reading) (read_header others)

-- The header is set where a key was found.
abbrev header_of : Reading → Option (Assoc String)
header_of reading = elim (reading.header) [
  | [] ↦ reading.old
  | entry ∷ others ↦ some (entry ∷ others)
]

-- `doHeader`, with `d.Header` before and after
unfoldable pub do_header : String → Option (Assoc String) → Outcome (Option (Assoc String))
unfolding read_header
do_header h old =
    and_then
      (read_header (split b'\n' (trim_space h))
        (record { old = old; header = []; key_cont = ""; val_cont = "" }))
      λ reading. ok (header_of reading)
