-- ===== src/Deffile/Scan.antt =====
-- pkg/build/types/parser/deffile.go, `scanDefinitionFile`: the sections of a definition file, as
-- `bufio.Scanner` gets them. The data at an advance is held as the lines that follow it, the last
-- of them without its line feed.
pub mod Groups
pub mod Chunks
use Prim.Native.Char.{Char, code}
use Prim.Native.String.{[], ◌∷◌}
use mathlib.Core.List.{List}
use apptainer.Prelude.{
  ℕ, zero, suc, ◌-◌, String, Bool, true, false, ◌&&◌, Option, none, some, ◌==◌, eqb, ltb,
  if◌then◌else◌, length, split, join, append, is_space,
}
use apptainer.Deffile.Texts.{drop_while}

-- `dropCR` of Go's bufio
unfoldable pub drop_cr : String → String
drop_cr [] = []
drop_cr (c ∷ []) = if eqb (code c) 13 then [] else c ∷ []
drop_cr (c ∷ d ∷ s) = c ∷ drop_cr (d ∷ s)

-- Does a text begin with a percent sign?
abbrev pub is_percent : String → Bool
is_percent [] = false
is_percent (c ∷ s) = eqb (code c) b'%'

-- Does the first word of a line begin with a percent sign?
unfoldable pub is_heading : String → Bool
is_heading line = is_percent (drop_while is_space line)

-- The buffer with a line written to it.
abbrev pub write_line : String → String → String
write_line buffer line = append buffer (append line "\n")

-- What a SplitFunc returns: it asks for more data, or gives a token and the data behind it.
pub data Advance : Type 0 where
  more : Advance
  token : String → List String → Advance

abbrev finish : Bool → String → Advance
finish at_eof buffer = if at_eof then token buffer (List.◌∷◌ [] List.[]) else more

-- The loop over the lines. `fresh` tells that no line has been read (`advance == 0`).
unfoldable pub scan_lines : Bool → Bool → Bool → String → List String → Advance
scan_lines at_eof in_section fresh buffer List.[] = finish at_eof buffer
scan_lines at_eof in_section fresh buffer (List.◌∷◌ last List.[]) =
    if last == ""
    then finish at_eof buffer
    else if at_eof
    then if is_heading (drop_cr last)
      then if in_section
        then token buffer (List.◌∷◌ last List.[])
        else if fresh
        then finish at_eof (write_line buffer (drop_cr last))
        else token buffer (List.◌∷◌ last List.[])
      else finish at_eof (write_line buffer (drop_cr last))
    else more
scan_lines at_eof in_section fresh buffer (List.◌∷◌ line (List.◌∷◌ next others)) =
    let entered =
      scan_lines at_eof true false (write_line buffer (drop_cr line)) (List.◌∷◌ next others) in
    let passed =
      scan_lines at_eof in_section false (write_line buffer (drop_cr line))
        (List.◌∷◌ next others) in
    if is_heading (drop_cr line)
    then if in_section
      then token buffer (List.◌∷◌ line (List.◌∷◌ next others))
      else if fresh
      then entered
      else token buffer (List.◌∷◌ line (List.◌∷◌ next others))
    else passed

-- `scanDefinitionFile`
unfoldable pub scan_definition_file : String → Bool → Advance
unfolding scan_lines
scan_definition_file data_ at_eof = scan_lines at_eof false true "" (split b'\n' data_)

-- The bytes of a character in UTF-8
abbrev byte_count : Char → ℕ
byte_count c =
    if ltb (code c) 128
    then 1
    else if ltb (code c) 2048
    then 2
    else if ltb (code c) 65536
    then 3
    else 4

abbrev with_char : Char → Option String → Option String
with_char c none = none
with_char c (some s) = some (c ∷ s)

-- The characters that fill a buffer of so many bytes, or none where the data end before.
unfoldable pub filled : ℕ → String → Option String
filled n [] = if eqb n 0 then some [] else none
filled n (c ∷ s) =
    let further = with_char c (filled (n - byte_count c) s) in
    if ltb n (byte_count c) then some [] else further

-- MaxScanTokenSize
abbrev max_size : ℕ
max_size = 65536

abbrev asks_more : Advance → Bool
asks_more more = true
asks_more (token text others) = false

-- The Scanner gives up (ErrTooLong) where its buffer is full and has no token.
abbrev too_long_in : Option String → Bool
too_long_in none = false
too_long_in (some buffer) = asks_more (scan_definition_file buffer false)

unfoldable pub too_long : String → Bool
unfolding scan_definition_file filled
too_long rest = too_long_in (filled max_size rest)

abbrev pub with_token : String → List String × Bool → List String × Bool
with_token text (texts, long) = (List.◌∷◌ text texts, long)

-- The tokens of `bufio.Scanner` on data that has been read to its end, and whether it gives up behind
-- them. The Scanner ends when the token is nil, which it is where nothing was written to the buffer.
unfoldable pub tokens_from : ℕ → String → List String × Bool
unfolding scan_definition_file too_long
tokens_from zero rest = (List.[], false)
tokens_from (suc fuel) rest =
    if too_long rest then (List.[], true) else elim (scan_definition_file rest true) [
      | more ↦ (List.[], false)
      | token text others ↦
          if text == ""
          then (List.[], false)
          else with_token text (tokens_from fuel (join "\n" others))
    ]

-- The lines are fuel enough.
unfoldable pub tokens : String → List String × Bool
unfolding tokens_from
tokens raw = tokens_from (length (split b'\n' raw)) raw
