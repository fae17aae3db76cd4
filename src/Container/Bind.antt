-- ===== src/Container/Bind.antt =====
-- bind.go of pkg/runtime/engine/apptainer/config: bind paths as users write them. The options of
-- `bindOptions` have names of which none begins with another, so that the order in which the runtime
-- ranges over them makes no difference.
pub mod Parse
mod Examples
use Prim.Native.Char.{Char, code}
use Prim.Native.String.{[], ◌∷◌}
use mathlib.Core.List.{List}
use mathlib.Core.Option
use apptainer.Prelude.{
  ℕ, zero, suc, String, ◌++◌, Bool, true, false, not, ◌&&◌, ◌||◌, Option, none, some, if◌then◌else◌,
  eqb, ltb, ◌==◌, append as text_append, onto_first, split, trim_space, has_prefix, drop_text,
  Assoc, lookup, insert, is_some,
}

pub record BindPath : Type 0 where
  pub source : String
  pub destination : String
  pub options : Assoc String

pub data BindError : Type 0 where
  too_many_parts empty_source invalid_option wrong_syntax : BindError

pub data Result {ℓ} (A : Type ℓ) : Type ℓ where
  ok : A → Result A
  err : BindError → Result A

abbrev pub image_src_or : Option String → String
image_src_or none = ""
image_src_or (some src) = if src == "" then "/" else src

unfoldable pub image_src : BindPath → String
image_src b = image_src_or (lookup "image-src" b.options)

abbrev pub value_or_empty : Option String → String
value_or_empty none = ""
value_or_empty (some v) = v

unfoldable pub id_of : BindPath → String
id_of b = value_or_empty (lookup "id" b.options)

unfoldable pub readonly : BindPath → Bool
readonly b = is_some (lookup "ro" b.options)

-- `splitBy`: a separator counts where the character before it is no backslash and is not the separator
-- that counted last. `ready` tells that there is such a character.
unfoldable pub split_from : ℕ → Bool → String → List String
split_from sep ready [] = List.◌∷◌ [] List.[]
split_from sep ready (c ∷ s) =
    let after = split_from sep false s in
    let longer = split_from sep (not (eqb (code c) b'\\')) s in
    if ready && eqb (code c) sep then List.◌∷◌ [] after else onto_first c longer

unfoldable pub split_by : String → ℕ → List String
unfolding split_from
split_by s sep = split_from sep false s

-- `strings.ReplaceAll(s, "\\:", ":")`
unfoldable pub unescape_colons : String → String
unescape_colons [] = []
unescape_colons (c ∷ []) = c ∷ []
unescape_colons (c ∷ d ∷ s) =
    let rest = unescape_colons (d ∷ s) in
    let after = unescape_colons s in
    if eqb (code c) b'\\' && eqb (code d) b':' then d ∷ after else c ∷ rest

-- The option of a value, and its value.
unfoldable pub bind_option : String → Option (String × String)
unfolding has_prefix drop_text
bind_option v =
    if v == "ro"
    then some ("ro", "")
    else if has_prefix v "ro="
    then some ("ro", drop_text "ro=" v)
    else if v == "rw"
    then some ("rw", "")
    else if has_prefix v "rw="
    then some ("rw", drop_text "rw=" v)
    else if has_prefix v "image-src="
    then some ("image-src", drop_text "image-src=" v)
    else if has_prefix v "id="
    then some ("id", drop_text "id=" v)
    else none

abbrev pub option_then :
    Option (String × String)
    → (Assoc String → Result (Assoc String))
    → Assoc String
    → Result (Assoc String)
option_then none f m = err invalid_option
option_then (some (name, value)) f m = f (insert name value m)

unfoldable pub parse_options : List String → Assoc String → Result (Assoc String)
unfolding bind_option
parse_options List.[] m = ok m
parse_options (List.◌∷◌ v vs) m = option_then (bind_option v) (λ m'. parse_options vs m') m

abbrev pub with_options : BindPath → Result (Assoc String) → Result BindPath
with_options b (err x) = err x
with_options b (ok m) = ok (record b { options = m })

abbrev pub bind_path : String → String → BindPath
bind_path source destination = record {
  source = source;
  destination = destination;
  options = List.[];
}

abbrev pub from_source : String → List String → Result BindPath
from_source source List.[] = ok (bind_path source source)
from_source source (List.◌∷◌ destination List.[]) = ok (bind_path source destination)
from_source source (List.◌∷◌ destination (List.◌∷◌ options _)) =
    with_options (bind_path source destination) (parse_options (split b',' options) List.[])

abbrev pub from_parts : List String → Result BindPath
from_parts List.[] = err empty_source
from_parts (List.◌∷◌ first rest) =
    if unescape_colons first == ""
    then err empty_source
    else from_source (unescape_colons first) rest

abbrev pub more_than_three : List String → Bool
more_than_three (List.◌∷◌ _ (List.◌∷◌ _ (List.◌∷◌ _ (List.◌∷◌ _ _)))) = true
more_than_three _ = false

unfoldable pub new_bind_path : String → Result BindPath
unfolding split_by unescape_colons parse_options split
new_bind_path bind =
    if more_than_three (split_by bind b':')
    then err too_many_parts
    else from_parts (split_by bind b':')
