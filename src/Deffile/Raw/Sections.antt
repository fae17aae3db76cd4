-- ===== src/Deffile/Raw/Sections.antt =====
-- Reading the text of a section that was written.
use Prim.Native.Char.{code}
use Prim.Native.String.{[], ◌∷◌}
use Prim.Native.String.append as string_append
use mathlib.Core.Path.{sym}
use text.Mathlib.TextLemmas.{append_assoc, append-nil}
use apptainer.Prelude.{
  ℕ, String, true, false, Option, none, some, Assoc, lookup, lookup-insert, eq_iff, ◌==◌, eqb,
  if◌then◌else◌, contains, append, free_of, Bool-cases, inl, inr, ◌≡◌, refl, ap, ◌∙◌, arith,
}
use apptainer.Deffile.Texts.{drop_while, trim_percent, to_lower, up_to}
use apptainer.Deffile.Texts.Parts.{
  append-one, split_two-append, split_two_whole, up_to-append, up_to_whole,
}
use apptainer.Deffile.Types.{Script, ok, or_default}
use apptainer.Deffile.Scan.{is_percent}
use apptainer.Deffile.Sections.{
  Found, app_sections, get_section_name, section_args, parse_section, parse_script, add_script,
  parse_token_section,
}
use apptainer.Deffile.Raw.{write_section_if_exists}

-- The name of a section that is none of `%files` and none of apps: in lower case, without percent
-- sign at its front, space or line feed.
abbrev pub IsSectionName : String → Type 0
IsSectionName ident =
    (to_lower ident ≡ ident)
    × (is_percent ident ≡ false)
    × ((ident == "") ≡ false)
    × (free_of b' ' ident ≡ true)
    × (free_of b'\n' ident ≡ true)
    × ((ident == "files") ≡ false)
    × (contains app_sections ident ≡ false)

-- The arguments as `parseTokenSection` finds them.
abbrev given_args : Script → Option String
given_args s = if s.args == "" then none else some s.args

-- The heading of a section
abbrev heading_of : String → String → String
heading_of ident args = "%" ∷ append ident (if args == "" then "" else append " " args)

free_of-append :
    (sep : ℕ) (s t : String)
    → free_of sep s ≡ true
    → free_of sep t ≡ true
    → free_of sep (append s t) ≡ true
free_of-append sep [] t h k = rw string_append.nil k
free_of-append sep (c ∷ s) t h k =
    rw string_append.cons (ground (arith, free_of-append sep s t (ground arith) k))

to_lower-append : (s t : String) → to_lower (append s t) ≡ append (to_lower s) (to_lower t)
unfolding to_lower
to_lower-append [] t = rw (string_append.nil, string_append.nil) refl
to_lower-append (c ∷ s) t =
    rw (string_append.cons, to_lower, to_lower-append s t) (rw string_append.cons refl)

trim_percent_plain :
    (ident t : String)
    → is_percent ident ≡ false
    → (ident == "") ≡ false
    → trim_percent ("%" ∷ append ident t) ≡ append ident t
unfolding drop_while
trim_percent_plain [] t h n = cc
trim_percent_plain (c ∷ s) t h n =
    let other : eqb b'%' (code c) ≡ false = ground arith in rw (string_append.cons, other) refl

-- What stands behind the name in a heading
abbrev tail_of : String → String
tail_of args = if args == "" then "" else append " " args

get_section_name-heading :
    (ident args : String) → IsSectionName ident → get_section_name (heading_of ident args) ≡ ident
unfolding get_section_name up_to to_lower
get_section_name-heading ident args h =
    rw (get_section_name, trim_percent_plain ident (tail_of args) h.1 h.2, to_lower-append, h.0)
      (elim (Bool-cases (args == "")) [
        | inl e ↦ rw (e, append-nil) (up_to_whole b' ' ident h.3)
        | inr e ↦ rw (e, append-one) (up_to-append b' ' ident " " (to_lower args) h.3 refl)
      ])

section_args-heading :
    (ident args : String)
    → IsSectionName ident
    → section_args (heading_of ident args) ≡ (if args == "" then none else some args)
section_args-heading ident args h =
    rw (section_args, trim_percent_plain ident (tail_of args) h.1 h.2)
      (elim (Bool-cases (args == "")) [
        | inl e ↦ rw (e, append-nil, split_two_whole b' ' ident h.3) refl
        | inr e ↦ rw (e, append-one, split_two-append b' ' ident " " args h.3 refl) refl
      ])

-- The heading of a section is one line.
heading_of-free :
    (ident args : String)
    → free_of b'\n' ident ≡ true
    → free_of b'\n' args ≡ true
    → free_of b'\n' (heading_of ident args) ≡ true
heading_of-free ident args h k = elim (Bool-cases (args == "")) [
  | inl e ↦ rw (e, append-nil) h
  | inr e ↦ rw (e, append-one) (free_of-append b'\n' ident (" " ∷ args) h k)
]

-- The text that is written, as a heading and a body
write_section_if_exists-parts :
    (ident : String) (s : Script)
    → (s.script == "") ≡ false
    → write_section_if_exists ident s
      ≡ append (heading_of ident s.args) ("\n" ∷ append s.script "\n\n")
unfolding write_section_if_exists
write_section_if_exists-parts ident s n =
    rw (n, append-one "\n" (append s.script "\n\n"), append-one "%" ident)
      (let rest = "\n" ∷ append s.script "\n\n" in
        string_append.cons "%" ident (append (tail_of s.args) rest)
        ∙ ap (λ t. "%" ∷ t) (sym (append_assoc ident (tail_of s.args) rest))
        ∙ sym (string_append.cons "%" (append ident (tail_of s.args)) rest))

parse_token_section-written :
    (ident : String) (s : Script) (found : Found)
    → IsSectionName ident
    → (s.script == "") ≡ false
    → free_of b'\n' s.args ≡ true
    → parse_token_section (write_section_if_exists ident s) found
      ≡ ok (record found {
        sections = add_script ident (given_args s) (append s.script "\n\n") found.sections;
      })
unfolding parse_token_section parse_section parse_script write_section_if_exists
parse_token_section-written ident s found h n f =
    rw
      (
        parse_token_section,
        write_section_if_exists-parts ident s n,
        split_two-append b'\n' (heading_of ident s.args) "\n" (append s.script "\n\n")
            (heading_of-free ident s.args h.4 f) refl,
        get_section_name-heading ident s.args h,
        parse_section,
        h.5,
        h.6,
        parse_script,
        section_args-heading ident s.args h,
      )
      refl

args_given : (s : Script) → or_default (given_args s) "" ≡ s.args
args_given s = elim (Bool-cases (s.args == "")) [
  | inl e ↦ rw e (sym ((eq_iff s.args "").0 e))
  | inr e ↦ rw e refl
]

lookup-add_script :
    (ident : String) (s : Script) (sections : Assoc Script) (key : String)
    → lookup ident sections ≡ none
    → lookup key (add_script ident (given_args s) (append s.script "\n\n") sections) ≡ (
        if ident == key
        then some (record { args = s.args; script = append s.script "\n\n" })
        else lookup key sections)
unfolding add_script
lookup-add_script ident s sections key free =
    rw (lookup-insert, free, args_given s, string_append.nil) refl

-- Let a section be written whose name is one in lower case, none of `%files` and none of apps, whose
-- arguments are in one line and whose script is not empty. Read as one token, where no section of its
-- name was read, it gives the section with these arguments and its script with two line feeds behind
-- it, and leaves the other sections, the files and the apps.
pub parse_token_section-write_section_if_exists :
    (ident : String) (s : Script) (found : Found)
    → IsSectionName ident
    → (s.script == "") ≡ false
    → free_of b'\n' s.args ≡ true
    → lookup ident found.sections ≡ none
    → (after : Found) × (parse_token_section (write_section_if_exists ident s) found ≡ ok after)
      × ((key : String)
          → lookup key after.sections ≡ (
              if ident == key
              then some (record { args = s.args; script = append s.script "\n\n" })
              else lookup key found.sections))
      × (after.files ≡ found.files)
      × (after.app_order ≡ found.app_order)
parse_token_section-write_section_if_exists ident s found h n f free = (
  record found {
    sections = add_script ident (given_args s) (append s.script "\n\n") found.sections;
  },
  parse_token_section-written ident s found h n f,
  λ key. lookup-add_script ident s found.sections key free,
  refl,
  refl,
)
