-- ===== src/Deffile/Header/Keywords.antt =====
-- The keys that a header is read with.
use apptainer.Prelude.{
  String, true, List, [], ◌∷◌, Option, none, some, ◌==◌, all, append, split, split_two, trim_space,
  Assoc, keys, all-keys-insert, Bool-cases, Option-cases, List-cases, inl, inr, ◌≡◌, refl,
}
use apptainer.Deffile.Texts.{cut_suffix, up_to, to_lower}
use apptainer.Deffile.Types.{Gives, value, no_value, stopped, Gives-and_then}
use mathlib.Core.Path.{subst}
use apptainer.Deffile.Sections.{is_comment}
use apptainer.Deffile.Header.{
  is_keyword, Reading, accept, end_cont, read_entry, read_line, read_header, header_of, do_header,
}

-- Every key of a header is a keyword.
abbrev pub HasKeywords : Option (Assoc String) → Type 0
HasKeywords none = Unit
HasKeywords (some header) = all is_keyword (keys header) ≡ true

-- While a new definition is read, its old header is nil.
abbrev IsSound : Reading → Type 0
IsSound r = (r.old ≡ none) × (all is_keyword (keys r.header) ≡ true)

accept-IsSound : (key val : String) (r : Reading) → IsSound r → Gives IsSound (accept key val r)
unfolding accept
accept-IsSound key val r h = elim (Option-cases (cut_suffix val "\\")) [
  | inl e ↦
      rw (accept, e)
        (elim (Bool-cases (is_keyword key)) [
          | inl k ↦ rw k (value (h.0, all-keys-insert is_keyword key val r.header k h.1))
          | inr k ↦ rw k no_value
        ])
  | inr e ↦ rw (accept, e.1) (value h)
]

end_cont-IsSound : (r : Reading) → IsSound r → Gives IsSound (end_cont r)
unfolding end_cont
end_cont-IsSound r h = elim (Bool-cases (r.key_cont == "")) [
  | inl e ↦ rw e (value h)
  | inr e ↦ rw (e, h.0) stopped
]

read_entry-IsSound : (line : String) (r : Reading) → IsSound r → Gives IsSound (read_entry line r)
unfolding read_entry
read_entry-IsSound line r h = elim (Bool-cases (r.val_cont == "")) [
  | inl e ↦ rw e (elim (Option-cases (split_two b':' line)) [
    | inl n ↦ rw n no_value
    | inr p ↦ rw p.1 (accept-IsSound (to_lower (trim_space p.0.0)) (trim_space p.0.1) r h)
  ])
  | inr e ↦ rw e (
      accept-IsSound r.key_cont (append r.val_cont (trim_space line))
        (record r { key_cont = ""; val_cont = "" }) h)
]

read_line-IsSound : (line : String) (r : Reading) → IsSound r → Gives IsSound (read_line line r)
unfolding read_line
read_line-IsSound line r h = elim (Bool-cases (is_comment (trim_space line))) [
  | inl e ↦ rw e (end_cont-IsSound r h)
  | inr e ↦ rw e (read_entry-IsSound (up_to b'#' (trim_space line)) r h)
]

read_header-IsSound :
    (lines : List String) (r : Reading) → IsSound r → Gives IsSound (read_header lines r)
unfolding read_header
read_header-IsSound [] r h = value h
read_header-IsSound (line ∷ others) r h =
    Gives-and_then (read_line-IsSound line r h) (read_header-IsSound others)

header_of-HasKeywords : (r : Reading) → IsSound r → HasKeywords (header_of r)
header_of-HasKeywords r h = elim (List-cases r.header) [
  | inl e ↦ rw (e, h.0) tt
  | inr e ↦ rw e.2 (subst (λ m. all is_keyword (keys m) ≡ true) e.2 h.1)
]

-- A header that a new definition is read with has only keywords as its keys.
pub do_header-HasKeywords : (h : String) → Gives HasKeywords (do_header h none)
unfolding do_header
do_header-HasKeywords h =
    Gives-and_then
      (read_header-IsSound (split b'\n' (trim_space h))
        (record { old = none; header = []; key_cont = ""; val_cont = "" }) (refl, refl))
      λ r s. value (header_of-HasKeywords r s)
