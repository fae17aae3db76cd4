-- ===== src/Deffile/Parse/Stages.antt =====
-- The stages that a definition file is split into.
use Prim.Native.Char.{Char, code}
use Prim.Native.String.{[], ◌∷◌}
use Prim.Native.String.append as string_append
use mathlib.Core.List.{List}
use text.Mathlib.TextLemmas.{append_assoc, append-nil}
use apptainer.Prelude.{
  suc, ◌+◌, String, Bool, true, ◌&&◌, eqb, if◌then◌else◌, has_prefix, to_upper, append, Bool-cases,
  inl, inr, ◌≡◌, refl, ap, ◌∙◌, arith,
}
use apptainer.Deffile.Texts.{take_chars, drop_chars, chars_of}
use apptainer.Deffile.Parse.{bootstraps, split_at_last, split_buf}

-- Does a stage begin here?
abbrev pub begins : Bool → String → Bool
begins line_start s = line_start && has_prefix (to_upper s) "BOOTSTRAP:"

-- The text before the first stage that begins, and the stages from there.
unfoldable pub stages_from : Bool → String → String × List String
stages_from line_start [] = ("", List.[])
stages_from line_start (c ∷ s) =
    let rest = stages_from (eqb (code c) b'\n') s in
    if begins line_start (c ∷ s) then ("", List.◌∷◌ (c ∷ rest.0) (rest.1)) else (c ∷ rest.0, rest.1)

take_chars-append : (s t : String) → take_chars (chars_of s) (append s t) ≡ s
unfolding take_chars
take_chars-append [] t = refl
take_chars-append (c ∷ s) t = rw string_append.cons (ap (λ x. c ∷ x) (take_chars-append s t))

drop_chars-append : (s t : String) → drop_chars (chars_of s) (append s t) ≡ t
unfolding drop_chars
drop_chars-append [] t = string_append.nil t
drop_chars-append (c ∷ s) t = rw string_append.cons (drop_chars-append s t)

chars_of-append : (s t : String) → chars_of (append s t) ≡ chars_of s + chars_of t
chars_of-append [] t = rw string_append.nil (omega arith)
chars_of-append (c ∷ s) t = rw string_append.cons (omega (arith, chars_of-append s t))

one_more : (s : String) (c : Char) → chars_of (append s (c ∷ [])) ≡ suc (chars_of s)
one_more s c = omega (arith, chars_of-append s (c ∷ []))

shift : (pre : String) (c : Char) (s : String) → append (append pre (c ∷ [])) s ≡ append pre (c ∷ s)
shift pre c s =
    append_assoc pre (c ∷ []) s
    ∙ ap (append pre) (string_append.cons c [] s ∙ ap (λ t. c ∷ t) (string_append.nil s))

-- The loop over the positions behind some text
split_at_last-stages :
    (line_start : Bool) (pre s : String)
    → split_at_last (bootstraps line_start (chars_of pre) s) (append pre s)
      ≡ (append pre ((stages_from line_start s).0), (stages_from line_start s).1)
unfolding split_at_last bootstraps stages_from
split_at_last-stages b pre [] = refl
split_at_last-stages b pre (c ∷ s) =
    let after = eqb (code c) b'\n' in
    let next = stages_from after s in
    let behind = split_at_last-stages after (append pre (c ∷ [])) s in
    let rest : split_at_last (bootstraps after (suc (chars_of pre)) s) (append pre (c ∷ s))
        ≡ (append pre (c ∷ next.0), next.1) =
      rw (one_more pre c, shift pre c s, shift pre c next.0) at behind in
    elim (Bool-cases (begins b (c ∷ s))) [
      | inl e ↦ rw (e, rest) (rw (take_chars-append, drop_chars-append, append-nil) refl)
      | inr e ↦ rw e rest
    ]

-- The parts of a file are its text before the first line that begins with the key of a
-- bootstrap, and then the text from each such line to the next one.
pub split_buf-stages :
    (raw : String) → split_buf raw ≡ List.◌∷◌ ((stages_from true raw).0) ((stages_from true raw).1)
unfolding split_buf
split_buf-stages raw =
    let whole = split_at_last-stages true "" raw in
    rw (rw (string_append.nil, string_append.nil) at whole) refl
