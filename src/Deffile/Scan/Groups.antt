-- ===== src/Deffile/Scan/Groups.antt =====
-- The tokens of a definition file against a description by its lines.
use Prim.Native.Char.{Char}
use Prim.Native.String.{[], ◌∷◌}
use Prim.Native.String.append as string_append
use mathlib.Core.List.{List, ◌++◌}
use mathlib.Core.Path.{subst}
use text.Mathlib.TextLemmas.{append_assoc, append-nil}
use apptainer.Prelude.{
  ℕ, zero, suc, ◌≤◌, String, Bool, true, false, ◌==◌, if◌then◌else◌, length, split, join, append,
  all, free_of, split-append, split-cons, split-free, split_whole, List-cases, Bool-cases, eq_iff,
  inl, inr, ◌≡◌, refl, ap, ◌∙◌, ◌⊎◌, arith,
}
use apptainer.Deffile.Scan.{
  drop_cr, is_heading, write_line, token, scan_lines, scan_definition_file, tokens_from, tokens,
  Advance, more, too_long, with_token,
}

-- The lines that the pieces of a text make: without a carriage return at their ends, and without
-- an empty one behind the last line feed.
unfoldable pub lines_of : List String → List String
lines_of List.[] = List.[]
lines_of (List.◌∷◌ last List.[]) = if last == "" then List.[] else List.◌∷◌ (drop_cr last) List.[]
lines_of (List.◌∷◌ line (List.◌∷◌ next others)) =
    List.◌∷◌ (drop_cr line) (lines_of (List.◌∷◌ next others))

-- A line before the first text
abbrev pub line_before : String → List String → List String
line_before line List.[] = List.◌∷◌ (append line "\n") List.[]
line_before line (List.◌∷◌ t ts) = List.◌∷◌ (append line (append "\n" t)) ts

-- The lines as texts, a new one for the first line and for every heading.
unfoldable pub groups : List String → List String
groups List.[] = List.[]
groups (List.◌∷◌ line List.[]) = List.◌∷◌ (append line "\n") List.[]
groups (List.◌∷◌ line (List.◌∷◌ next others)) =
    let rest = groups (List.◌∷◌ next others) in
    if is_heading next then List.◌∷◌ (append line "\n") rest else line_before line rest

-- The text of the lines before the next heading, and the pieces from there.
span_text : List String → String
span_text List.[] = ""
span_text (List.◌∷◌ last List.[]) =
    if last == "" then "" else if is_heading (drop_cr last) then "" else append (drop_cr last) "\n"
span_text (List.◌∷◌ line (List.◌∷◌ next others)) =
    let rest = span_text (List.◌∷◌ next others) in
    if is_heading (drop_cr line) then "" else append (append (drop_cr line) "\n") rest

span_rest : List String → List String
span_rest List.[] = List.◌∷◌ [] List.[]
span_rest (List.◌∷◌ last List.[]) =
    if last == ""
    then List.◌∷◌ [] List.[]
    else if is_heading (drop_cr last)
    then List.◌∷◌ last List.[]
    else List.◌∷◌ [] List.[]
span_rest (List.◌∷◌ line (List.◌∷◌ next others)) =
    let rest = span_rest (List.◌∷◌ next others) in
    if is_heading (drop_cr line) then List.◌∷◌ line (List.◌∷◌ next others) else rest

-- Once a line has been read, the loop goes to the next heading.
scan_lines-span :
    (in_section : Bool) (buffer : String) (P : List String)
    → scan_lines true in_section false buffer P ≡ token (append buffer (span_text P)) (span_rest P)
unfolding scan_lines span_text span_rest
scan_lines-span i b List.[] = rw append-nil refl
scan_lines-span i b (List.◌∷◌ last List.[]) = elim (Bool-cases (last == "")) [
  | inl e ↦ rw (e, append-nil) refl
  | inr e ↦ elim (Bool-cases (is_heading (drop_cr last))) [
    | inl h ↦ ground (arith, append-nil b)
    | inr h ↦ rw (e, h) refl
  ]
]
scan_lines-span i b (List.◌∷◌ line (List.◌∷◌ next others)) =
    elim (Bool-cases (is_heading (drop_cr line))) [
      | inl h ↦ ground (arith, append-nil b)
      | inr h ↦ rw h (
          scan_lines-span i (write_line b (drop_cr line)) (List.◌∷◌ next others)
          ∙ rw append_assoc refl)
    ]

-- The groups of the lines, a text and the others.
groups-span :
    (line : String) (P : List String)
    → groups (List.◌∷◌ line (lines_of P))
      ≡ List.◌∷◌ (append line (append "\n" (span_text P))) (groups (lines_of (span_rest P)))
unfolding groups lines_of span_text span_rest
groups-span line List.[] = rw append-nil refl
groups-span line (List.◌∷◌ last List.[]) = elim (Bool-cases (last == "")) [
  | inl e ↦ rw (e, append-nil) refl
  | inr e ↦ elim (Bool-cases (is_heading (drop_cr last))) [
    | inl h ↦ rw (e, h, append-nil) (rw e refl)
    | inr h ↦ rw (e, h) refl
  ]
]
groups-span line (List.◌∷◌ l (List.◌∷◌ next others)) = elim (Bool-cases (is_heading (drop_cr l))) [
  | inl h ↦ rw h refl
  | inr h ↦ rw h (
      ap (line_before line) (groups-span (drop_cr l) (List.◌∷◌ next others))
      ∙ rw (append_assoc) refl)
]

abbrev ends_free : List String → Bool
ends_free P = all (free_of b'\n') P

newline : (s : String) → append "\n" s ≡ "\n" ∷ s
newline s = string_append.cons "\n" [] s ∙ ap (λ t. "\n" ∷ t) (string_append.nil s)

split-join :
    (p : String) (P : List String)
    → ends_free (List.◌∷◌ p P) ≡ true
    → split b'\n' (join "\n" (List.◌∷◌ p P)) ≡ List.◌∷◌ p P
unfolding join
split-join p List.[] h = split_whole b'\n' p (ground arith)
split-join p (List.◌∷◌ q P) h = rw (newline (join "\n" (List.◌∷◌ q P))) (
    split-append b'\n' p "\n" (join "\n" (List.◌∷◌ q P)) (ground arith) refl
    ∙ ap (List.◌∷◌ p) (split-join q P (ground arith)))

-- The rest of a span has lines without line feeds, not more than there were.
span_rest-fits :
    (P : List String)
    → ends_free P ≡ true
    → (p : String) × (Q : List String) × (span_rest P ≡ List.◌∷◌ p Q)
      × (ends_free (List.◌∷◌ p Q) ≡ true)
      × (length (lines_of (List.◌∷◌ p Q)) ≤ length (lines_of P))
unfolding span_rest lines_of
span_rest-fits List.[] h = ("", List.[], refl, refl, omega arith)
span_rest-fits (List.◌∷◌ last List.[]) h = elim (Bool-cases (last == "")) [
  | inl e ↦ ("", List.[], rw e refl, refl, rw e (omega arith))
  | inr e ↦ elim (Bool-cases (is_heading (drop_cr last))) [
    | inl g ↦ (last, List.[], rw (e, g) refl, h, omega arith)
    | inr g ↦ ("", List.[], rw (e, g) refl, refl, rw e (omega arith))
  ]
]
span_rest-fits (List.◌∷◌ line (List.◌∷◌ next others)) h =
    elim (Bool-cases (is_heading (drop_cr line))) [
      | inl g ↦ (line, List.◌∷◌ next others, rw g refl, h, omega arith)
      | inr g ↦
          let fit = span_rest-fits (List.◌∷◌ next others) (ground arith) in
          (fit.0, fit.1, rw g fit.2, fit.3, omega (arith, fit.4))
    ]

not_empty : (c : Char) (s : String) → ((c ∷ s) == "") ≡ false
not_empty c s = elim (Bool-cases ((c ∷ s) == "")) [
  | inl e ↦ let empty = (eq_iff (c ∷ s) "").0 e in cc
  | inr e ↦ e
]

-- A text of at least one line is not empty.
write_line-ne : (a b : String) → (append a (append "\n" b) == "") ≡ false
write_line-ne [] b = rw (string_append.nil, newline) (not_empty "\n" b)
write_line-ne (c ∷ a) b = rw string_append.cons (not_empty c (append a (append "\n" b)))

-- A line in an empty buffer, and what is written behind it.
written : (line t : String) → append (write_line "" line) t ≡ append line (append "\n" t)
written line t = rw (string_append.nil, append_assoc) refl

-- The first token of data with a line
scan_lines-first :
    (p : String) (P : List String)
    → lines_of (List.◌∷◌ p P) ≡ List.◌∷◌ (drop_cr p) (lines_of P)
    → scan_lines true false true "" (List.◌∷◌ p P)
      ≡ token (append (drop_cr p) (append "\n" (span_text P))) (span_rest P)
unfolding scan_lines lines_of span_text span_rest
scan_lines-first p List.[] h = elim (Bool-cases (p == "")) [
  | inl e ↦ cc
  | inr e ↦ rw e (rw string_append.nil (ground arith))
]
scan_lines-first p (List.◌∷◌ q Q) h = elim (Bool-cases (is_heading (drop_cr p))) [
  | inl e ↦ rw e (
      scan_lines-span true (write_line "" (drop_cr p)) (List.◌∷◌ q Q)
      ∙ ap (λ t. token t (span_rest (List.◌∷◌ q Q)))
          (written (drop_cr p) (span_text (List.◌∷◌ q Q))))
  | inr e ↦ rw e (
      scan_lines-span false (write_line "" (drop_cr p)) (List.◌∷◌ q Q)
      ∙ ap (λ t. token t (span_rest (List.◌∷◌ q Q)))
          (written (drop_cr p) (span_text (List.◌∷◌ q Q))))
]

-- Either nothing is left, or the first piece is a line.
lines-cases :
    (p : String) (P : List String)
    → ((lines_of (List.◌∷◌ p P) ≡ List.[])
        × (scan_lines true false true "" (List.◌∷◌ p P) ≡ token "" (List.◌∷◌ [] List.[])))
      ⊎ (lines_of (List.◌∷◌ p P) ≡ List.◌∷◌ (drop_cr p) (lines_of P))
unfolding lines_of scan_lines
lines-cases p List.[] = elim (Bool-cases (p == "")) [
  | inl e ↦ inl (rw e refl, rw e refl)
  | inr e ↦ inr (rw e refl)
]
lines-cases p (List.◌∷◌ q Q) = inr refl

-- The tokens of a scanner without a bound on their size
whole_from : ℕ → String → List String
whole_from zero rest = List.[]
whole_from (suc fuel) rest = elim (scan_definition_file rest true) [
  | more ↦ List.[]
  | token text others ↦
      if text == "" then List.[] else List.◌∷◌ text (whole_from fuel (join "\n" others))
]

-- The tokens of data with these pieces
whole_from-groups :
    (f : ℕ) (raw p : String) (P : List String)
    → split b'\n' raw ≡ List.◌∷◌ p P
    → ends_free (List.◌∷◌ p P) ≡ true
    → length (lines_of (List.◌∷◌ p P)) ≤ f
    → whole_from f raw ≡ groups (lines_of (List.◌∷◌ p P))
unfolding whole_from scan_definition_file groups
whole_from-groups zero raw p P pieces h fuel = elim (List-cases (lines_of (List.◌∷◌ p P))) [
  | inl e ↦ rw e refl
  | inr e ↦ absurd (omega (arith, ap length e.2))
]
whole_from-groups (suc f) raw p P pieces h fuel = elim (lines-cases p P) [
  | inl e ↦ rw (whole_from, scan_definition_file, pieces, e.1, e.0) refl
  | inr e ↦
      let fit = span_rest-fits P (ground arith) in
      let rest =
        whole_from-groups f (join "\n" (List.◌∷◌ fit.0 fit.1)) fit.0 fit.1
          (split-join fit.0 fit.1 fit.3) fit.3 (omega (arith, ap length e, fit.4)) in
      rw
        (
          whole_from,
          scan_definition_file,
          pieces,
          scan_lines-first p P e,
          write_line-ne (drop_cr p) (span_text P),
          e,
          groups-span,
          fit.2,
        )
        (ap (List.◌∷◌ (append (drop_cr p) (append "\n" (span_text P)))) rest)
]

lines_of-length : (P : List String) → length (lines_of P) ≤ length P
unfolding lines_of
lines_of-length List.[] = omega arith
lines_of-length (List.◌∷◌ last List.[]) = ground arith
lines_of-length (List.◌∷◌ line (List.◌∷◌ next others)) =
    omega (arith, lines_of-length (List.◌∷◌ next others))

-- All the texts, or where the scanner gives up, those before the others.
abbrev pub Starts : List String × Bool → List String → Type 0
Starts (texts, false) all_texts = texts ≡ all_texts
Starts (texts, true) all_texts = (others : List String) × (all_texts ≡ texts ++ others)

with_token-Starts :
    (text : String) (r : List String × Bool) (all_texts : List String)
    → Starts r all_texts
    → Starts (with_token text r) (List.◌∷◌ text all_texts)
with_token-Starts text (texts, false) all_texts h = ap (List.◌∷◌ text) h
with_token-Starts text (texts, true) all_texts (others, h) = (others, ap (List.◌∷◌ text) h)

tokens_from-Starts : (f : ℕ) (rest : String) → Starts (tokens_from f rest) (whole_from f rest)
unfolding tokens_from whole_from
tokens_from-Starts zero rest = refl
tokens_from-Starts (suc f) rest = elim (Bool-cases (too_long rest)) [
  | inl e ↦ rw e (whole_from (suc f) rest, refl)
  | inr e ↦ rw e (step (scan_definition_file rest true) (λ r. tokens_from-Starts f r))
]
  where
    step :
        (a : Advance)
        → ((r : String) → Starts (tokens_from f r) (whole_from f r))
        → Starts
            (elim a [
              | more ↦ (List.[], false)
              | token text others ↦
                  if text == ""
                  then (List.[], false)
                  else with_token text (tokens_from f (join "\n" others))
            ])
            (elim a [
              | more ↦ List.[]
              | token text others ↦
                  if text == "" then List.[] else List.◌∷◌ text (whole_from f (join "\n" others))
            ])
    step more k = refl
    step (token text others) k = elim (Bool-cases (text == "")) [
      | inl e ↦ rw e refl
      | inr e ↦ rw e (
          with_token-Starts text (tokens_from f (join "\n" others))
            (whole_from f (join "\n" others)) (k (join "\n" others)))
    ]

-- The tokens of a file are the texts of its lines, a new one for the first line and for every heading,
-- so that no line is lost and each keeps its place; where the scanner gives up on a token that is too
-- long, they are the first of these texts.
pub tokens-groups : (raw : String) → Starts (tokens raw) (groups (lines_of (split b'\n' raw)))
unfolding tokens
tokens-groups raw =
    let pieces = split-cons b'\n' raw in
    let fuel = length (split b'\n' raw) in
    let whole : whole_from fuel raw ≡ groups (lines_of (split b'\n' raw)) = rw pieces.2 (
      whole_from-groups (length (List.◌∷◌ pieces.0 pieces.1)) raw pieces.0 pieces.1 pieces.2
        (subst (λ P. ends_free P ≡ true) pieces.2 (split-free b'\n' raw))
        (lines_of-length (List.◌∷◌ pieces.0 pieces.1))) in
    subst (Starts (tokens_from fuel raw)) whole (tokens_from-Starts fuel raw)
