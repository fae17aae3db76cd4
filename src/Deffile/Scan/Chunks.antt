-- ===== src/Deffile/Scan/Chunks.antt =====
-- The scan of a definition file that is read in parts.
use Prim.Native.Char.{Char, code}
use Prim.Native.String.{[], ◌∷◌}
use Prim.Native.String.append as string_append
use mathlib.Core.List.{List}
use mathlib.Core.Path.{subst}
use apptainer.Prelude.{
  String, Bool, true, false, ◌==◌, eqb, split, append, onto_first, Bool-cases, split-cons, inl, inr,
  ◌≡◌, refl, ap,
}
use apptainer.Deffile.Scan.{
  drop_cr, is_heading, write_line, Advance, token, more, scan_lines, scan_definition_file,
}

-- The pieces of a text that goes on: the first piece of the continuation belongs to the last one.
unfoldable pub continue_lines : List String → List String → List String
continue_lines List.[] next = next
continue_lines (List.◌∷◌ last List.[]) List.[] = List.◌∷◌ last List.[]
continue_lines (List.◌∷◌ last List.[]) (List.◌∷◌ q next) = List.◌∷◌ (append last q) next
continue_lines (List.◌∷◌ p (List.◌∷◌ line others)) next =
    List.◌∷◌ p (continue_lines (List.◌∷◌ line others) next)

continue_lines-cons :
    (p : String) (P next : List String)
    → (q : String) × (Q : List String) × (continue_lines (List.◌∷◌ p P) next ≡ List.◌∷◌ q Q)
unfolding continue_lines
continue_lines-cons p List.[] List.[] = (p, List.[], refl)
continue_lines-cons p List.[] (List.◌∷◌ q next) = (append p q, next, refl)
continue_lines-cons p (List.◌∷◌ line others) next =
    (p, continue_lines (List.◌∷◌ line others) next, refl)

abbrev continued : List String → Advance → Advance
continued next more = more
continued next (token text rest) = token text (continue_lines rest next)

scan_lines-continue :
    (at_eof in_section fresh : Bool) (buffer text : String) (P rest next : List String)
    → scan_lines false in_section fresh buffer P ≡ token text rest
    → scan_lines at_eof in_section fresh buffer (continue_lines P next)
      ≡ token text (continue_lines rest next)
unfolding scan_lines continue_lines
scan_lines-continue e i f b t List.[] rest next h = cc
scan_lines-continue e i f b t (List.◌∷◌ last List.[]) rest next h =
    absurd (elim (Bool-cases (last == "")) [ inl g ↦ cc | inr g ↦ cc ])
scan_lines-continue e i f b t (List.◌∷◌ line (List.◌∷◌ l others)) rest next h =
    let longer = continue_lines-cons l others next in
    let step : (j : Bool)
        → scan_lines false j false (write_line b (drop_cr line)) (List.◌∷◌ l others) ≡ token t rest
        → scan_lines e j false (write_line b (drop_cr line)) (List.◌∷◌ longer.0 longer.1)
          ≡ token t (continue_lines rest next) =
      λ j g.
        subst
          (λ X.
            scan_lines e j false (write_line b (drop_cr line)) X
            ≡ token t (continue_lines rest next))
          longer.2
          (scan_lines-continue e j false (write_line b (drop_cr line)) t (List.◌∷◌ l others) rest
            next g) in
    let stop : token b (List.◌∷◌ line (List.◌∷◌ l others)) ≡ token t rest
        → token b (List.◌∷◌ line (List.◌∷◌ longer.0 longer.1))
          ≡ token t (continue_lines rest next) =
      λ g.
        subst (λ X. token b (List.◌∷◌ line X) ≡ token t (continue_lines rest next)) longer.2
          (ap (continued next) g) in
    elim (Bool-cases (is_heading (drop_cr line))) [
      | inl g ↦ elim (Bool-cases i) [
        | inl k ↦ rw (longer.2, g, k) (stop (rw (g, k) at h))
        | inr k ↦ elim (Bool-cases f) [
          | inl m ↦ rw (longer.2, g, k, m) (step true (rw (g, k, m) at h))
          | inr m ↦ rw (longer.2, g, k, m) (stop (rw (g, k, m) at h))
        ]
      ]
      | inr g ↦ rw (longer.2, g) (step i (rw g at h))
    ]

continue_lines-onto :
    (c : Char) (P next : List String) (p : String) (Q : List String)
    → P ≡ List.◌∷◌ p Q
    → onto_first c (continue_lines P next) ≡ continue_lines (onto_first c P) next
unfolding continue_lines
continue_lines-onto c List.[] next p Q h = cc
continue_lines-onto c (List.◌∷◌ p List.[]) List.[] q Q h = refl
continue_lines-onto c (List.◌∷◌ p List.[]) (List.◌∷◌ r next) q Q h = rw string_append.cons refl
continue_lines-onto c (List.◌∷◌ p (List.◌∷◌ r P)) next q Q h = refl

split-continue :
    (s t : String) → split b'\n' (append s t) ≡ continue_lines (split b'\n' s) (split b'\n' t)
unfolding split continue_lines
split-continue [] t =
    let rest = split-cons b'\n' t in rw (string_append.nil, rest.2, string_append.nil) refl
split-continue (c ∷ s) t = rw string_append.cons (elim (Bool-cases (eqb (code c) b'\n')) [
  | inl e ↦ rw (e, split-continue s t) (let rest = split-cons b'\n' s in rw rest.2 refl)
  | inr e ↦
      let rest = split-cons b'\n' s in
      rw (e, split-continue s t)
        (continue_lines-onto c (split b'\n' s) (split b'\n' t) rest.0 rest.1 rest.2)
])

-- Where the scan gives a token before the end of the data, it gives this token however the data
-- go on, with the pieces that then follow.
pub scan_definition_file-continue :
    (data_ next text : String) (rest : List String) (at_eof : Bool)
    → scan_definition_file data_ false ≡ token text rest
    → scan_definition_file (append data_ next) at_eof
      ≡ token text (continue_lines rest (split b'\n' next))
unfolding scan_definition_file
scan_definition_file-continue data_ next text rest e h =
    rw split-continue
      (scan_lines-continue e false true "" text (split b'\n' data_) rest (split b'\n' next) h)
