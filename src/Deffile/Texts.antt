-- ===== src/Deffile/Texts.antt =====
-- Functions of Go's `strings` and `bufio` packages that the parser of definition files uses.
pub mod Parts
use Prim.Native.Char.{Char, code}
use Prim.Native.String.{[], ◌∷◌}
use mathlib.Core.List.{List}
use apptainer.Prelude.{
  ℕ, zero, suc, ◌-◌, String, Bool, true, false, not, ◌&&◌, Option, none, some, ◌==◌, leb, eqb,
  if◌then◌else◌, get_or, is_space, append, ◌≡◌, refl, ap, arith,
}

-- `strings.TrimLeftFunc`
unfoldable pub drop_while : (ℕ → Bool) → String → String
drop_while p [] = []
drop_while p (c ∷ s) = if p (code c) then drop_while p s else c ∷ s

abbrev before : (ℕ → Bool) → Char → String → String
before p c [] = if p (code c) then [] else c ∷ []
before p c (d ∷ s) = c ∷ d ∷ s

-- `strings.TrimRightFunc`
unfoldable pub drop_end : (ℕ → Bool) → String → String
drop_end p [] = []
drop_end p (c ∷ s) = before p c (drop_end p s)

-- `strings.TrimLeft s "%"`
abbrev pub trim_percent : String → String
trim_percent s = drop_while (eqb b'%') s

-- `strings.Trim s "\""`
abbrev pub trim_quotes : String → String
trim_quotes s = drop_while (eqb 34) (drop_end (eqb 34) s)

lower_letters : List Char
lower_letters = List.◌∷◌ "a" (
    List.◌∷◌ "b" (
      List.◌∷◌ "c" (
        List.◌∷◌ "d" (
          List.◌∷◌ "e" (
            List.◌∷◌ "f" (
              List.◌∷◌ "g" (
                List.◌∷◌ "h" (
                  List.◌∷◌ "i" (
                    List.◌∷◌ "j" (
                      List.◌∷◌ "k" (
                        List.◌∷◌ "l" (
                          List.◌∷◌ "m" (
                            List.◌∷◌ "n" (
                              List.◌∷◌ "o" (
                                List.◌∷◌ "p" (
                                  List.◌∷◌ "q" (
                                    List.◌∷◌ "r" (
                                      List.◌∷◌ "s" (
                                        List.◌∷◌ "t" (
                                          List.◌∷◌ "u" (
                                            List.◌∷◌ "v" (
                                              List.◌∷◌ "w" (
                                                List.◌∷◌ "x" (
                                                  List.◌∷◌ "y"
                                                    (List.◌∷◌ "z" List.[])))))))))))))))))))))))))

-- `unicode.ToLower` where its value is an ASCII letter; U+0130 and U+212A have one too. Any other
-- character is left as it is.
lower : Char → Char
lower c =
    if leb 65 (code c) && leb (code c) 90
    then get_or lower_letters (code c - 65) c
    else if eqb (code c) 304
    then "i"
    else if eqb (code c) 8490
    then "k"
    else c

-- `strings.ToLower`
unfoldable pub to_lower : String → String
unfolding lower lower_letters
to_lower [] = []
to_lower (c ∷ s) = lower c ∷ to_lower s

onto : Char → Option String → Option String
onto c none = none
onto c (some s) = some (c ∷ s)

-- The text before a suffix, if the text has it: `strings.HasSuffix` and `strings.TrimSuffix`.
unfoldable pub cut_suffix : String → String → Option String
unfolding onto
cut_suffix [] p = if [] == p then some [] else none
cut_suffix (c ∷ s) p = if (c ∷ s) == p then some [] else onto c (cut_suffix s p)

-- The first part of a text that is split at a character, `strings.Split(s, sep)[0]`.
unfoldable pub up_to : ℕ → String → String
up_to sep [] = []
up_to sep (c ∷ s) = if eqb (code c) sep then [] else c ∷ up_to sep s

-- `s[:n]` and `s[n:]`, by characters
unfoldable pub take_chars : ℕ → String → String
take_chars zero s = []
take_chars (suc n) [] = []
take_chars (suc n) (c ∷ s) = c ∷ take_chars n s

unfoldable pub drop_chars : ℕ → String → String
drop_chars zero s = s
drop_chars (suc n) [] = []
drop_chars (suc n) (c ∷ s) = drop_chars n s

-- The texts one after the other.
unfoldable pub concat : List String → String
concat List.[] = []
concat (List.◌∷◌ s ss) = append s (concat ss)

-- The number of characters
abbrev pub chars_of : String → ℕ
chars_of [] = zero
chars_of (c ∷ s) = suc (chars_of s)
