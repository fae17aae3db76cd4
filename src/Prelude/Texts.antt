-- ===== src/Prelude/Texts.antt =====
-- Go's `strings` functions that the program uses, on the characters of a text.
use Prim.Native.Nat.{ℕ, ◌-◌}
use Prim.Native.Char.{Char, code}
use Prim.Native.String.{String, [], ◌∷◌, ◌++◌}
use mathlib.Core.Path.{◌≡◌, refl, ap, ◌∙◌}
use native.Mathlib.Omega.{arith}
use mathlib.Core.Bool.{not, Bool, true, false, ◌&&◌, ◌||◌}
use mathlib.Core.List.{List}
use mathlib.Core.Option.{Option, none, some}
use apptainer.Prelude.Tests.{leb, eqb, if◌then◌else◌}
use apptainer.Prelude.Lists.{get_or}

-- `unicode.IsSpace`
abbrev pub is_space : ℕ → Bool
is_space c =
    (leb 9 c && leb c 13)
    || eqb c 32
    || eqb c 133
    || eqb c 160
    || eqb c 5760
    || (leb 8192 c && leb c 8202)
    || eqb c 8232
    || eqb c 8233
    || eqb c 8239
    || eqb c 8287
    || eqb c 12288

trim_left : String → String
trim_left [] = []
trim_left (c ∷ s) = if is_space (code c) then trim_left s else c ∷ s

-- A character before a text that has been trimmed at its end.
abbrev before : Char → String → String
before c [] = if is_space (code c) then [] else c ∷ []
before c (d ∷ s) = c ∷ d ∷ s

trim_right : String → String
trim_right [] = []
trim_right (c ∷ s) = before c (trim_right s)

-- `strings.TrimSpace`
unfoldable pub trim_space : String → String
unfolding trim_left trim_right
trim_space s = trim_left (trim_right s)

-- `strings.HasPrefix s p`
unfoldable pub has_prefix : String → String → Bool
has_prefix s [] = true
has_prefix [] (d ∷ p) = false
has_prefix (c ∷ s) (d ∷ p) = eqb (code c) (code d) && has_prefix s p

-- A character in front of the first field.
abbrev pub onto_first : Char → List String → List String
onto_first c List.[] = List.◌∷◌ (c ∷ []) List.[]
onto_first c (List.◌∷◌ f fs) = List.◌∷◌ (c ∷ f) fs

-- `strings.Split s sep` for a separator of one character, given by its number.
unfoldable pub split : ℕ → String → List String
split sep [] = List.◌∷◌ [] List.[]
split sep (c ∷ s) =
    if eqb (code c) sep then List.◌∷◌ [] (split sep s) else onto_first c (split sep s)

abbrev pub onto_pair : Char → Option (String × String) → Option (String × String)
onto_pair c none = none
onto_pair c (some (a, b)) = some (c ∷ a, b)

-- The parts of `strings.SplitN s sep 2`, if there are two.
unfoldable pub split_two : ℕ → String → Option (String × String)
split_two sep [] = none
split_two sep (c ∷ s) =
    let rest = onto_pair c (split_two sep s) in if eqb (code c) sep then some ([], s) else rest

-- The text without as many characters as the other one has.
unfoldable pub drop_text : String → String → String
drop_text [] s = s
drop_text (d ∷ p) [] = []
drop_text (d ∷ p) (c ∷ s) = drop_text p s

-- `strings.Join fs sep`
unfoldable pub join : String → List String → String
join sep List.[] = []
join sep (List.◌∷◌ f List.[]) = f
join sep (List.◌∷◌ f (List.◌∷◌ g fs)) = f ++ (sep ++ join sep (List.◌∷◌ g fs))

-- `s + t` on texts; `++` is the one on lists.
abbrev pub append : String → String → String
append s t = s ++ t

letters : List Char
letters = List.◌∷◌ "A" (
    List.◌∷◌ "B" (
      List.◌∷◌ "C" (
        List.◌∷◌ "D" (
          List.◌∷◌ "E" (
            List.◌∷◌ "F" (
              List.◌∷◌ "G" (
                List.◌∷◌ "H" (
                  List.◌∷◌ "I" (
                    List.◌∷◌ "J" (
                      List.◌∷◌ "K" (
                        List.◌∷◌ "L" (
                          List.◌∷◌ "M" (
                            List.◌∷◌ "N" (
                              List.◌∷◌ "O" (
                                List.◌∷◌ "P" (
                                  List.◌∷◌ "Q" (
                                    List.◌∷◌ "R" (
                                      List.◌∷◌ "S" (
                                        List.◌∷◌ "T" (
                                          List.◌∷◌ "U" (
                                            List.◌∷◌ "V" (
                                              List.◌∷◌ "W" (
                                                List.◌∷◌ "X" (
                                                  List.◌∷◌ "Y"
                                                    (List.◌∷◌ "Z" List.[])))))))))))))))))))))))))

-- `unicode.ToUpper` where its value is an ASCII letter; U+0131 and U+017F have one too. Any other
-- character is left as it is.
upper : Char → Char
upper c =
    if leb 97 (code c) && leb (code c) 122
    then get_or letters (code c - 97) c
    else if eqb (code c) 305
    then "I"
    else if eqb (code c) 383
    then "S"
    else c

-- `strings.ToUpper`
unfoldable pub to_upper : String → String
unfolding upper letters
to_upper [] = []
to_upper (c ∷ s) = upper c ∷ to_upper s

-- Every character passes the test, by its number.
abbrev pub all_chars : (ℕ → Bool) → String → Bool
all_chars p [] = true
all_chars p (c ∷ s) = p (code c) && all_chars p s

-- `strings.Contains s p`
unfoldable pub has_infix : String → String → Bool
unfolding has_prefix
has_infix [] p = has_prefix [] p
has_infix (c ∷ s) p = has_prefix (c ∷ s) p || has_infix s p

abbrev pub no_spaces : String → Bool
no_spaces s = all_chars (λ c. not (is_space c)) s

trim_right_plain : (s : String) → no_spaces s ≡ true → trim_right s ≡ s
unfolding trim_right
trim_right_plain [] h = refl
trim_right_plain (c ∷ []) h = let plain : is_space (code c) ≡ false = ground arith in rw plain refl
trim_right_plain (c ∷ d ∷ s) h = ap (before c) (trim_right_plain (d ∷ s) (ground arith))

trim_left_plain : (s : String) → no_spaces s ≡ true → trim_left s ≡ s
unfolding trim_left
trim_left_plain [] h = refl
trim_left_plain (c ∷ s) h = let plain : is_space (code c) ≡ false = ground arith in rw plain refl

pub trim_space_plain : (s : String) → no_spaces s ≡ true → trim_space s ≡ s
unfolding trim_space
trim_space_plain s h = ap trim_left (trim_right_plain s h) ∙ trim_left_plain s h
