-- ===== src/Deffile/Regex.antt =====
-- pkg/build/types/parser/deffile.go, `fileSplitter`: a pattern of Go's regexp package that splits
-- the lines of a `%files` section, with the matcher it needs. The leftmost match is taken, and of
-- several that begin there the first that backtracking finds.
use Prim.Native.Char.{code}
use Prim.Native.String.{[], ◌∷◌}
use mathlib.Core.List.{List}
use apptainer.Deffile.Texts.{chars_of}
use apptainer.Prelude.{
  ℕ, zero, suc, String, Bool, not, ◌&&◌, ◌||◌, Option, none, some, leb, eqb, if◌then◌else◌,
  onto_pair,
}

pub data Regex : Type 0 where
  one : (ℕ → Bool) → Regex
  seq : Regex → Regex → Regex
  alt : Regex → Regex → Regex
  star : Regex → Regex

-- What follows a match: the text matched and the rest.
abbrev Match : Type 0
Match = Option (String × String)

abbrev or_else : Match → Match → Match
or_else none other = other
or_else (some found) other = some found

-- As many rounds as there are, then fewer. No round of the pattern is empty, so the characters are
-- fuel enough.
repeat : ℕ → (String → (String → Match) → Match) → String → (String → Match) → Match
repeat zero round s after = after s
repeat (suc fuel) round s after = or_else (round s (λ t. repeat fuel round t after)) (after s)

match_at : Regex → ℕ → String → (String → Match) → Match
unfolding repeat
match_at (one p) fuel [] after = none
match_at (one p) fuel (c ∷ s) after = if p (code c) then onto_pair c (after s) else none
match_at (seq a b) fuel s after = match_at a fuel s (λ t. match_at b fuel t after)
match_at (alt a b) fuel s after = or_else (match_at a fuel s after) (match_at b fuel s after)
match_at (star a) fuel s after = repeat fuel (match_at a fuel) s after

-- A match that begins at the front of the text
abbrev match_front : Regex → ℕ → String → Match
match_front r fuel s = match_at r fuel s (λ t. some ([], t))

-- The matches from the left, that do not overlap. A match is never empty, so every call leaves
-- fewer characters.
find_from : Regex → ℕ → String → List String
unfolding match_at
find_from r zero s = List.[]
find_from r (suc fuel) [] = List.[]
find_from r (suc fuel) (c ∷ s) = elim (match_front r (suc fuel) (c ∷ s)) [
  | none ↦ find_from r fuel s
  | some found ↦ List.◌∷◌ (found.0) (find_from r fuel (found.1))
]

-- `FindAllString(s, -1)`
abbrev find_all_string : Regex → String → List String
find_all_string r s = find_from r (chars_of s) s

-- `\s` and `\w`
abbrev is_blank : ℕ → Bool
is_blank c = eqb c 9 || eqb c 10 || eqb c 12 || eqb c 13 || eqb c 32

abbrev is_word : ℕ → Bool
is_word c =
    (leb b'0' c && leb c b'9')
    || (leb b'A' c && leb c b'Z')
    || (leb b'a' c && leb c b'z')
    || eqb c b'_'

abbrev plus : Regex → Regex
plus r = seq r (star r)

-- `[^\s"']` and `[^\s{}"']`
abbrev bare : Regex
bare = one (λ c. not (is_blank c || eqb c 34 || eqb c 39))

abbrev unbraced : Regex
unbraced = one (λ c. not (is_blank c || eqb c 34 || eqb c 39 || eqb c b'{' || eqb c b'}'))

-- `[^\s"']*{{\s*\w+\s*}}*[^\s{}"']*`
abbrev template : Regex
template = seq (star bare) (
    seq (one (eqb b'{')) (
      seq (one (eqb b'{')) (
        seq (star (one is_blank)) (
          seq (plus (one is_word)) (
            seq (star (one is_blank))
              (seq (one (eqb b'}')) (seq (star (one (eqb b'}'))) (star unbraced))))))))

-- `"([^"]*)"` and `'([^']*)`
abbrev quoted : Regex
quoted = seq (one (eqb 34)) (seq (star (one (λ c. not (eqb c 34)))) (one (eqb 34)))

abbrev apostrophe : Regex
apostrophe = seq (one (eqb 39)) (star (one (λ c. not (eqb c 39))))

-- `fileSplitter`
abbrev file_splitter : Regex
file_splitter = alt (plus template) (alt (plus bare) (alt quoted apostrophe))

-- `fileSplitter.FindAllString(line, -1)`
unfoldable pub split_file_line : String → List String
unfolding find_from
split_file_line line = find_all_string file_splitter line
