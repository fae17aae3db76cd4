-- ===== src/Fakeroot/Decimal.antt =====
-- `strconv.ParseUint(s, 10, 32)` and the `%d` of fmt, for numbers that are not negative.
pub mod RoundTrip
use Prim.Native.Char.{Char, code}
use Prim.Native.String.{[], ◌∷◌}
use mathlib.Core.List
use mathlib.Core.List.{List}
use apptainer.Prelude.{
  ℕ, zero, suc, ◌+◌, ◌-◌, ◌*◌, ◌/◌, ◌%◌, ◌^◌, String, Bool, ◌&&◌, Option, none, some, leb, ltb, eqb,
  get_or, if◌then◌else◌,
}

digits : List Char
digits = List.◌∷◌ "0" (
    List.◌∷◌ "1" (
      List.◌∷◌ "2" (
        List.◌∷◌ "3" (
          List.◌∷◌ "4"
            (List.◌∷◌ "5" (List.◌∷◌ "6" (List.◌∷◌ "7" (List.◌∷◌ "8" (List.◌∷◌ "9" List.[])))))))))

pub digit : ℕ → Char
unfolding digits
digit n = get_or digits n "0"

-- The digits of `n` in front of `acc`; `n` is a bound on the rounds.
pub show_onto : ℕ → ℕ → String → String
show_onto zero n acc = acc
show_onto (suc f) n acc =
    let acc' = digit (n % 10) ∷ acc in
    let more = show_onto f (n / 10) acc' in if eqb (n / 10) 0 then acc' else more

unfoldable pub show : ℕ → String
unfolding show_onto digit
show n = show_onto (suc n) n []

abbrev pub is_digit : ℕ → Bool
is_digit c = leb b'0' c && leb c b'9'

-- The value of `acc` followed by the digits of the text.
pub parse_from : ℕ → String → Option ℕ
parse_from acc [] = some acc
parse_from acc (c ∷ s) =
    if is_digit (code c) then parse_from (acc * 10 + (code c - b'0')) s else none

abbrev pub in_uint32 : Option ℕ → Option ℕ
in_uint32 none = none
in_uint32 (some n) = if ltb n (2 ^ 32) then some n else none

-- `none` is a syntax error or a value out of range.
unfoldable pub parse_uint32 : String → Option ℕ
unfolding parse_from
parse_uint32 [] = none
parse_uint32 (c ∷ s) = in_uint32 (parse_from 0 (c ∷ s))
