-- ===== src/Ecl/Hex.antt =====
-- `hex.EncodeToString`, `hex.DecodeString` and `strings.EqualFold`, as syecl.go uses them. Case is
-- folded for ASCII letters; no other character folds to one that a fingerprint's text holds.
use Prim.Native.Char.{Char, code}
use Prim.Native.String.{[], ◌∷◌}
use mathlib.Core.List.{List}
use apptainer.Prelude.{
  ℕ, ◌+◌, ◌-◌, ◌*◌, ◌/◌, ◌%◌, String, Bool, true, false, ◌&&◌, Option, none, some, leb, eqb, get_or,
  if◌then◌else◌,
}

-- The bytes of a key's fingerprint.
abbrev pub Fingerprint : Type 0
Fingerprint = List ℕ

hex_digits : List Char
hex_digits = List.◌∷◌ "0" (
    List.◌∷◌ "1" (
      List.◌∷◌ "2" (
        List.◌∷◌ "3" (
          List.◌∷◌ "4" (
            List.◌∷◌ "5" (
              List.◌∷◌ "6" (
                List.◌∷◌ "7" (
                  List.◌∷◌ "8" (
                    List.◌∷◌ "9" (
                      List.◌∷◌ "a" (
                        List.◌∷◌ "b" (
                          List.◌∷◌ "c"
                            (List.◌∷◌ "d" (List.◌∷◌ "e" (List.◌∷◌ "f" List.[])))))))))))))))

digit : ℕ → Char
unfolding hex_digits
digit n = get_or hex_digits n "0"

unfoldable pub hex_encode : Fingerprint → String
unfolding digit
hex_encode List.[] = []
hex_encode (List.◌∷◌ b bs) = digit (b / 16) ∷ digit (b % 16) ∷ hex_encode bs

hex_value : ℕ → Option ℕ
hex_value c =
    if leb b'0' c && leb c b'9'
    then some (c - b'0')
    else if leb b'a' c && leb c b'f'
    then some (c - b'a' + 10)
    else if leb b'A' c && leb c b'F'
    then some (c - b'A' + 10)
    else none

abbrev two_digits : Option ℕ → Option ℕ → Option Fingerprint → Option Fingerprint
two_digits (some hi) (some lo) (some bs) = some (List.◌∷◌ (hi * 16 + lo) bs)
two_digits _ _ _ = none

-- `none` on an odd length or a character that is no digit.
unfoldable pub hex_decode : String → Option Fingerprint
unfolding hex_value
hex_decode [] = some List.[]
hex_decode (c ∷ []) = none
hex_decode (c ∷ d ∷ s) = two_digits (hex_value (code c)) (hex_value (code d)) (hex_decode s)

abbrev fold : ℕ → ℕ
fold c = if leb b'A' c && leb c b'Z' then c + 32 else c

unfoldable pub equal_fold : String → String → Bool
equal_fold [] [] = true
equal_fold [] (d ∷ t) = false
equal_fold (c ∷ s) [] = false
equal_fold (c ∷ s) (d ∷ t) = eqb (fold (code c)) (fold (code d)) && equal_fold s t

-- A key of the config names this fingerprint.
unfoldable pub names_key : String → Fingerprint → Bool
unfolding hex_encode equal_fold
names_key key fp = equal_fold key (hex_encode fp)
