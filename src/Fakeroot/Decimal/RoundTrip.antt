-- ===== src/Fakeroot/Decimal/RoundTrip.antt =====
-- Reading what is printed in decimal.
use Prim.Native.Char.{Char, code}
use Prim.Native.String.{[], ◌∷◌}
use apptainer.Prelude.{
  ℕ, zero, suc, ◌+◌, ◌-◌, ◌*◌, ◌/◌, ◌%◌, ◌^◌, ◌<◌, String, true, some, eqb, all_chars, ◌≡◌, refl,
  ap, arith, Bool-cases, inl, inr, ◌∙◌,
}
use apptainer.Fakeroot.Decimal.{
  digit, show_onto, show, is_digit, parse_from, in_uint32, parse_uint32,
}

pub code-digit : (k : ℕ) → k < 10 → code (digit k) ≡ 48 + k
unfolding digit
code-digit zero h = refl
code-digit (suc zero) h = refl
code-digit (suc (suc zero)) h = refl
code-digit (suc (suc (suc zero))) h = refl
code-digit (suc (suc (suc (suc zero)))) h = refl
code-digit (suc (suc (suc (suc (suc zero))))) h = refl
code-digit (suc (suc (suc (suc (suc (suc zero)))))) h = refl
code-digit (suc (suc (suc (suc (suc (suc (suc zero))))))) h = refl
code-digit (suc (suc (suc (suc (suc (suc (suc (suc zero)))))))) h = refl
code-digit (suc (suc (suc (suc (suc (suc (suc (suc (suc zero))))))))) h = refl
code-digit (suc (suc (suc (suc (suc (suc (suc (suc (suc (suc n)))))))))) h = absurd (omega arith)

parse_from-digit :
    (acc k : ℕ) (s : String) → k < 10 → parse_from acc (digit k ∷ s) ≡ parse_from (acc * 10 + k) s
unfolding parse_from
parse_from-digit acc k s h =
    let ok : is_digit (48 + k) ≡ true = ground arith in
    let value : 48 + k - 48 ≡ k = omega arith in rw (code-digit k h) (rw (ok, value) refl)

parse_from-show_onto :
    (f n : ℕ) (acc : String) → n < f → parse_from 0 (show_onto f n acc) ≡ parse_from n acc
unfolding show_onto
parse_from-show_onto zero n acc h = absurd (omega arith)
parse_from-show_onto (suc f) n acc h = elim (Bool-cases (eqb (n / 10) 0)) [
  | inl last ↦
      rw last
        (parse_from-digit 0 (n % 10) acc (omega arith) ∙ ap (λ k. parse_from k acc) (ground arith))
  | inr more ↦ rw more (
      parse_from-show_onto f (n / 10) (digit (n % 10) ∷ acc) (ground arith)
      ∙ parse_from-digit (n / 10) (n % 10) acc (omega arith)
      ∙ ap (λ k. parse_from k acc) (omega arith))
]

-- The text that the digits go in front of is not empty, and so neither is the result.
show_onto-cons :
    (f n : ℕ) (c : Char) (s : String) → (d : Char) × (t : String) × (show_onto f n (c ∷ s) ≡ d ∷ t)
unfolding show_onto
show_onto-cons zero n c s = (c, s, refl)
show_onto-cons (suc f) n c s = elim (Bool-cases (eqb (n / 10) 0)) [
  | inl last ↦ (digit (n % 10), c ∷ s, rw last refl)
  | inr more ↦
      let (d, t, e) = show_onto-cons f (n / 10) (digit (n % 10)) (c ∷ s) in (d, t, rw more e)
]

pub show-cons : (n : ℕ) → (d : Char) × (t : String) × (show n ≡ d ∷ t)
unfolding show show_onto
show-cons n = elim (Bool-cases (eqb (n / 10) 0)) [
  | inl last ↦ (digit (n % 10), [], rw last refl)
  | inr more ↦ let (d, t, e) = show_onto-cons n (n / 10) (digit (n % 10)) [] in (d, t, rw more e)
]

digits_show_onto :
    (f n : ℕ) (s : String)
    → all_chars is_digit s ≡ true
    → all_chars is_digit (show_onto f n s) ≡ true
unfolding show_onto
digits_show_onto zero n s h = h
digits_show_onto (suc f) n s h =
    let now : is_digit (code (digit (n % 10))) ≡ true =
      rw (code-digit (n % 10) (omega arith)) (ground arith) in
    ground (arith, now, digits_show_onto f (n / 10) (digit (n % 10) ∷ s))

-- The text of a number holds digits only.
pub digits_show : (n : ℕ) → all_chars is_digit (show n) ≡ true
unfolding show
digits_show n = digits_show_onto (suc n) n [] refl

parse_uint32_cons :
    (s : String) (d : Char) (t : String) → s ≡ d ∷ t → parse_uint32 s ≡ in_uint32 (parse_from 0 s)
unfolding parse_uint32
parse_uint32_cons s d t e = rw e refl

parse_from-show : (n : ℕ) → parse_from 0 (show n) ≡ some n
unfolding show parse_from
parse_from-show n = parse_from-show_onto (suc n) n [] (omega arith)

-- A number of 32 bits is read back from its text.
pub parse_uint32-show : (n : ℕ) → n < 2 ^ 32 → parse_uint32 (show n) ≡ some n
parse_uint32-show n h =
    let (d, t, e) = show-cons n in
    parse_uint32_cons (show n) d t e ∙ ap in_uint32 (parse_from-show n) ∙ ground arith
