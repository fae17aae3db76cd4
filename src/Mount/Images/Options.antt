-- ===== src/Mount/Images/Options.antt =====
-- Texts of options: plain ones, and how a list of them splits.
use Prim.Native.String.append as string_append
use text.Mathlib.TextLemmas.{append_assoc}
use apptainer.Prelude.{
  ℕ, String, List, ◌∷◌, Bool, true, false, not, ◌&&◌, eqb, ◌==◌, eq_iff, append, split,
  split-append, free_of, no_spaces, trim_space_plain, has_prefix, all_chars, is_space, ◌≡◌, refl,
  ap, ◌∙◌, arith, Bool-cases, inl, inr,
}
use apptainer.Mount.Points.{given_options, key_of}

abbrev pub is_plain : String → Bool
is_plain s = free_of b',' s && no_spaces s

all_chars-append :
    (p : ℕ → Bool) (s t : String) → all_chars p (append s t) ≡ (all_chars p s && all_chars p t)
all_chars-append p String.[] t = rw string_append.nil refl
all_chars-append p (String.◌∷◌ c s) t =
    rw string_append.cons (ground (arith, all_chars-append p s t))

all_chars_both :
    (p : ℕ → Bool) (s t : String)
    → all_chars p s ≡ true
    → all_chars p t ≡ true
    → all_chars p (append s t) ≡ true
all_chars_both p s t h k = all_chars-append p s t ∙ ap (λ b. b && all_chars p t) h ∙ k

and_left : (a b : Bool) → (a && b) ≡ true → a ≡ true
and_left a b h = ground arith

and_right : (a b : Bool) → (a && b) ≡ true → b ≡ true
and_right a b h = ground arith

both : (a b : Bool) → a ≡ true → b ≡ true → (a && b) ≡ true
both a b h k = ground arith

pub has_no_comma : (s : String) → is_plain s ≡ true → free_of b',' s ≡ true
has_no_comma s h = and_left (free_of b',' s) (no_spaces s) h

pub has_no_space : (s : String) → is_plain s ≡ true → no_spaces s ≡ true
has_no_space s h = and_right (free_of b',' s) (no_spaces s) h

pub is_plain-append :
    (s t : String) → is_plain s ≡ true → is_plain t ≡ true → is_plain (append s t) ≡ true
is_plain-append s t h k =
    both (free_of b',' (append s t)) (no_spaces (append s t))
      (all_chars_both (λ c. not (eqb c b',')) s t (has_no_comma s h) (has_no_comma t k))
      (all_chars_both (λ c. not (is_space c)) s t (has_no_space s h) (has_no_space t k))

pub flat :
    (a b c x d y e z t : String)
    → append
        (append
          (append a (append b c))
          (append x (append (append b d) (append y (append (append b e) z)))))
        t
      ≡ append a (
          append b (
            append
              (append c x)
              (append b (append (append d y) (append b (append (append e z) t))))))
flat a b c x d y e z t = simp append_assoc

comma : (t : String) → append "," t ≡ String.◌∷◌ "," t
comma t = string_append.cons "," "" t ∙ ap (String.◌∷◌ ",") (string_append.nil t)

split-comma :
    (s t : String) → free_of b',' s ≡ true → split b',' (append s (append "," t)) ≡ s ∷ split b',' t
split-comma s t h = rw comma (split-append b',' s "," t h refl)

pub split_laid :
    (a x y z t : String)
    → free_of b',' a ≡ true
    → free_of b',' x ≡ true
    → free_of b',' y ≡ true
    → split b','
        (append a (append "," (append x (append "," (append y (append "," (append z t)))))))
      ≡ a ∷ x ∷ y ∷ split b',' (append z t)
split_laid a x y z t h k l =
    split-comma a _ h ∙ ap (λ r. a ∷ r) (split-comma x _ k ∙ ap (λ r. x ∷ r) (split-comma y _ l))

-- A plain option that is not empty is given as it is.
pub given-cons :
    (o : String) (os : List String)
    → is_plain o ≡ true
    → (o == "") ≡ false
    → given_options (o ∷ os) ≡ o ∷ given_options os
unfolding given_options
given-cons o os h n = rw (trim_space_plain o (has_no_space o h), n) refl

pub option_name :
    (k x : String) → free_of b'=' k ≡ true → key_of (split b'=' (append (append k "=") x)) ≡ k
option_name k x h =
    ap (λ o. key_of (split b'=' o))
      (append_assoc k "=" x
        ∙ ap (append k) (string_append.cons "=" "" x ∙ ap (String.◌∷◌ "=") (string_append.nil x)))
    ∙ ap key_of (split-append b'=' k "=" x h refl)

pub not_empty : (o p : String) → has_prefix o p ≡ true → has_prefix "" p ≡ false → (o == "") ≡ false
not_empty o p h k = elim (Bool-cases (o == "")) [
  | inr e ↦ e
  | inl e ↦ ground (arith, ap (λ x. has_prefix x p) ((eq_iff o "").0 e))
]
