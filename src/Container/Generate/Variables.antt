-- ===== src/Container/Generate/Variables.antt =====
-- The environment as a map: what `SetProcessEnv` and `RemoveProcessEnv` do to the value of a variable.
use Prim.Native.Char.{Char, code}
use Prim.Native.String.{[], ◌∷◌}
use Prim.Native.String.append as string_append
use mathlib.Core.List.{List}
use text.Mathlib.TextEquality.{Char-path}
use apptainer.Prelude.{
  String, Bool, true, false, ◌&&◌, Option, none, some, if◌then◌else◌, eqb, append as text_append,
  has_prefix, split_two, onto_pair, drop_text, free_of, has_prefix-append, drop_text-append, ◌≡◌,
  ◌≢◌, refl, sym, ap, ◌∙◌, arith, Bool-cases, ◌⊎◌, inl, inr,
}
use apptainer.Container.Generate.{is_for, set_env, remove_env}

-- The value of the first entry for the variable.
unfoldable pub value_of : String → List String → Option String
unfolding has_prefix drop_text
value_of k List.[] = none
value_of k (List.◌∷◌ e es) =
    if is_for k e then some (drop_text (text_append k "=") e) else value_of k es

-- A name of a variable has no `=`.
abbrev pub is_name : String → Bool
is_name k = free_of b'=' k

is_for_empty : (d : Char) (k : String) → is_for (d ∷ k) [] ≡ false
unfolding has_prefix
is_for_empty d k = rw string_append.cons refl

is_for-cons :
    (d : Char) (k : String) (c : Char) (e : String)
    → is_for (d ∷ k) (c ∷ e) ≡ (eqb (code c) (code d) && is_for k e)
unfolding has_prefix
is_for-cons d k c e = rw string_append.cons refl

drop_text-cons :
    (d : Char) (k : String) (c : Char) (e : String)
    → drop_text (text_append (d ∷ k) "=") (c ∷ e) ≡ drop_text (text_append k "=") e
unfolding drop_text
drop_text-cons d k c e = rw string_append.cons refl

is_for-split :
    (k e : String)
    → is_name k ≡ true
    → is_for k e ≡ true
    → split_two b'=' e ≡ some (k, drop_text (text_append k "=") e)
unfolding has_prefix split_two drop_text
is_for-split [] [] n h = cc
is_for-split [] (c ∷ e) n h = let here : eqb (code c) 61 ≡ true = ground arith in rw here refl
is_for-split (d ∷ k) [] n h = absurd (ground (arith, is_for_empty d k))
is_for-split (d ∷ k) (c ∷ e) n h =
    let both : (eqb (code c) (code d) && is_for k e) ≡ true = sym (is_for-cons d k c e) ∙ h in
    let same : code c ≡ code d = ground (arith, both) in
    let later : eqb (code c) 61 ≡ false = ground (arith, same) in
    rw
      (
        later,
        is_for-split k e (ground arith) (ground (arith, both)),
        drop_text-cons,
        Char-path c d same,
      )
      refl

-- An entry is for one variable.
is_for_unique :
    (j k e : String)
    → is_name j ≡ true
    → is_name k ≡ true
    → is_for j e ≡ true
    → is_for k e ≡ true
    → j ≡ k
is_for_unique j k e n m h i = ground (arith, is_for-split j e n h, is_for-split k e m i)

pub value_of-set_env_same : (k v : String) (es : List String) → value_of k (set_env k v es) ≡ some v
unfolding value_of set_env
value_of-set_env_same k v List.[] = rw (has_prefix-append, drop_text-append) refl
value_of-set_env_same k v (List.◌∷◌ e es) = elim (Bool-cases (is_for k e)) [
  | inl h ↦ rw (h, has_prefix-append, drop_text-append) refl
  | inr h ↦ rw (h, h) (value_of-set_env_same k v es)
]

other_entry :
    (j k v : String)
    → is_name j ≡ true
    → is_name k ≡ true
    → j ≢ k
    → is_for j (text_append (text_append k "=") v) ≡ false
other_entry j k v n m d = elim (Bool-cases (is_for j (text_append (text_append k "=") v))) [
  | inr h ↦ h
  | inl h ↦ absurd (
      d (
        is_for_unique j k (text_append (text_append k "=") v) n m h
          (has_prefix-append (text_append k "=") v)))
]

other_found :
    (j k e : String)
    → is_name j ≡ true
    → is_name k ≡ true
    → j ≢ k
    → is_for k e ≡ true
    → is_for j e ≡ false
other_found j k e n m d i = elim (Bool-cases (is_for j e)) [
  | inr h ↦ h
  | inl h ↦ absurd (d (is_for_unique j k e n m h i))
]

pub value_of-set_env :
    (j k v : String) (es : List String)
    → is_name j ≡ true
    → is_name k ≡ true
    → j ≢ k
    → value_of j (set_env k v es) ≡ value_of j es
unfolding value_of set_env
value_of-set_env j k v List.[] n m d = rw (other_entry j k v n m d) refl
value_of-set_env j k v (List.◌∷◌ e es) n m d = elim (Bool-cases (is_for k e)) [
  | inl h ↦ rw (h, other_entry j k v n m d, other_found j k e n m d h) refl
  | inr h ↦ elim (Bool-cases (is_for j e)) [
    | inl i ↦ rw (h, i) refl
    | inr i ↦ rw (h, i) (value_of-set_env j k v es n m d)
  ]
]

pub value_of-remove_env :
    (j k : String) (es : List String)
    → is_name j ≡ true
    → is_name k ≡ true
    → j ≢ k
    → value_of j (remove_env k es) ≡ value_of j es
unfolding value_of remove_env
value_of-remove_env j k List.[] n m d = refl
value_of-remove_env j k (List.◌∷◌ e es) n m d = elim (Bool-cases (is_for k e)) [
  | inl h ↦ rw (h, other_found j k e n m d h) refl
  | inr h ↦ elim (Bool-cases (is_for j e)) [
    | inl i ↦ rw (h, i) refl
    | inr i ↦ rw (h, i) (value_of-remove_env j k es n m d)
  ]
]

onto_pair-some :
    (c : Char) (o : Option (String × String)) (a b : String)
    → onto_pair c o ≡ some (a, b)
    → (a' : String) × (o ≡ some (a', b)) × (a ≡ c ∷ a')
onto_pair-some c none a b h = cc
onto_pair-some c (some (a', b')) a b h =
    let same : b' ≡ b = ground (arith, h) in (a', ap (λ x. some (a', x)) same, ground (arith, h))

-- The two ways in which a text splits.
split_two-cons :
    (c : Char) (e a b : String)
    → split_two b'=' (c ∷ e) ≡ some (a, b)
    → ((eqb (code c) b'=' ≡ true) × (a ≡ []))
      ⊎ ((eqb (code c) b'=' ≡ false)
          × ((a' : String) × (split_two b'=' e ≡ some (a', b)) × (a ≡ c ∷ a')))
unfolding split_two
split_two-cons c e a b h = elim (Bool-cases (eqb (code c) b'=')) [
  | inl i ↦ inl (i, ground (arith, rw i at h))
  | inr i ↦ inr (i, onto_pair-some c (split_two b'=' e) a b (rw i at h))
]

-- The name in front of the first `=` is one.
pub split_two-is_name : (e a b : String) → split_two b'=' e ≡ some (a, b) → is_name a ≡ true
unfolding split_two
split_two-is_name [] a b h = cc
split_two-is_name (c ∷ e) a b h = elim (split_two-cons c e a b h) [
  | inl (i, first) ↦ rw first refl
  | inr (i, (a', k, longer)) ↦ rw longer (ground (arith, split_two-is_name e a' b k, i))
]

-- A prefix without `=` is one of the entry where it is one of the name.
pub has_prefix-split_two :
    (p e a b : String)
    → is_name p ≡ true
    → split_two b'=' e ≡ some (a, b)
    → has_prefix e p ≡ has_prefix a p
unfolding split_two has_prefix
has_prefix-split_two [] e a b n h = refl
has_prefix-split_two (d ∷ p) [] a b n h = cc
has_prefix-split_two (d ∷ p) (c ∷ e) a b n h = elim (split_two-cons c e a b h) [
  | inl (i, first) ↦ rw first (ground (arith, i))
  | inr (i, (a', k, longer)) ↦
      rw longer
        (ap (λ x. eqb (code c) (code d) && x) (has_prefix-split_two p e a' b (ground arith) k))
]
