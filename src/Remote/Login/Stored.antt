-- ===== src/Remote/Login/Stored.antt =====
-- The credentials that `Login` and `Logout` leave.
use mathlib.Core.List.{append-nil, append_assoc}
use apptainer.Prelude.{
  ℕ, zero, suc, ◌+◌, ◌*◌, ◌<◌, ◌≤◌, String, List, [], ◌∷◌, ◌++◌, Bool, true, not, some,
  if◌then◌else◌, length, length-append, select, all, ◌≡◌, refl, sym, ap, ◌∙◌, arith, Bool-cases,
  inl, inr,
}
use apptainer.Remote.Uri.{Parse, same_uri}
use apptainer.Remote.Keyservers.{Credential}
use apptainer.Remote.Config.{Config}
use apptainer.Remote.Login.{ok, drop_same, rounds, logout}

-- The credential is of another URI.
abbrev pub is_other : Parse → String → Credential → Bool
is_other parse uri c = not (same_uri parse c.uri uri)

-- The number of the credentials of the URI.
abbrev matches : Parse → String → List Credential → ℕ
matches parse uri [] = 0
matches parse uri (c ∷ cs) =
    if same_uri parse c.uri uri then suc (matches parse uri cs) else matches parse uri cs

matches-append :
    (parse : Parse) (uri : String) (xs ys : List Credential)
    → matches parse uri (xs ++ ys) ≡ matches parse uri xs + matches parse uri ys
matches-append parse uri [] ys = omega arith
matches-append parse uri (x ∷ xs) ys = ground (arith, matches-append parse uri xs ys)

matches-le :
    (parse : Parse) (uri : String) (cs : List Credential) → matches parse uri cs ≤ length cs
matches-le parse uri [] = omega arith
matches-le parse uri (c ∷ cs) = ground (arith, matches-le parse uri cs)

no_matches :
    (parse : Parse) (uri : String) (xs : List Credential)
    → all (is_other parse uri) xs ≡ true
    → matches parse uri xs ≡ 0
no_matches parse uri [] h = refl
no_matches parse uri (x ∷ xs) h = ground (arith, no_matches parse uri xs)

select-append {ℓ} :
    {A : Type ℓ} (p : A → Bool) (xs ys : List A) → select p (xs ++ ys) ≡ select p xs ++ select p ys
select-append p [] ys = refl
select-append p (x ∷ xs) ys = ground (arith, select-append p xs ys)

select_all : {A : Type 0} (p : A → Bool) (xs : List A) → all p xs ≡ true → select p xs ≡ xs
select_all p [] h = refl
select_all p (x ∷ xs) h = ground (arith, select_all p xs)

all-snoc :
    {A : Type 0} (p : A → Bool) (xs : List A) (x : A)
    → all p xs ≡ true
    → p x ≡ true
    → all p (xs ++ x ∷ []) ≡ true
all-snoc p [] x h k = ground arith
all-snoc p (y ∷ xs) x h k = ground (arith, all-snoc p xs x)

fuel_again :
    (m a b f : ℕ)
    → suc m * suc (a + suc b) + suc b < suc f
    → (0 + m) * suc (0 + (a + b)) + (a + b) < f
fuel_again m a b f h = grind arith

fuel_next : (m a b f : ℕ) → m * suc (a + suc b) + suc b < suc f → m * suc (a + 1 + b) + b < f
fuel_next m a b f h = grind arith

fuel_enough : (m n : ℕ) → m ≤ n → m * suc (0 + n) + n < suc (suc n * suc n)
fuel_enough m n h = grind arith

-- The fuel covers the rounds from index 0 for each credential of the URI that is left.
drop_same_lem :
    (parse : Parse) (uri : String) (f : ℕ) (seen rest : List Credential)
    → all (is_other parse uri) seen ≡ true
    → matches parse uri rest * suc (length seen + length rest) + length rest < f
    → drop_same parse uri f seen rest ≡ some (seen ++ select (is_other parse uri) rest)
unfolding drop_same
drop_same_lem parse uri zero seen rest h lt = absurd (omega arith)
drop_same_lem parse uri (suc f) seen [] h lt = ap some (sym (append-nil seen))
drop_same_lem parse uri (suc f) seen (c ∷ cs) h lt = elim (Bool-cases (same_uri parse c.uri uri)) [
  | inl e ↦ rw e (
      drop_same_lem parse uri f [] (seen ++ cs) refl (again e)
      ∙ ap some (
          select-append (is_other parse uri) seen cs
          ∙ ap (λ xs. xs ++ select (is_other parse uri) cs)
              (select_all (is_other parse uri) seen h)))
  | inr e ↦ rw e (
      drop_same_lem parse uri f (seen ++ c ∷ []) cs
        (all-snoc (is_other parse uri) seen c h (rw e refl))
        (rw length-append
          (fuel_next (matches parse uri cs) (length seen) (length cs) f (rw e at lt)))
      ∙ ap some (append_assoc seen (c ∷ []) (select (is_other parse uri) cs)))
]
  where
    again :
        same_uri parse c.uri uri ≡ true
        → matches parse uri (seen ++ cs) * suc (0 + length (seen ++ cs)) + length (seen ++ cs) < f
    again e =
        rw (length-append, matches-append, no_matches parse uri seen h)
          (fuel_again (matches parse uri cs) (length seen) (length cs) f (rw e at lt))

pub drop_same_all :
    (parse : Parse) (uri : String) (cs : List Credential)
    → drop_same parse uri (rounds cs) [] cs ≡ some (select (is_other parse uri) cs)
drop_same_all parse uri cs =
    drop_same_lem parse uri (rounds cs) [] cs refl
      (fuel_enough (matches parse uri cs) (length cs) (matches-le parse uri cs))

-- `Logout` with the default file ends, and keeps exactly the credentials of other URIs, in their order.
pub logout_lem :
    (parse : Parse) (c : Config) (uri : String)
    → logout parse c uri "" true
      ≡ ok (record c { credentials = select (is_other parse uri) c.credentials })
unfolding logout
logout_lem parse c uri = rw drop_same_all (
    ap (λ xs. ok (record c { credentials = xs }))
      (append-nil (select (is_other parse uri) c.credentials)))
