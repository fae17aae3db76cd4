-- ===== src/Container/Env/Names.antt =====
-- The names of variables that are forwarded and overridden.
use mathlib.Core.Path.{subst}
use apptainer.Prelude.{
  String, List, [], ◌∷◌, Bool, true, false, not, ◌&&◌, ◌||◌, is_some, insert, lookup-insert,
  if◌then◌else◌, refl, Option, none, some, ◌==◌, eq_iff, split_two, drop_text, Assoc, lookup,
  contains, All, ◌≡◌, ◌≢◌, sym, ◌∙◌, arith, Bool-cases, ◌⊎◌, inl, inr,
}
use apptainer.Container.Generate.Variables.{is_name, has_prefix-split_two}
use apptainer.Container.Env.{
  always_pass_keys, apptainer_prefixes, apptainer_env_prefixes, if_permitted, override_name,
  has_any_prefix, add_no_env,
}

-- The host cannot pass the variable on.
abbrev pub is_held : Assoc Bool → Bool → String → Bool
is_held omit clean_env k =
    has_any_prefix apptainer_prefixes k
    || has_any_prefix apptainer_env_prefixes k
    || (not (contains always_pass_keys k) && (is_some (lookup k omit) || clean_env))

-- The same, by the table before the option, and the option.
abbrev pub stays_out : List String → Assoc Bool → Bool → String → Bool
stays_out no_env omit clean_env k =
    has_any_prefix apptainer_prefixes k
    || has_any_prefix apptainer_env_prefixes k
    || (not (contains always_pass_keys k)
        && (contains no_env k || is_some (lookup k omit) || clean_env))

add_one :
    (x k : String) (omit : Assoc Bool)
    → is_some (lookup k (if is_some (lookup x omit) then omit else insert x true omit))
      ≡ (x == k || is_some (lookup k omit))
add_one x k omit = ground (arith, lookup-insert x k true omit, eq_iff x k)

lookup-add_no_env :
    (no_env : List String) (omit : Assoc Bool) (k : String)
    → is_some (lookup k (add_no_env no_env omit)) ≡ (contains no_env k || is_some (lookup k omit))
unfolding add_no_env
lookup-add_no_env [] omit k = refl
lookup-add_no_env (x ∷ xs) omit k =
    lookup-add_no_env xs (if is_some (lookup x omit) then omit else insert x true omit) k
    ∙ ground (arith, add_one x k omit)

pub is_held-add_no_env :
    (no_env : List String) (omit : Assoc Bool) (clean_env : Bool) (k : String)
    → is_held (add_no_env no_env omit) clean_env k ≡ stays_out no_env omit clean_env k
is_held-add_no_env no_env omit clean_env k = ground (arith, lookup-add_no_env no_env omit k)

pub has_any_prefix-split_two :
    (ps : List String) (e a b : String)
    → All (λ p. is_name p ≡ true) ps
    → split_two b'=' e ≡ some (a, b)
    → has_any_prefix ps e ≡ has_any_prefix ps a
has_any_prefix-split_two [] e a b n h = refl
has_any_prefix-split_two (p ∷ ps) e a b (n, ns) h =
    rw (has_prefix-split_two p e a b n h, has_any_prefix-split_two ps e a b ns h) refl

pub drop_text-is_name : (p s : String) → is_name s ≡ true → is_name (drop_text p s) ≡ true
unfolding drop_text
drop_text-is_name String.[] s h = h
drop_text-is_name (String.◌∷◌ d p) String.[] h = h
drop_text-is_name (String.◌∷◌ d p) (String.◌∷◌ c s) h = drop_text-is_name p s (ground arith)

-- The names that overrides of paths set.
abbrev pub path_names : List String
path_names =
    "SING_USER_DEFINED_PREPEND_PATH" ∷ "SING_USER_DEFINED_APPEND_PATH" ∷ "SING_USER_DEFINED_PATH"
    ∷ []

pub if_permitted-Same :
    (key name : String) (o : Option Bool)
    → if_permitted key o ≡ some name
    → (name ≡ key) × (o ≢ some false)
if_permitted-Same key name none h = (ground (arith, h), λ q. cc)
if_permitted-Same key name (some true) h = (ground (arith, h), λ q. cc)
if_permitted-Same key name (some false) h = cc

of_some :
    (a name : String)
    → Option.some a ≡ some name
    → contains path_names a ≡ true
    → contains path_names name ≡ true
of_some a name h k =
    subst (λ x. contains path_names x ≡ true) {x = a} {y = name} (ground (arith, h)) k

pub override_name-cases :
    (omit : Assoc Bool) (key name : String)
    → override_name omit key ≡ some name
    → (contains path_names name ≡ true) ⊎ ((name ≡ key) × (lookup key omit ≢ some false))
override_name-cases omit key name h = elim (Bool-cases (key == "PREPEND_PATH")) [
  | inl e ↦ inl (of_some "SING_USER_DEFINED_PREPEND_PATH" name (rw e at h) refl)
  | inr e ↦ elim (Bool-cases (key == "APPEND_PATH")) [
    | inl f ↦ inl (of_some "SING_USER_DEFINED_APPEND_PATH" name (rw (e, f) at h) refl)
    | inr f ↦ elim (Bool-cases (key == "PATH")) [
      | inl g ↦ inl (of_some "SING_USER_DEFINED_PATH" name (rw (e, f, g) at h) refl)
      | inr g ↦ inr (if_permitted-Same key name (lookup key omit) (rw (e, f, g) at h))
    ]
  ]
]

pub contains-All :
    (P : String → Type 0) (xs : List String) (x : String) → All P xs → contains xs x ≡ true → P x
contains-All P [] x h k = absurd (ground arith)
contains-All P (y ∷ xs) x (h, hs) k = elim (Bool-cases (y == x)) [
  | inl e ↦ subst P ((eq_iff y x).0 e) h
  | inr e ↦ contains-All P xs x hs (rw e at k)
]

pub override_name-is_name :
    (omit : Assoc Bool) (key : String)
    → is_name key ≡ true
    → (name : String) → override_name omit key ≡ some name
    → is_name name ≡ true
override_name-is_name omit key n name h = elim (override_name-cases omit key name h) [
  | inl p ↦ contains-All (λ x. is_name x ≡ true) path_names name (refl, (refl, (refl, tt))) p
  | inr (e, q) ↦ subst (λ x. is_name x ≡ true) (sym e) n
]
