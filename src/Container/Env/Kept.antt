-- ===== src/Container/Env/Kept.antt =====
-- Which variables the host's environment can change in the container.
use apptainer.Prelude.{
  String, List, [], ◌∷◌, Bool, true, false, not, ◌||◌, Option, none, some, if◌then◌else◌, ◌==◌,
  eq_iff, has_prefix, split_two, drop_text, Assoc, lookup, lookup-insert, is_some, ◌≡◌, ◌≢◌, refl,
  sym, ap, ◌∙◌, arith, Bool-cases, inl, inr,
}
use apptainer.Container.Generate.{
  Spec, empty_process, or_empty, set_process_env, remove_process_env,
}
use apptainer.Container.Generate.Variables.{
  value_of, is_name, value_of-set_env_same, value_of-set_env, value_of-remove_env,
  split_two-is_name,
}
use apptainer.Container.Env.{
  default_path, apptainer_prefixes, apptainer_env_prefixes, Overrides, override_name,
  has_any_prefix, must_add_to_process_env, set_key_if_not_already_overridden, set_override,
  override_by, overrides_with, overrides_each, forward, forward_each, with_defaults,
}
use apptainer.Container.Env.Names.{
  is_held, has_any_prefix-split_two, drop_text-is_name, override_name-is_name,
}

module _ {S M : Type 0} where
  -- The value that the process gets for a variable.
  unfoldable pub getenv : String → Spec S M → Option String
  unfolding value_of
  getenv k g = value_of k (or_empty g.process empty_process).env

  getenv-set_same : (k v : String) (g : Spec S M) → getenv k (set_process_env k v g) ≡ some v
  unfolding getenv set_process_env
  getenv-set_same k v g = value_of-set_env_same k v (or_empty g.process empty_process).env

  pub getenv-set :
      (j k v : String) (g : Spec S M)
      → is_name j ≡ true
      → is_name k ≡ true
      → j ≢ k
      → getenv j (set_process_env k v g) ≡ getenv j g
  unfolding getenv set_process_env
  getenv-set j k v g n m d = value_of-set_env j k v (or_empty g.process empty_process).env n m d

  getenv-remove :
      (j k : String) (g : Spec S M)
      → is_name j ≡ true
      → is_name k ≡ true
      → j ≢ k
      → getenv j (remove_process_env k g) ≡ getenv j g
  unfolding getenv remove_process_env
  getenv-remove j k g n m d = value_of-remove_env j k (or_empty g.process empty_process).env n m d

  pub with_defaults-kept :
      (k home_dest : String) (g : Spec S M)
      → is_name k ≡ true
      → k ≢ "HOME"
      → k ≢ "PATH"
      → getenv k (with_defaults home_dest g) ≡ getenv k g
  unfolding with_defaults
  with_defaults-kept k home_dest g n h p =
      getenv-set k "PATH" default_path (set_process_env "HOME" home_dest g) n refl p
      ∙ getenv-set k "HOME" home_dest g n refl h

  pub with_defaults-home :
      (home_dest : String) (g : Spec S M)
      → getenv "HOME" (with_defaults home_dest g) ≡ some home_dest
  unfolding with_defaults
  with_defaults-home home_dest g =
      getenv-set "HOME" "PATH" default_path (set_process_env "HOME" home_dest g) refl refl
        (λ e. ground (arith, (eq_iff "HOME" "PATH").1 e))
      ∙ getenv-set_same "HOME" home_dest g

  pub with_defaults-path :
      (home_dest : String) (g : Spec S M)
      → getenv "PATH" (with_defaults home_dest g) ≡ some default_path
  unfolding with_defaults
  with_defaults-path home_dest g =
      getenv-set_same "PATH" default_path (set_process_env "HOME" home_dest g)

  if-kept :
      (k : String) (b : Bool) (g x : Spec S M)
      → getenv k x ≡ getenv k g
      → getenv k (if b then g else x) ≡ getenv k g
  if-kept k true g x h = refl
  if-kept k false g x h = h

  forward_held :
      (omit : Assoc Bool) (clean_env : Bool) (ks : Assoc String) (env name value : String)
      (g : Spec S M)
      → split_two b'=' env ≡ some (name, value)
      → is_held omit clean_env name ≡ true
      → forward omit clean_env ks env (some (name, value)) g ≡ g
  unfolding must_add_to_process_env
  forward_held omit clean_env ks env name value g e h = ground (
    arith,
    has_any_prefix-split_two apptainer_prefixes env name value (refl, (refl, tt)) e,
    has_any_prefix-split_two apptainer_env_prefixes env name value (refl, (refl, tt)) e,
  )

  forward-kept :
      (omit : Assoc Bool) (clean_env : Bool) (ks : Assoc String) (k env : String)
      (o : Option (String × String)) (g : Spec S M)
      → split_two b'=' env ≡ o
      → is_name k ≡ true
      → is_held omit clean_env k ≡ true
      → getenv k (forward omit clean_env ks env o g) ≡ getenv k g
  forward-kept omit clean_env ks k env none g e n h = refl
  forward-kept omit clean_env ks k env (some (name, value)) g e n h =
      elim (Bool-cases (is_held omit clean_env name)) [
        | inl held ↦ ap (getenv k) (forward_held omit clean_env ks env name value g e held)
        | inr free ↦
            let differs : k ≢ name = λ q. ground (arith, ap (is_held omit clean_env) q) in
            if-kept k
              (has_any_prefix apptainer_prefixes env || has_any_prefix apptainer_env_prefixes env) g
              _
              (if-kept k (not (must_add_to_process_env omit name clean_env)) g _ (
                if-kept k (is_some (lookup name ks)) g _
                  (getenv-set k name value g n (split_two-is_name env name value e) differs)))
      ]

  pub forward_each-kept :
      (omit : Assoc Bool) (clean_env : Bool) (ks : Assoc String) (k : String) (envs : List String)
      (g : Spec S M)
      → is_name k ≡ true
      → is_held omit clean_env k ≡ true
      → getenv k (forward_each omit clean_env ks envs g) ≡ getenv k g
  unfolding forward_each
  forward_each-kept omit clean_env ks k [] g n h = refl
  forward_each-kept omit clean_env ks k (env ∷ envs) g n h =
      forward_each-kept omit clean_env ks k envs
        (forward omit clean_env ks env (split_two b'=' env) g) n h
      ∙ forward-kept omit clean_env ks k env (split_two b'=' env) g refl n h

  -- A variable that is not among the overrides in the end has its value still.
  unfoldable pub Spares : String → Overrides S M → Overrides S M → Type 0
  Spares k (ks, g) (ks', g') =
      lookup k ks' ≡ none → (lookup k ks ≡ none) × (getenv k g' ≡ getenv k g)

  Spares-refl : (k : String) (st : Overrides S M) → Spares k st st
  unfolding Spares
  Spares-refl k (ks, g) h = (h, refl)

  Spares-trans : (k : String) (a b c : Overrides S M) → Spares k a b → Spares k b c → Spares k a c
  unfolding Spares
  Spares-trans k (_, _) (_, _) (_, _) f f' h =
      let (l, e) = f' h in let (l', e') = f l in (l', e ∙ e')

  if-Spares :
      (b : Bool) (k : String) (st st' : Overrides S M)
      → Spares k st st'
      → Spares k st (if b then st else st')
  if-Spares true k st st' h = Spares-refl k st
  if-Spares false k st st' h = h

  if-not-Spares :
      (b : Bool) (k : String) (st st' : Overrides S M)
      → Spares k st st'
      → Spares k st (if b then st' else st)
  if-not-Spares true k st st' h = h
  if-not-Spares false k st st' h = Spares-refl k st

  set_key-Spares :
      (k key value : String) (st : Overrides S M)
      → is_name k ≡ true
      → is_name key ≡ true
      → Spares k st (set_key_if_not_already_overridden key value st)
  unfolding set_key_if_not_already_overridden Spares
  set_key-Spares k key value (ks, g) n m = elim (Bool-cases (is_some (lookup key ks))) [
    | inl e ↦ rw e (λ h. (h, refl))
    | inr e ↦ rw e (λ h.
        let other : (key == k) ≡ false = ground (arith, h, lookup-insert key k value ks) in
        let l : lookup k ks ≡ none = ground (arith, h, other, lookup-insert key k value ks) in
        (l, getenv-remove k key g n m (λ q. ground (arith, other, eq_iff key k, sym q))))
  ]

  set_override-Spares :
      (k value : String) (o : Option String) (st : Overrides S M)
      → is_name k ≡ true
      → ((name : String) → o ≡ some name → is_name name ≡ true)
      → Spares k st (set_override o value st)
  set_override-Spares k value none st n m = Spares-refl k st
  set_override-Spares k value (some name) st n m = set_key-Spares k name value st n (m name refl)

  override_by-Spares :
      (omit : Assoc Bool) (k prefix env : String) (o : Option (String × String))
      (st : Overrides S M)
      → split_two b'=' env ≡ o
      → is_name k ≡ true
      → Spares k st (override_by omit prefix o st)
  override_by-Spares omit k prefix env none st e n = Spares-refl k st
  override_by-Spares omit k prefix env (some (name, value)) st e n =
      if-Spares (drop_text prefix name == "") k st _ (
        set_override-Spares k value (override_name omit (drop_text prefix name)) st n (
          override_name-is_name omit (drop_text prefix name)
            (drop_text-is_name prefix name (split_two-is_name env name value e))))

  overrides_with-Spares :
      (omit : Assoc Bool) (k prefix : String) (envs : List String) (st : Overrides S M)
      → is_name k ≡ true
      → Spares k st (overrides_with omit prefix envs st)
  unfolding overrides_with
  overrides_with-Spares omit k prefix [] st n = Spares-refl k st
  overrides_with-Spares omit k prefix (env ∷ envs) st n =
      let st' =
        if has_prefix env prefix then override_by omit prefix (split_two b'=' env) st else st in
      Spares-trans k st st' (overrides_with omit prefix envs st')
        (if-not-Spares (has_prefix env prefix) k st
          (override_by omit prefix (split_two b'=' env) st)
          (override_by-Spares omit k prefix env (split_two b'=' env) st refl n))
        (overrides_with-Spares omit k prefix envs st' n)

  pub overrides_each-Spares :
      (omit : Assoc Bool) (k : String) (ps envs : List String) (st : Overrides S M)
      → is_name k ≡ true
      → Spares k st (overrides_each omit ps envs st)
  unfolding overrides_each
  overrides_each-Spares omit k [] envs st n = Spares-refl k st
  overrides_each-Spares omit k (p ∷ ps) envs st n =
      Spares-trans k st (overrides_with omit p envs st)
        (overrides_each omit ps envs (overrides_with omit p envs st))
        (overrides_with-Spares omit k p envs st n)
        (overrides_each-Spares omit k ps envs (overrides_with omit p envs st) n)
