-- ===== src/Container/Env/Protected.antt =====
-- What `SetContainerEnv` guarantees whatever the host's environment holds.
use apptainer.Prelude.{
  String, List, [], ◌∷◌, Bool, true, false, Option, none, some, if◌then◌else◌, ◌==◌, eq_iff,
  has_prefix, split_two, drop_text, Assoc, lookup, lookup-insert, is_some, contains, ◌≡◌, ◌≢◌, refl,
  sym, ap, ◌∙◌, arith, Bool-cases, inl, inr,
}
use apptainer.Container.Generate.{Spec, set_process_env}
use apptainer.Container.Generate.Variables.{is_name}
use apptainer.Container.Env.{
  default_path, apptainer_env_prefixes, Overrides, override_name, add_no_env,
  set_key_if_not_already_overridden, set_override, override_by, overrides_with, overrides_each,
  overrides_for_container_env, forward_each, set_container_env,
}
use apptainer.Container.Env.Names.{stays_out, is_held-add_no_env, path_names, override_name-cases}
use apptainer.Container.Env.Kept.{
  getenv, getenv-set, with_defaults-kept, with_defaults-home, with_defaults-path, forward_each-kept,
  Spares, overrides_each-Spares,
}

true-false : true ≡ false → ⊥
true-false h = cc

-- The key is never an override's.
Barred : Assoc Bool → String → Type 0
Barred omit k = (lookup k omit ≡ some false) × (contains path_names k ≡ false)

module _ {S M : Type 0} where
  -- `SetContainerEnv` gives the process the home directory of the container and the default path,
  -- whatever the configuration, the host's variables and the options are.
  pub set_container_env-defaults :
      (omit : Assoc Bool) (host_envs no_env : List String) (clean_env : Bool) (home_dest : String)
      (g : Spec S M)
      → (getenv "HOME" (set_container_env omit host_envs no_env clean_env home_dest g).spec
          ≡ some home_dest)
        × (getenv "PATH" (set_container_env omit host_envs no_env clean_env home_dest g).spec
            ≡ some default_path)
  unfolding set_container_env
  set_container_env-defaults omit host_envs no_env clean_env home_dest g =
      let st =
        overrides_for_container_env omit host_envs
          (if clean_env then set_process_env "LANG" "C" g else g) in
      let forwarded = forward_each (add_no_env no_env omit) clean_env st.0 host_envs st.1 in
      (with_defaults-home home_dest forwarded, with_defaults-path home_dest forwarded)

  lang-kept :
      (k : String) (clean_env : Bool) (g : Spec S M)
      → is_name k ≡ true
      → (clean_env ≡ true → k ≢ "LANG")
      → getenv k (if clean_env then set_process_env "LANG" "C" g else g) ≡ getenv k g
  lang-kept k true g n d = getenv-set k "LANG" "C" g n refl (d refl)
  lang-kept k false g n d = refl

  -- A variable keeps the value of the configuration if it is not `HOME` or `PATH`, nor `LANG` where the
  -- environment is cleaned, if no override sets it, and if it has one of the prefixes of Apptainer and
  -- Singularity, or is a key to omit, one of those of the option included, or the environment is
  -- cleaned, and it is not among the keys that always pass.
  pub set_container_env-kept :
      (omit : Assoc Bool) (host_envs no_env : List String) (clean_env : Bool) (home_dest : String)
      (g : Spec S M) (k : String)
      → is_name k ≡ true
      → k ≢ "HOME"
      → k ≢ "PATH"
      → (clean_env ≡ true → k ≢ "LANG")
      → stays_out no_env omit clean_env k ≡ true
      → lookup k (set_container_env omit host_envs no_env clean_env home_dest g).env_keys ≡ none
      → getenv k (set_container_env omit host_envs no_env clean_env home_dest g).spec ≡ getenv k g
  unfolding set_container_env overrides_for_container_env Spares
  set_container_env-kept omit host_envs no_env clean_env home_dest g k n home path lang held free =
      let g' = if clean_env then set_process_env "LANG" "C" g else g in
      let st = overrides_each omit apptainer_env_prefixes host_envs ([], g') in
      with_defaults-kept k home_dest
        (forward_each (add_no_env no_env omit) clean_env st.0 host_envs st.1) n home path
      ∙ forward_each-kept (add_no_env no_env omit) clean_env st.0 k host_envs st.1 n
          (is_held-add_no_env no_env omit clean_env k ∙ held)
      ∙ (overrides_each-Spares omit k apptainer_env_prefixes host_envs ([], g') n free).1
      ∙ lang-kept k clean_env g n lang

  -- Overrides never set the key.
  Absent : String → Overrides S M → Type 0
  Absent k st = lookup k st.0 ≡ none

  set_key-Absent :
      (k key value : String) (st : Overrides S M)
      → k ≢ key
      → Absent k st
      → Absent k (set_key_if_not_already_overridden key value st)
  unfolding set_key_if_not_already_overridden Absent
  set_key-Absent k key value (ks, g) d h = elim (Bool-cases (is_some (lookup key ks))) [
    | inl e ↦ rw e h
    | inr e ↦ rw e (ground (arith, h, d, lookup-insert key k value ks, eq_iff key k))
  ]

  set_override-Absent :
      (omit : Assoc Bool) (k key value : String) (o : Option String) (st : Overrides S M)
      → Barred omit k
      → override_name omit key ≡ o
      → Absent k st
      → Absent k (set_override o value st)
  unfolding Barred
  set_override-Absent omit k key value none st b e h = h
  set_override-Absent omit k key value (some name) st b e h =
      set_key-Absent k name value st
        (λ q. elim (override_name-cases omit key name e) [
          | inl p ↦ absurd (true-false (sym p ∙ sym (ap (contains path_names) q) ∙ b.1))
          | inr (i, j) ↦ j (ap (λ x. lookup x omit) (sym (q ∙ i)) ∙ b.0)
        ])
        h

  if-Absent :
      (b : Bool) (k : String) (st st' : Overrides S M)
      → Absent k st
      → Absent k st'
      → Absent k (if b then st else st')
  if-Absent true k st st' h i = h
  if-Absent false k st st' h i = i

  override_by-Absent :
      (omit : Assoc Bool) (k prefix : String) (o : Option (String × String)) (st : Overrides S M)
      → Barred omit k
      → Absent k st
      → Absent k (override_by omit prefix o st)
  override_by-Absent omit k prefix none st b h = h
  override_by-Absent omit k prefix (some (name, value)) st b h =
      if-Absent (drop_text prefix name == "") k st _ h (
        set_override-Absent omit k (drop_text prefix name) value
          (override_name omit (drop_text prefix name)) st b refl h)

  overrides_with-Absent :
      (omit : Assoc Bool) (k prefix : String) (envs : List String) (st : Overrides S M)
      → Barred omit k
      → Absent k st
      → Absent k (overrides_with omit prefix envs st)
  unfolding overrides_with
  overrides_with-Absent omit k prefix [] st b h = h
  overrides_with-Absent omit k prefix (env ∷ envs) st b h =
      overrides_with-Absent omit k prefix envs _ b (
        if-Absent (has_prefix env prefix) k (override_by omit prefix (split_two b'=' env) st) st
          (override_by-Absent omit k prefix (split_two b'=' env) st b h) h)

  overrides_each-Absent :
      (omit : Assoc Bool) (k : String) (ps envs : List String) (st : Overrides S M)
      → Barred omit k
      → Absent k st
      → Absent k (overrides_each omit ps envs st)
  unfolding overrides_each
  overrides_each-Absent omit k [] envs st b h = h
  overrides_each-Absent omit k (p ∷ ps) envs st b h =
      overrides_each-Absent omit k ps envs (overrides_with omit p envs st) b
        (overrides_with-Absent omit k p envs st b h)

  -- A key to omit that must not be overridden, and that is none of the names for the parts of the path,
  -- is never among the overrides.
  pub set_container_env_barred :
      (omit : Assoc Bool) (host_envs no_env : List String) (clean_env : Bool) (home_dest : String)
      (g : Spec S M) (k : String)
      → lookup k omit ≡ some false
      → contains path_names k ≡ false
      → lookup k (set_container_env omit host_envs no_env clean_env home_dest g).env_keys ≡ none
  unfolding set_container_env overrides_for_container_env Absent Barred lookup
  set_container_env_barred omit host_envs no_env clean_env home_dest g k b p =
      overrides_each-Absent omit k apptainer_env_prefixes host_envs
        ([], if clean_env then set_process_env "LANG" "C" g else g) (b, p) refl
