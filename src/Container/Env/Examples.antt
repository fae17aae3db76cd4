-- ===== src/Container/Env/Examples.antt =====
-- Runs of `SetContainerEnv`.
use apptainer.Prelude.{
  String, List, [], ◌∷◌, false, none, some, ◌==◌, eq_iff, lookup, insert, ◌≡◌, ◌≢◌, refl, arith,
  has_prefix, drop_text,
}
use apptainer.Container.Generate.{Spec, empty_process}
use apptainer.Container.Env.{
  default_path, always_omit_keys, add_no_env, must_add_to_process_env, set_container_env,
}
use apptainer.Container.Env.Kept.{getenv}
use apptainer.Container.Env.Protected.{
  set_container_env-defaults, set_container_env-kept, set_container_env_barred,
}

abbrev config : Spec String String
config = record {
  process = some (record empty_process { env = "SECRET=image" ∷ [] });
  root = none;
  linux = none;
  mounts = [];
}

abbrev host : List String
host =
    "HOME=/root" ∷ "SECRET=host" ∷ "EDITOR=vi" ∷ "APPTAINERENV_HOME=/evil" ∷ "APPTAINERENV_PATH=/my"
    ∷ "SINGULARITYENV_LEVEL=1" ∷ "APPTAINERENV_LEVEL=2" ∷ []

set_container_env_test :
    getenv "EDITOR"
      (set_container_env always_omit_keys host ("SECRET" ∷ []) false "/home/me" config).spec
    ≡ some "vi"
unfolding set_container_env getenv lookup insert
set_container_env_test = refl

-- The newer prefix wins.
overrides_test :
    lookup "LEVEL" (set_container_env always_omit_keys host [] false "/home/me" config).env_keys
    ≡ some "2"
unfolding set_container_env lookup drop_text insert
overrides_test = refl

set_container_env-defaults_example :
    (getenv "HOME" (set_container_env always_omit_keys host [] false "/home/me" config).spec
      ≡ some "/home/me")
    × (getenv "PATH" (set_container_env always_omit_keys host [] false "/home/me" config).spec
        ≡ some default_path)
set_container_env-defaults_example =
    set_container_env-defaults always_omit_keys host [] false "/home/me" config

differs : (a b : String) → (a == b) ≡ false → a ≢ b
differs a b h q = ground (arith, h, (eq_iff a b).1 q)

set_container_env-kept_example :
    getenv "SECRET"
      (set_container_env always_omit_keys host ("SECRET" ∷ []) false "/home/me" config).spec
    ≡ getenv "SECRET" config
unfolding add_no_env must_add_to_process_env has_prefix lookup set_container_env insert drop_text
set_container_env-kept_example =
    set_container_env-kept always_omit_keys host ("SECRET" ∷ []) false "/home/me" config "SECRET"
      refl (differs "SECRET" "HOME" refl) (differs "SECRET" "PATH" refl) (λ e. cc) refl refl

set_container_env_barred_example :
    lookup "HOME" (set_container_env always_omit_keys host [] false "/home/me" config).env_keys
    ≡ none
unfolding lookup
set_container_env_barred_example =
    set_container_env_barred always_omit_keys host [] false "/home/me" config "HOME" refl refl
