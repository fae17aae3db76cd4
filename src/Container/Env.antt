-- ===== src/Container/Env.antt =====
-- create.go and env.go of internal/pkg/util/env: the environment of the container's process. What is
-- logged is left out.
pub mod Names
pub mod Kept
pub mod Protected
mod Examples
use mathlib.Core.List
use mathlib.Core.Option
use apptainer.Prelude.{
  String, List, [], ◌∷◌, Bool, true, false, not, ◌||◌, Option, none, some, if◌then◌else◌, ◌==◌,
  append, has_prefix, split_two, drop_text, Assoc, lookup, insert, is_some, contains,
}
use apptainer.Container.Generate.{Spec, set_process_env, remove_process_env}

abbrev pub default_path : String
default_path = "/usr/local/sbin:/usr/local/bin:/usr/sbin:/usr/bin:/sbin:/bin"

abbrev pub apptainer_prefixes : List String
apptainer_prefixes = "APPTAINER_" ∷ "SINGULARITY_" ∷ []

abbrev pub apptainer_env_prefixes : List String
apptainer_env_prefixes = "APPTAINERENV_" ∷ "SINGULARITYENV_" ∷ []

abbrev pub read_only_vars : List String
read_only_vars = "EUID" ∷ "GID" ∷ "HOME" ∷ "IFS" ∷ "OPTIND" ∷ "PWD" ∷ "UID" ∷ []

abbrev pub always_pass_keys : List String
always_pass_keys =
    "TERM" ∷ "http_proxy" ∷ "HTTP_PROXY" ∷ "https_proxy" ∷ "HTTPS_PROXY" ∷ "no_proxy" ∷ "NO_PROXY"
    ∷ "all_proxy" ∷ "ALL_PROXY" ∷ "ftp_proxy" ∷ "FTP_PROXY" ∷ []

-- At the start of the program; the value tells whether the key may be overridden.
abbrev pub always_omit_keys : Assoc Bool
always_omit_keys =
    ("HOME", false)
    ∷ ("PATH", false)
    ∷ ("APPTAINER_SHELL", false)
    ∷ ("APPTAINER_APPNAME", false)
    ∷ ("SINGULARITY_SHELL", false)
    ∷ ("SINGULARITY_APPNAME", false)
    ∷ ("LD_LIBRARY_PATH", true)
    ∷ []

-- The overrides so far, and the configuration.
abbrev pub Overrides : Type 0 → Type 0 → Type 0
Overrides S M = Assoc String × Spec S M

abbrev pub if_permitted : String → Option Bool → Option String
if_permitted key none = some key
if_permitted key (some true) = some key
if_permitted key (some false) = none

-- The variable that an override sets; `none` for one that is not permitted.
abbrev pub override_name : Assoc Bool → String → Option String
override_name omit key =
    if key == "PREPEND_PATH"
    then some "SING_USER_DEFINED_PREPEND_PATH"
    else if key == "APPEND_PATH"
    then some "SING_USER_DEFINED_APPEND_PATH"
    else if key == "PATH"
    then some "SING_USER_DEFINED_PATH"
    else if_permitted key (lookup key omit)

unfoldable pub add_no_env : List String → Assoc Bool → Assoc Bool
add_no_env [] omit = omit
add_no_env (k ∷ ks) omit =
    add_no_env ks (if is_some (lookup k omit) then omit else insert k true omit)

abbrev pub has_any_prefix : List String → String → Bool
has_any_prefix [] env = false
has_any_prefix (p ∷ ps) env = has_prefix env p || has_any_prefix ps env

unfoldable pub must_add_to_process_env : Assoc Bool → String → Bool → Bool
must_add_to_process_env omit key clean_env =
    if contains always_pass_keys key then true else not (is_some (lookup key omit) || clean_env)

pub record Prepared (S M : Type 0) : Type 0 where
  pub env_keys : Assoc String
  pub spec : Spec S M
  pub omit : Assoc Bool

-- `GetenvLegacy`; `getenv` is `os.Getenv`.
unfoldable pub getenv_legacy : (String → String) → String → String → String
getenv_legacy getenv key legacy_key =
    let val = getenv (append "APPTAINER_" key) in
    if val == "" then getenv (append "SINGULARITY_" legacy_key) else val

unfoldable pub trim_apptainer_key : String → String
unfolding has_prefix drop_text
trim_apptainer_key key = if has_prefix key "APPTAINER_" then drop_text "APPTAINER_" key else key

abbrev pub put_variable : Option (String × String) → Assoc String → Assoc String
put_variable none m = m
put_variable (some (name, value)) m =
    if contains read_only_vars name then m else insert name value m

-- The loop of `FileMap` over what the shell interpreter answers, from the map so far
unfoldable pub file_map : List String → Assoc String → Assoc String
unfolding split_two
file_map [] m = m
file_map (env ∷ envs) m = file_map envs (put_variable (split_two b'=' env) m)

unfoldable pub merge_map : Assoc String → Assoc String → Assoc String
merge_map a [] = a
merge_map a ((k, v) ∷ b) = merge_map (insert k v a) b

module _ {S M : Type 0} where
  unfoldable pub set_key_if_not_already_overridden : String → String → Overrides S M → Overrides S M
  unfolding remove_process_env
  set_key_if_not_already_overridden key value (keys, g) =
      if is_some (lookup key keys)
      then (keys, g)
      else (insert key value keys, remove_process_env key g)

  abbrev pub set_override : Option String → String → Overrides S M → Overrides S M
  set_override none value st = st
  set_override (some name) value st = set_key_if_not_already_overridden name value st

  abbrev pub override_by :
      Assoc Bool → String → Option (String × String) → Overrides S M → Overrides S M
  override_by omit prefix none st = st
  override_by omit prefix (some (name, value)) st =
      let key = drop_text prefix name in
      if key == "" then st else set_override (override_name omit key) value st

  -- The loop over the host's variables for a prefix
  unfoldable pub overrides_with : Assoc Bool → String → List String → Overrides S M → Overrides S M
  unfolding set_key_if_not_already_overridden
  overrides_with omit prefix [] st = st
  overrides_with omit prefix (env ∷ envs) st =
      overrides_with omit prefix envs
        (if has_prefix env prefix then override_by omit prefix (split_two b'=' env) st else st)

  -- The loop over the prefixes
  unfoldable pub overrides_each :
      Assoc Bool → List String → List String → Overrides S M → Overrides S M
  unfolding overrides_with
  overrides_each omit [] host_envs st = st
  overrides_each omit (p ∷ ps) host_envs st =
      overrides_each omit ps host_envs (overrides_with omit p host_envs st)

  unfoldable pub overrides_for_container_env : Assoc Bool → List String → Spec S M → Overrides S M
  unfolding overrides_each
  overrides_for_container_env omit host_envs g =
      overrides_each omit apptainer_env_prefixes host_envs ([], g)

  abbrev pub forward :
      Assoc Bool → Bool → Assoc String → String → Option (String × String) → Spec S M → Spec S M
  forward omit clean_env keys env none g = g
  forward omit clean_env keys env (some (name, value)) g =
      if has_any_prefix apptainer_prefixes env || has_any_prefix apptainer_env_prefixes env
      then g
      else if not (must_add_to_process_env omit name clean_env)
      then g
      else if is_some (lookup name keys)
      then g
      else set_process_env name value g

  unfoldable pub forward_each : Assoc Bool → Bool → Assoc String → List String → Spec S M → Spec S M
  unfolding must_add_to_process_env set_process_env has_prefix split_two
  forward_each omit clean_env keys [] g = g
  forward_each omit clean_env keys (env ∷ envs) g =
      forward_each omit clean_env keys envs (forward omit clean_env keys env (split_two b'=' env) g)

  unfoldable pub with_defaults : String → Spec S M → Spec S M
  unfolding set_process_env
  with_defaults home_dest g =
      set_process_env "PATH" default_path (set_process_env "HOME" home_dest g)

  -- `omit` is the table of the keys to omit, which stays changed for later calls.
  unfoldable pub set_container_env :
      Assoc Bool → List String → List String → Bool → String → Spec S M → Prepared S M
  unfolding overrides_for_container_env add_no_env forward_each with_defaults
  set_container_env omit host_envs no_env clean_env home_dest g =
      let g' = if clean_env then set_process_env "LANG" "C" g else g in
      let (keys, overridden) = overrides_for_container_env omit host_envs g' in
      let omit' = add_no_env no_env omit in
      record {
        env_keys = keys;
        spec = with_defaults home_dest (forward_each omit' clean_env keys host_envs overridden);
        omit = omit';
      }
