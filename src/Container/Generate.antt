-- ===== src/Container/Generate.antt =====
-- generate.go of internal/pkg/runtime/engine/config/oci/generate: the changes of an OCI configuration.
-- A configuration has the parts that the generator touches; what a seccomp profile and a mount are is
-- left open. `Save` writes JSON. A text stands for its bytes.
pub mod Variables
use mathlib.Core.List
use mathlib.Core.Option
use apptainer.Prelude.{
  ℕ, String, List, [], ◌∷◌, ◌++◌, Bool, true, false, not, Option, none, some, if◌then◌else◌, ◌==◌,
  append, has_prefix, map, keys,
}
use apptainer.Capabilities.Table.{table}

pub record Capabilities : Type 0 where
  pub bounding : List String
  pub effective : List String
  pub inheritable : List String
  pub permitted : List String
  pub ambient : List String

pub record Rlimit : Type 0 where
  pub kind : String
  pub hard : ℕ
  pub soft : ℕ

pub record Process : Type 0 where
  pub env : List String
  pub args : List String
  pub cwd : String
  pub terminal : Bool
  pub capabilities : Option Capabilities
  pub rlimits : List Rlimit
  pub no_new_privileges : Bool
  pub selinux_label : String
  pub apparmor_profile : String

pub record Namespace : Type 0 where
  pub kind : String
  pub path : String

pub record IdMapping : Type 0 where
  pub host_id : ℕ
  pub container_id : ℕ
  pub size : ℕ

pub record Linux (Seccomp : Type 0) : Type 0 where
  pub namespaces : List Namespace
  pub uid_mappings : List IdMapping
  pub gid_mappings : List IdMapping
  pub seccomp : Option Seccomp

pub record Spec (Seccomp Mount : Type 0) : Type 0 where
  pub process : Option Process
  pub root : Option String
  pub linux : Option (Linux Seccomp)
  pub mounts : List Mount

abbrev pub empty_capabilities : Capabilities
empty_capabilities = record {
  bounding = [];
  effective = [];
  inheritable = [];
  permitted = [];
  ambient = [];
}

abbrev pub empty_process : Process
empty_process = record {
  env = [];
  args = [];
  cwd = "";
  terminal = false;
  capabilities = none;
  rlimits = [];
  no_new_privileges = false;
  selinux_label = "";
  apparmor_profile = "";
}

abbrev pub empty_linux : (S : Type 0) → Linux S
empty_linux S = record { namespaces = []; uid_mappings = []; gid_mappings = []; seccomp = none }

-- What is there, or an empty one.
abbrev pub or_empty {ℓ} : {A : Type ℓ} → Option A → A → A
or_empty none e = e
or_empty (some x) e = x

-- The entry for the variable, as `SetProcessEnv` looks for it.
abbrev pub is_for : String → String → Bool
is_for env e = has_prefix e (append env "=")

unfoldable pub set_env : String → String → List String → List String
unfolding has_prefix
set_env env value [] = append (append env "=") value ∷ []
set_env env value (e ∷ es) =
    if is_for env e then append (append env "=") value ∷ es else e ∷ set_env env value es

unfoldable pub remove_env : String → List String → List String
unfolding has_prefix
remove_env env [] = []
remove_env env (e ∷ es) = if is_for env e then es else e ∷ remove_env env es

unfoldable pub replace_namespace : Namespace → List Namespace → List Namespace
replace_namespace n [] = n ∷ []
replace_namespace n (x ∷ xs) = if x.kind == n.kind then n ∷ xs else x ∷ replace_namespace n xs

unfoldable pub replace_rlimit : Rlimit → List Rlimit → List Rlimit
replace_rlimit r [] = r ∷ []
replace_rlimit r (x ∷ xs) =
    if x.kind == r.kind
    then record x { hard = r.hard; soft = r.soft } ∷ xs
    else x ∷ replace_rlimit r xs

-- `lo.Keys(capabilities.Map)`, whose order the runtime chooses
all_capability : List String
unfolding table
all_capability = keys table

unfoldable pub all_granted : Process → Process
unfolding all_capability
all_granted p = record p {
  capabilities = some (record {
    bounding = all_capability;
    effective = all_capability;
    inheritable = all_capability;
    permitted = all_capability;
    ambient = all_capability;
  });
  selinux_label = "";
  apparmor_profile = "";
}

module _ {S M : Type 0} where
  -- `initProcess` and a change of the process
  abbrev pub on_process : (Process → Process) → Spec S M → Spec S M
  on_process f g = record g { process = some (f (or_empty g.process empty_process)) }

  abbrev pub on_linux : (Linux S → Linux S) → Spec S M → Spec S M
  on_linux f g = record g { linux = some (f (or_empty g.linux (empty_linux S))) }

  unfoldable pub set_process_env : String → String → Spec S M → Spec S M
  unfolding set_env
  set_process_env env value g = on_process (λ p. record p { env = set_env env value p.env }) g

  unfoldable pub set_process_env_with_prefixes : List String → String → String → Spec S M → Spec S M
  unfolding set_process_env
  set_process_env_with_prefixes [] variable value g = g
  set_process_env_with_prefixes (p ∷ ps) variable value g =
      set_process_env_with_prefixes ps variable value (set_process_env (append p variable) value g)

  unfoldable pub remove_process_env : String → Spec S M → Spec S M
  unfolding remove_env
  remove_process_env env g = on_process (λ p. record p { env = remove_env env p.env }) g

  -- `is_known` are the types of namespaces that the specification has.
  unfoldable pub add_or_replace_linux_namespace :
      (String → Bool) → String → String → Spec S M → Spec S M
  unfolding replace_namespace
  add_or_replace_linux_namespace is_known ns path g =
      if not (is_known ns)
      then g
      else on_linux
          (λ l. record l {
            namespaces = replace_namespace (record { kind = ns; path = path }) l.namespaces;
          })
          g

  unfoldable pub set_process_args : List String → Spec S M → Spec S M
  set_process_args args g = on_process (λ p. record p { args = args }) g

  unfoldable pub set_process_cwd : String → Spec S M → Spec S M
  set_process_cwd cwd g = on_process (λ p. record p { cwd = cwd }) g

  unfoldable pub set_process_terminal : Bool → Spec S M → Spec S M
  set_process_terminal b g = on_process (λ p. record p { terminal = b }) g

  unfoldable pub set_root_path : String → Spec S M → Spec S M
  set_root_path path g = record g { root = some path }

  unfoldable pub add_mount : M → Spec S M → Spec S M
  add_mount mnt g = record g { mounts = g.mounts ++ mnt ∷ [] }

  unfoldable pub add_linux_uid_mapping : ℕ → ℕ → ℕ → Spec S M → Spec S M
  add_linux_uid_mapping host container size g =
      on_linux
        (λ l. record l {
          uid_mappings =
              l.uid_mappings
              ++ record { host_id = host; container_id = container; size = size } ∷ [];
        })
        g

  unfoldable pub add_linux_gid_mapping : ℕ → ℕ → ℕ → Spec S M → Spec S M
  add_linux_gid_mapping host container size g =
      on_linux
        (λ l. record l {
          gid_mappings =
              l.gid_mappings
              ++ record { host_id = host; container_id = container; size = size } ∷ [];
        })
        g

  unfoldable pub add_process_rlimits : String → ℕ → ℕ → Spec S M → Spec S M
  unfolding replace_rlimit
  add_process_rlimits kind hard soft g =
      on_process
        (λ p. record p {
          rlimits = replace_rlimit (record { kind = kind; hard = hard; soft = soft }) p.rlimits;
        })
        g

  unfoldable pub setup_privileged : Bool → Spec S M → Spec S M
  unfolding all_granted
  setup_privileged privileged g =
      if not privileged
      then g
      else on_linux (λ l. record l { seccomp = none }) (on_process all_granted g)

  unfoldable pub set_process_no_new_privileges : Bool → Spec S M → Spec S M
  set_process_no_new_privileges b g = on_process (λ p. record p { no_new_privileges = b }) g

  unfoldable pub set_process_selinux_label : String → Spec S M → Spec S M
  set_process_selinux_label label g = on_process (λ p. record p { selinux_label = label }) g

  unfoldable pub set_process_apparmor_profile : String → Spec S M → Spec S M
  set_process_apparmor_profile prof g = on_process (λ p. record p { apparmor_profile = prof }) g
