-- ===== src/Remote/Config/Default.antt =====
-- The default remote is one of the configuration.
use mathlib.Core.Path.{subst}
use apptainer.Prelude.{
  String, [], ◌∷◌, Bool, true, ◌||◌, Option, none, some, ◌==◌, eq_iff, eq_refl, Assoc, lookup,
  insert, delete, lookup-insert, lookup-delete, is_some, ◌≡◌, refl, arith, Bool-cases, Option-cases,
  inl, inr,
}
use apptainer.Remote.Keyservers.{Endpoint}
use apptainer.Remote.Config.{
  Config, ok, add, sync_each, default_from, sync_from, set_default, remove, rename, set_found,
  make_default, released, rename_found, remove_found, without_default, put_remote,
}
use apptainer.Remote.Config.Sync.{Step, Synced, sync_step}

-- No default is set, or there is a remote of its name.
abbrev pub default_named : Config → Bool
default_named c = c.default_remote == "" || is_some (lookup c.default_remote c.remotes)

Names : String → Config → Type 0
Names x c = is_some (lookup x c.remotes) ≡ true

put_remote-Names :
    (x : String) (c : Config) (name : String) (e : Endpoint)
    → Names x c
    → Names x (put_remote c name e)
unfolding Names
put_remote-Names x c name e h = ground (arith, h, lookup-insert name x e c.remotes)

make_default-named :
    (c : Config) (name : String) (r : Endpoint) (exclusive : Bool)
    → default_named (make_default c name r exclusive) ≡ true
make_default-named c name r exclusive =
    let m = (released c name exclusive).remotes in
    ground (arith, eq_refl name, lookup-insert name name (record r { exclusive = exclusive }) m)

set_found-named :
    (c c' : Config) (name : String) (exclusive : Bool) (o : Option Endpoint)
    → set_found c name exclusive o ≡ ok c'
    → default_named c' ≡ true
set_found-named c c' name exclusive none k = cc
set_found-named c c' name exclusive (some r) k =
    ground (arith, make_default-named c name r exclusive)

pub set_default-named :
    (c c' : Config) (name : String) (exclusive : Bool)
    → set_default c name exclusive ≡ ok c'
    → default_named c' ≡ true
unfolding set_default
set_default-named c c' name exclusive k =
    set_found-named c c' name exclusive (lookup name c.remotes) k

pub add-named :
    (c c' : Config) (name : String) (e : Endpoint)
    → default_named c ≡ true
    → add c name e ≡ ok c'
    → default_named c' ≡ true
unfolding add
add-named c c' name e h k = ground (arith, lookup-insert name c.default_remote e c.remotes)

removed-named :
    (c : Config) (name : String)
    → default_named c ≡ true
    → default_named (record (without_default c name) { remotes = delete name c.remotes }) ≡ true
removed-named c name h = elim (Bool-cases (c.default_remote == name)) [
  | inl e ↦ rw e refl
  | inr e ↦ ground (
    arith,
    e,
    lookup-delete name c.default_remote c.remotes,
    eq_iff c.default_remote name,
    eq_iff name c.default_remote,
  )
]

remove_found-named :
    (c c' : Config) (name : String) (o : Option Endpoint)
    → default_named c ≡ true
    → remove_found c name o ≡ ok c'
    → default_named c' ≡ true
remove_found-named c c' name none h k = cc
remove_found-named c c' name (some r) h k = ground (arith, removed-named c name h)

pub remove-named :
    (c c' : Config) (name : String)
    → default_named c ≡ true
    → remove c name ≡ ok c'
    → default_named c' ≡ true
unfolding remove
remove-named c c' name h k = remove_found-named c c' name (lookup name c.remotes) h k

renamed-named :
    (c c' : Config) (name new : String) (r : Endpoint)
    → default_named c ≡ true
    → lookup name c.remotes ≡ some r
    → lookup new c.remotes ≡ none
    → rename_found c name new (some r) none ≡ ok c'
    → default_named c' ≡ true
renamed-named c c' name new r h found free k = ground (
  arith,
  lookup-delete name new (insert new r c.remotes),
  lookup-delete name c.default_remote (insert new r c.remotes),
  lookup-insert new new r c.remotes,
  lookup-insert new c.default_remote r c.remotes,
  eq_iff name new,
  eq_refl new,
  eq_iff name c.default_remote,
  eq_iff c.default_remote name,
)

pub rename-named :
    (c c' : Config) (name new : String)
    → default_named c ≡ true
    → rename c name new ≡ ok c'
    → default_named c' ≡ true
unfolding rename
rename-named c c' name new h k = elim (Option-cases (lookup name c.remotes)) [
  | inl e ↦ ground (arith, e)
  | inr (r, e) ↦ elim (Option-cases (lookup new c.remotes)) [
    | inl f ↦ renamed-named c c' name new r h e f (rw (e, f) at k)
    | inr (x, f) ↦ ground (arith, e, f)
  ]
]

-- What a round keeps.
Synced-Names :
    (x : String) (c d : Config) (name : String) (s : Endpoint)
    → Synced c name s d
    → Names x c
    → Names x d
unfolding Names
Synced-Names x c d name s k h = elim (Bool-cases (name == x)) [
  | inl e ↦ subst (λ y. is_some (lookup y d.remotes) ≡ true) ((eq_iff name x).0 e) k.present
  | inr e ↦ rw (k.others x e) h
]

Synced-named :
    (c d : Config) (name : String) (s : Endpoint)
    → Synced c name s d
    → default_named c ≡ true
    → default_named d ≡ true
unfolding Names
Synced-named c d name s k h = ground (
  arith,
  Synced-Names c.default_remote c d name s k,
  k.present,
  k.either,
  eq_iff d.default_remote name,
  eq_iff d.default_remote c.default_remote,
)

-- The loop ends, keeps the remotes and has those of the list.
sync_each-Names :
    (x : String) (remotes : Assoc Endpoint) (c : Config)
    → (c' : Config) × (sync_each remotes c ≡ ok c')
      × (Names x c → Names x c')
      × (is_some (lookup x remotes) ≡ true → Names x c')
      × (default_named c ≡ true → default_named c' ≡ true)
unfolding sync_each Names Step lookup
sync_each-Names x [] c = (c, refl, λ h. h, λ h. ground arith, λ h. h)
sync_each-Names x ((name, s) ∷ remotes) c =
    let (d, e, k) = sync_step c name s in
    let (c', e', kept, listed, named) = sync_each-Names x remotes d in
    (
      c',
      rw e e',
      λ h. kept (Synced-Names x c d name s k h),
      λ h. elim (Bool-cases (name == x)) [
        | inl q ↦
            kept (subst (λ y. is_some (lookup y d.remotes) ≡ true) ((eq_iff name x).0 q) k.present)
        | inr q ↦ listed (rw q at h)
      ],
      λ h. named (Synced-named c d name s k h),
    )

default_from-named :
    (sys c : Config)
    → default_named sys ≡ true
    → default_named c ≡ true
    → (is_some (lookup sys.default_remote sys.remotes) ≡ true
        → is_some (lookup sys.default_remote c.remotes) ≡ true)
    → default_named (default_from sys c) ≡ true
default_from-named sys c h k f = ground (arith, f)

pub sync_from-named :
    (c sys c' : Config)
    → default_named sys ≡ true
    → default_named c ≡ true
    → sync_from c sys ≡ ok c'
    → default_named c' ≡ true
unfolding sync_from Names
sync_from-named c sys c' h k e =
    let (d, e', kept, listed, named) = sync_each-Names sys.default_remote sys.remotes c in
    let last : sync_from c sys ≡ ok (default_from sys d) = rw e' refl in
    ground (arith, last, default_from-named sys d h (named k) listed)
