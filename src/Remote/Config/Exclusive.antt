-- ===== src/Remote/Config/Exclusive.antt =====
-- A remote that the administrator set exclusive, after `SyncFrom`.
use mathlib.Core.Path.{subst}
use apptainer.Prelude.{
  String, [], ◌∷◌, Bool, true, false, not, ◌&&◌, ◌||◌, some, ◌==◌, eq_iff, Assoc, lookup, keys,
  contains, distinct, ◌≡◌, ◌≢◌, refl, sym, ap, ◌∙◌, arith, Bool-cases, inl, inr,
}
use apptainer.Remote.Keyservers.{Endpoint}
use apptainer.Remote.Config.{
  Config, ok, get_remote, sync_each, default_from, sync_from, any_exclusive, set_default,
}
use apptainer.Remote.Config.Sync.{is_open, is_locked, Step, sync_step}

-- The loop over remotes of other names leaves a remote, and the default where none is exclusive.
sync_others :
    (x : String) (remotes : Assoc Endpoint) (c : Config)
    → contains (keys remotes) x ≡ false
    → (c' : Config) × (sync_each remotes c ≡ ok c')
      × (c'.system ≡ c.system)
      × (lookup x c'.remotes ≡ lookup x c.remotes)
      × (any_exclusive remotes ≡ false → c'.default_remote ≡ c.default_remote)
unfolding sync_each any_exclusive Step get_remote
sync_others x [] c n = (c, refl, refl, refl, λ e. refl)
sync_others x ((name, s) ∷ remotes) c n =
    let (d, e, k) = sync_step c name s in
    let (c', e', same, at, default) = sync_others x remotes d (ground (arith, n)) in
    (
      c',
      rw e e',
      same ∙ k.same_kind,
      at ∙ k.others x (ground (arith, n)),
      λ q. default (ground (arith, q)) ∙ k.left (ground (arith, q)),
    )

-- No remote of another name is exclusive.
unfoldable pub only_exclusive : String → Assoc Endpoint → Bool
only_exclusive x [] = true
only_exclusive x ((name, e) ∷ remotes) = (name == x || not e.exclusive) && only_exclusive x remotes

none_exclusive :
    (x : String) (remotes : Assoc Endpoint)
    → only_exclusive x remotes ≡ true
    → contains (keys remotes) x ≡ false
    → any_exclusive remotes ≡ false
unfolding only_exclusive any_exclusive
none_exclusive x [] h n = refl
none_exclusive x ((name, e) ∷ remotes) h n = ground (arith, none_exclusive x remotes)

locked-any_exclusive :
    (x : String) (remotes : Assoc Endpoint)
    → is_locked (lookup x remotes) ≡ true
    → any_exclusive remotes ≡ true
unfolding any_exclusive lookup
locked-any_exclusive x [] h = cc
locked-any_exclusive x ((name, e) ∷ remotes) h = ground (arith, locked-any_exclusive x remotes)

sync_locks :
    (x : String) (s : Endpoint) (remotes : Assoc Endpoint) (c : Config)
    → lookup x remotes ≡ some s
    → s.exclusive ≡ true
    → only_exclusive x remotes ≡ true
    → distinct (keys remotes) ≡ true
    → is_open (lookup x c.remotes) ≡ true
    → (c' : Config) × (sync_each remotes c ≡ ok c')
      × (c'.system ≡ c.system)
      × (is_locked (lookup x c'.remotes) ≡ true)
      × (c'.default_remote ≡ x)
unfolding sync_each lookup only_exclusive Step get_remote
sync_locks x s [] c h e o d free = cc
sync_locks x s ((name, r) ∷ remotes) c h e o d free = elim (Bool-cases (name == x)) [
  | inr other ↦
      let (c1, e1, k) = sync_step c name r in
      let still : is_open (lookup x c1.remotes) ≡ true = ap is_open (k.others x other) ∙ free in
      let (c', e', same, locked, default) =
        sync_locks x s remotes c1 (ground (arith, other)) e (ground (arith, o)) (ground (arith, d))
          still in
      (c', rw e1 e', same ∙ k.same_kind, locked, default)
  | inl here ↦
      let n : name ≡ x = (eq_iff name x).0 here in
      let (c1, e1, k) = sync_step c name r in
      let found : r ≡ s = ground (arith, here) in
      let excl : r.exclusive ≡ true = ap (λ (y : Endpoint). y.exclusive) found ∙ e in
      let away : contains (keys remotes) x ≡ false =
        subst (λ y. contains (keys remotes) y ≡ false) n (ground (arith, d)) in
      let free' : is_open (lookup name c.remotes) ≡ true =
        subst (λ y. is_open (lookup y c.remotes) ≡ true) (sym n) free in
      let (c', e', same, at, default) = sync_others x remotes c1 away in
      (
        c',
        rw e1 e',
        same ∙ k.same_kind,
        ap is_locked at ∙ ap (λ y. is_locked (lookup y c1.remotes)) (sym n) ∙ k.own free' ∙ excl,
        default (none_exclusive x remotes (ground (arith, o)) away) ∙ k.taken free' excl ∙ n,
      )
]

settled : (sys c : Config) → (c.default_remote == "") ≡ false → default_from sys c ≡ c
settled sys c h = ground arith

refused :
    (c : Config) (x name : String) (exclusive : Bool)
    → c.system ≡ false
    → c.default_remote ≡ x
    → (name == x) ≡ false
    → any_exclusive c.remotes ≡ true
    → (d : Config) → set_default c name exclusive ≢ ok d
unfolding set_default
refused c x name exclusive sys def other any d h =
    let differs : (name == c.default_remote) ≡ false = ap (λ y. name == y) def ∙ other in
    ground arith

-- Let one remote of the system configuration be exclusive, under a name that is not empty and for
-- which the user has no remote but the system's, and let no two remotes of it have one name. Then
-- `SyncFrom` of a user's configuration succeeds and makes that remote the default, and `SetDefault` of
-- any other name fails afterwards.
pub sync_from-Locks :
    (c sys : Config) (x : String) (s : Endpoint)
    → c.system ≡ false
    → (x == "") ≡ false
    → lookup x sys.remotes ≡ some s
    → s.exclusive ≡ true
    → only_exclusive x sys.remotes ≡ true
    → distinct (keys sys.remotes) ≡ true
    → is_open (lookup x c.remotes) ≡ true
    → (c' : Config) × (sync_from c sys ≡ ok c')
      × (c'.default_remote ≡ x)
      × ((name : String) (exclusive : Bool)
          → (name == x) ≡ false
          → (d : Config) → set_default c' name exclusive ≢ ok d)
unfolding sync_from
sync_from-Locks c sys x s user named h e o d free =
    let (c', e', same, locked, default) = sync_locks x s sys.remotes c h e o d free in
    let stays : default_from sys c' ≡ c' = settled sys c' (ap (λ y. y == "") default ∙ named) in
    (
      c',
      rw (e', stays) refl,
      default,
      λ name exclusive n.
          refused c' x name exclusive (same ∙ user) default n
            (locked-any_exclusive x c'.remotes locked),
    )
