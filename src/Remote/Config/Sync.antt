-- ===== src/Remote/Config/Sync.antt =====
-- One round of the loop of `SyncFrom`.
use apptainer.Prelude.{
  String, Bool, true, false, ◌||◌, Option, none, some, ◌==◌, eq_refl, lookup, insert, lookup-insert,
  is_some, ◌≡◌, refl, arith, Bool-cases, Option-cases, inl, inr,
}
use apptainer.Remote.Keyservers.{Endpoint, set_credentials}
use apptainer.Remote.Config.{Config, ok, got, add, default_if, from_system, sync_got, put_remote}

-- The remote of the name is the system's, or there is none.
abbrev pub is_open : Option Endpoint → Bool
is_open none = true
is_open (some e) = e.system

abbrev pub is_locked : Option Endpoint → Bool
is_locked none = false
is_locked (some e) = e.exclusive

-- What a round of the loop does.
pub record Synced (c : Config) (name : String) (s : Endpoint) (c' : Config) : Type 0 where
  pub same_kind : c'.system ≡ c.system
  pub others : (j : String) → (name == j) ≡ false → lookup j c'.remotes ≡ lookup j c.remotes
  pub present : is_some (lookup name c'.remotes) ≡ true
  pub own :
      is_open (lookup name c.remotes) ≡ true → is_locked (lookup name c'.remotes) ≡ s.exclusive
  pub taken : is_open (lookup name c.remotes) ≡ true → s.exclusive ≡ true → c'.default_remote ≡ name
  pub left : s.exclusive ≡ false → c'.default_remote ≡ c.default_remote
  pub either : (c'.default_remote == name || c'.default_remote == c.default_remote) ≡ true

unfoldable pub Step : Config → String → Endpoint → Option Endpoint → Type 0
Step c name s o = (c' : Config) × (sync_got c name s (got c name o) ≡ ok c') × Synced c name s c'

module _ (c : Config) (name : String) (s : Endpoint) where
  new : Config → Config
  new d = put_remote d name (from_system s)

  sync_new : (b : Bool) → s.exclusive ≡ b → lookup name c.remotes ≡ none → Step c name s none
  unfolding Step add new
  sync_new b e h = (
    new (default_if b name c),
    ground (arith, e, h),
    record {
      same_kind = ground arith;
      others = λ j n.
          ground (arith, n, lookup-insert name j (from_system s) (default_if b name c).remotes);
      present = ground (
        arith,
        eq_refl name,
        lookup-insert name name (from_system s) (default_if b name c).remotes,
      );
      own = λ o. ground (
        arith,
        eq_refl name,
        lookup-insert name name (from_system s) (default_if b name c).remotes,
      );
      taken = λ o x. ground arith;
      left = λ x. ground arith;
      either = ground (arith, eq_refl name, eq_refl c.default_remote);
    },
  )

  kept : Endpoint → Endpoint
  kept u = set_credentials u c.credentials

  changed : Endpoint → Endpoint
  changed u = record (kept u) { uri = s.uri; exclusive = s.exclusive; keyservers = s.keyservers }

  -- The user's own remote of the name stays.
  sync_own :
      (u : Endpoint) → u.system ≡ false → lookup name c.remotes ≡ some u → Step c name s (some u)
  unfolding Step kept
  sync_own u k h = (
    put_remote c name (kept u),
    ground (arith, k),
    record {
      same_kind = refl;
      others = λ j n. ground (arith, n, lookup-insert name j (kept u) c.remotes);
      present = ground (arith, eq_refl name, lookup-insert name name (kept u) c.remotes);
      own = λ o. ground (arith, h, k);
      taken = λ o x. ground (arith, h, k);
      left = λ x. refl;
      either = ground (arith, eq_refl c.default_remote);
    },
  )

  sync_old :
      (u : Endpoint) (b : Bool)
      → s.exclusive ≡ b
      → u.system ≡ true
      → lookup name c.remotes ≡ some u
      → Step c name s (some u)
  unfolding Step kept changed
  sync_old u b e k h = (
    default_if b name (put_remote (put_remote c name (kept u)) name (changed u)),
    ground (arith, e, k),
    record {
      same_kind = ground arith;
      others = λ j n. ground (
        arith,
        n,
        lookup-insert name j (kept u) c.remotes,
        lookup-insert name j (changed u) (insert name (kept u) c.remotes),
      );
      present = ground (
        arith,
        eq_refl name,
        lookup-insert name name (changed u) (insert name (kept u) c.remotes),
      );
      own = λ o. ground (
        arith,
        eq_refl name,
        lookup-insert name name (changed u) (insert name (kept u) c.remotes),
      );
      taken = λ o x. ground arith;
      left = λ x. ground arith;
      either = ground (arith, eq_refl name, eq_refl c.default_remote);
    },
  )

  pub sync_step : Step c name s (lookup name c.remotes)
  sync_step = elim (Option-cases (lookup name c.remotes)) [
    | inl e ↦ rw e (sync_new s.exclusive refl e)
    | inr (u, e) ↦ rw e (elim (Bool-cases u.system) [
      | inl k ↦ sync_old u s.exclusive refl k e
      | inr k ↦ sync_own u k e
    ])
  ]
