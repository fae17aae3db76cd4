-- ===== src/Capabilities/Config/Effects.antt =====
-- What adding and dropping capabilities do, on every branch.
use apptainer.Prelude.{
  String, List, [], ◌∷◌, Option, none, some, true, false, not, ◌&&◌, ◌||◌, ◌==◌, eq_refl, arith,
  ◌≡◌, ◌≢◌, refl, ap, ◌∙◌, contains, all, Bool-cases, inl, inr, lookup, List-cases, lookup-delete,
}
use apptainer.Capabilities.Table.{known}
use apptainer.Capabilities.Config.{
  Caplist, Config, ConfigError, unknown_capability, none_assigned, Outcome, ok, err, ◌>>=◌,
  list_caps, require, check_caps, add_each, add_caps, drop_each, forget_empty, drop_caps,
  add_user_caps, add_group_caps, drop_user_caps, drop_group_caps,
}
use apptainer.Capabilities.Config.Grants.{
  granted, IsValid, granted-add_each, granted-drop_each, list_caps-forget_empty,
}

-- The name in the error stands in the list and is in no table.
abbrev pub Blames : List String → ConfigError → Type 0
Blames caps (unknown_capability a) = (contains caps a ≡ true) × (known a ≡ false)
Blames caps (none_assigned who) = ⊥

abbrev pub Checks : List String → Outcome (Unit {0}) → Type 0
Checks caps (ok u) = all known caps ≡ true
Checks caps (err e) = Blames caps e

blame_later :
    (c : String) (caps : List String) (r : Outcome (Unit {0}))
    → known c ≡ true
    → Checks caps r
    → Checks (c ∷ caps) r
blame_later c caps (ok u) k h = ground arith
blame_later c caps (err (unknown_capability a)) k h = (ground arith, h.1)
blame_later c caps (err (none_assigned a)) k h = h

pub check_caps_lem : (caps : List String) → Checks caps (check_caps caps)
unfolding check_caps
check_caps_lem [] = refl
check_caps_lem (c ∷ caps) = elim (Bool-cases (known c)) [
  | inl e ↦ rw e (blame_later c caps (check_caps caps) e (check_caps_lem caps))
  | inr e ↦ rw e (ground (arith, eq_refl c), e)
]

-- The set of `who` grew by `caps`, and no other set changed.
abbrev pub Added : Caplist → String → List String → Caplist → Type 0
Added m who caps m' =
    (j a : String) → granted m' j a ≡ (granted m j a || (who == j && contains caps a))

-- The set of `who` lost `caps`, no other set changed, and no empty list is left for `who`.
abbrev pub Dropped : Caplist → String → List String → Caplist → Type 0
Dropped m who caps m' =
    ((j a : String) → granted m' j a ≡ (granted m j a && not (who == j && contains caps a)))
    × (lookup who m' ≢ some [])

abbrev pub Adds : Caplist → String → List String → Outcome Caplist → Type 0
Adds m who caps (ok m') = (all known caps ≡ true) × Added m who caps m'
Adds m who caps (err e) = Blames caps e

abbrev pub Drops : Caplist → String → List String → Outcome Caplist → Type 0
Drops m who caps (ok m') = (all known caps ≡ true) × (lookup who m ≢ none) × Dropped m who caps m'
Drops m who caps (err (none_assigned w)) =
    (w ≡ who) × (lookup who m ≡ none) × (all known caps ≡ true)
Drops m who caps (err (unknown_capability a)) = (contains caps a ≡ true) × (known a ≡ false)

add_caps-Adds :
    (m : Caplist) (who : String) (caps : List String) → Adds m who caps (add_caps m who caps)
unfolding add_caps
add_caps-Adds m who caps = go (check_caps caps) (check_caps_lem caps)
  where
    go :
        (r : Outcome (Unit {0}))
        → Checks caps r
        → Adds m who caps (r >>= λ _. ok (add_each m who caps))
    go (ok u) h = (h, λ j a. granted-add_each m who caps j a)
    go (err e) h = h

forget_empty-lookup :
    (m : Caplist) (who : String) → lookup who (forget_empty (list_caps m who) m who) ≢ some []
unfolding forget_empty list_caps
forget_empty-lookup m who h = elim (List-cases (list_caps m who)) [
  | inl e ↦ cc (rw e at h, lookup-delete who who m, eq_refl who)
  | inr (x, l, e) ↦ ground (arith, e, rw e at h)
]

drop_caps-Drops :
    (m : Caplist) (who : String) (caps : List String)
    → IsValid m
    → Drops m who caps (drop_caps m who caps)
unfolding drop_caps
drop_caps-Drops m who caps v = go (check_caps caps) (check_caps_lem caps) (lookup who m) refl
  where
    m' : Caplist
    m' = drop_each m who caps

    go :
        (r : Outcome (Unit {0}))
        → Checks caps r
        → (o : Option (List String)) → lookup who m ≡ o
        → Drops m who caps
            (r >>= λ _. require who o >>= λ _. ok (forget_empty (list_caps m' who) m' who))
    go (err (unknown_capability a)) h o e = h
    go (err (none_assigned w)) h o e = elim h [ ]
    go (ok u) h none e = (refl, e, h)
    go (ok u) h (some l) e = (
      h,
      λ n. cc (e, n),
      (
        (λ j a.
            ap (λ (l : List String). contains l a) (list_caps-forget_empty m' who j)
            ∙ granted-drop_each m who caps j a v),
        forget_empty-lookup m' who,
      ),
    )

-- The config after a method changed the users' map, or after it changed the groups' map.
abbrev pub UsersAre : (Outcome Caplist → Type 0) → Config → Outcome Config → Type 0
UsersAre P c (ok c') = P (ok c'.users) × (c'.groups ≡ c.groups)
UsersAre P c (err e) = P (err e)

abbrev pub GroupsAre : (Outcome Caplist → Type 0) → Config → Outcome Config → Type 0
GroupsAre P c (ok c') = P (ok c'.groups) × (c'.users ≡ c.users)
GroupsAre P c (err e) = P (err e)

users_of :
    (P : Outcome Caplist → Type 0) (c : Config) (r : Outcome Caplist)
    → P r
    → UsersAre P c (r >>= λ m. ok (record c { users = m }))
users_of P c (ok m) h = (h, refl)
users_of P c (err e) h = h

groups_of :
    (P : Outcome Caplist → Type 0) (c : Config) (r : Outcome Caplist)
    → P r
    → GroupsAre P c (r >>= λ m. ok (record c { groups = m }))
groups_of P c (ok m) h = (h, refl)
groups_of P c (err e) h = h

-- Adding capabilities to a user succeeds exactly when all of them are in the table, and then
-- adds exactly those to that user's set and leaves every other user and all groups as they were;
-- otherwise the error names a capability of the list that is not in the table.
pub add_user_caps-Adds :
    (c : Config) (user : String) (caps : List String)
    → UsersAre (Adds c.users user caps) c (add_user_caps c user caps)
unfolding add_user_caps
add_user_caps-Adds c user caps =
    users_of (Adds c.users user caps) c (add_caps c.users user caps)
      (add_caps-Adds c.users user caps)

-- Adding capabilities to a group succeeds exactly when all of them are in the table, and then adds
-- exactly those to that group's set and leaves every other group and all users as they were;
-- otherwise the error names a capability of the list that is not in the table.
pub add_group_caps-Adds :
    (c : Config) (group : String) (caps : List String)
    → GroupsAre (Adds c.groups group caps) c (add_group_caps c group caps)
unfolding add_group_caps
add_group_caps-Adds c group caps =
    groups_of (Adds c.groups group caps) c (add_caps c.groups group caps)
      (add_caps-Adds c.groups group caps)

-- From lists that have no repetition and hold capabilities of the table only: dropping capabilities
-- of a user succeeds exactly when all of them are in the table and the user has a list, and then
-- takes exactly those from that user's set, leaves every other user and all groups as they were, and
-- leaves no empty list for the user; otherwise the error names a capability of the list that is not
-- in the table, or the user that has no list.
pub drop_user_caps-Drops :
    (c : Config) (user : String) (caps : List String)
    → IsValid c.users
    → UsersAre (Drops c.users user caps) c (drop_user_caps c user caps)
unfolding drop_user_caps
drop_user_caps-Drops c user caps v =
    users_of (Drops c.users user caps) c (drop_caps c.users user caps)
      (drop_caps-Drops c.users user caps v)

-- From lists that have no repetition and hold capabilities of the table only: dropping capabilities
-- of a group succeeds exactly when all of them are in the table and the group has a list, and then
-- takes exactly those from that group's set, leaves every other group and all users as they were, and
-- leaves no empty list for the group; otherwise the error names a capability of the list that is not
-- in the table, or the group that has no list.
pub drop_group_caps-Drops :
    (c : Config) (group : String) (caps : List String)
    → IsValid c.groups
    → GroupsAre (Drops c.groups group caps) c (drop_group_caps c group caps)
unfolding drop_group_caps
drop_group_caps-Drops c group caps v =
    groups_of (Drops c.groups group caps) c (drop_caps c.groups group caps)
      (drop_caps-Drops c.groups group caps v)
