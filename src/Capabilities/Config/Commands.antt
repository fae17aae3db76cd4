-- ===== src/Capabilities/Config/Commands.antt =====
-- What holds of the config after any sequence of calls.
use apptainer.Prelude.{String, List, [], ◌∷◌, Option, none, some, lookup}
use apptainer.Capabilities.Config.{
  Caplist, Config, Outcome, ok, err, ◌>>=◌, list_caps, require, check_caps, add_each, add_caps,
  drop_each, forget_empty, drop_caps, add_user_caps, add_group_caps, drop_user_caps,
  drop_group_caps,
}
use apptainer.Capabilities.Config.Effects.{Checks, check_caps_lem}
use apptainer.Capabilities.Config.Grants.{
  IsValid, add_each-IsValid, drop_each-IsValid, list_caps-forget_empty,
}

-- One call of `apptainer capability`; a call that fails leaves the config as it was.
pub data Command : Type 0 where
  add_user add_group drop_user drop_group : String → List String → Command

abbrev kept : Config → Outcome Config → Config
kept c (ok c') = c'
kept c (err e) = c

pub run : Config → List Command → Config
run c [] = c
run c (add_user who caps ∷ rest) = run (kept c (add_user_caps c who caps)) rest
run c (add_group who caps ∷ rest) = run (kept c (add_group_caps c who caps)) rest
run c (drop_user who caps ∷ rest) = run (kept c (drop_user_caps c who caps)) rest
run c (drop_group who caps ∷ rest) = run (kept c (drop_group_caps c who caps)) rest

abbrev pub BothValid : Config → Type 0
BothValid c = IsValid c.users × IsValid c.groups

forget_empty-IsValid :
    (m : Caplist) (who : String) → IsValid m → IsValid (forget_empty (list_caps m who) m who)
forget_empty-IsValid m who v = record {
  no_repeat = λ j. rw list_caps-forget_empty (v.no_repeat j);
  in_table = λ j. rw list_caps-forget_empty (v.in_table j);
}

abbrev Valid : Outcome Caplist → Type 0
Valid (ok m) = IsValid m
Valid (err e) = Unit

add_caps-Valid :
    (m : Caplist) (who : String) (caps : List String) → IsValid m → Valid (add_caps m who caps)
unfolding add_caps
add_caps-Valid m who caps v = go (check_caps caps) (check_caps_lem caps)
  where
    go : (r : Outcome (Unit {0})) → Checks caps r → Valid (r >>= λ _. ok (add_each m who caps))
    go (ok u) h = add_each-IsValid m who caps h v
    go (err e) h = tt

drop_caps-Valid :
    (m : Caplist) (who : String) (caps : List String) → IsValid m → Valid (drop_caps m who caps)
unfolding drop_caps
drop_caps-Valid m who caps v = go (check_caps caps) (lookup who m)
  where
    m' : Caplist
    m' = drop_each m who caps

    go :
        (r : Outcome (Unit {0})) (o : Option (List String))
        → Valid (r >>= λ _. require who o >>= λ _. ok (forget_empty (list_caps m' who) m' who))
    go (err e) o = tt
    go (ok u) none = tt
    go (ok u) (some l) = forget_empty-IsValid m' who (drop_each-IsValid m who caps v)

users_kept :
    (c : Config) (r : Outcome Caplist)
    → BothValid c
    → Valid r
    → BothValid (kept c (r >>= λ m. ok (record c { users = m })))
users_kept c (ok m) v h = (h, v.1)
users_kept c (err e) v h = v

groups_kept :
    (c : Config) (r : Outcome Caplist)
    → BothValid c
    → Valid r
    → BothValid (kept c (r >>= λ m. ok (record c { groups = m })))
groups_kept c (ok m) v h = (v.0, h)
groups_kept c (err e) v h = v

-- From a config whose lists have no repetition and hold capabilities of the table only, every
-- sequence of additions and drops, failing ones included, leads to such a config.
pub run-BothValid :
    (c : Config) (commands : List Command) → BothValid c → BothValid (run c commands)
unfolding run add_user_caps add_group_caps drop_user_caps drop_group_caps
run-BothValid c [] v = v
run-BothValid c (add_user who caps ∷ rest) v =
    run-BothValid (kept c (add_user_caps c who caps)) rest
      (users_kept c (add_caps c.users who caps) v (add_caps-Valid c.users who caps v.0))
run-BothValid c (add_group who caps ∷ rest) v =
    run-BothValid (kept c (add_group_caps c who caps)) rest
      (groups_kept c (add_caps c.groups who caps) v (add_caps-Valid c.groups who caps v.1))
run-BothValid c (drop_user who caps ∷ rest) v =
    run-BothValid (kept c (drop_user_caps c who caps)) rest
      (users_kept c (drop_caps c.users who caps) v (drop_caps-Valid c.users who caps v.0))
run-BothValid c (drop_group who caps ∷ rest) v =
    run-BothValid (kept c (drop_group_caps c who caps)) rest
      (groups_kept c (drop_caps c.groups who caps) v (drop_caps-Valid c.groups who caps v.1))
