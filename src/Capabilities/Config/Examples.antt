-- ===== src/Capabilities/Config/Examples.antt =====
-- Runs of the operations of config.go on small configs.
use apptainer.Prelude.{
  true, distinct, all, Bool-cases, inl, inr, ◌==◌, String, List, [], ◌∷◌, ◌≡◌, refl, lookup, insert,
  delete,
}
use apptainer.Capabilities.Table.{known, table}
use apptainer.Capabilities.Config.{
  Config, Caplist, ok, add_user_caps, drop_user_caps, list_caps, add_caps, check_caps, add_each,
  present, drop_caps, drop_each, cut_last, forget_empty,
}
use apptainer.Capabilities.Config.Grants.{IsValid}
use apptainer.Capabilities.Config.Effects.{
  UsersAre, Adds, Drops, add_user_caps-Adds, drop_user_caps-Drops,
}
use apptainer.Capabilities.Config.Commands.{
  Command, add_user, drop_user, add_group, run, BothValid, run-BothValid,
}

abbrev two : List String
two = "CAP_CHOWN" ∷ "CAP_SYS_ADMIN" ∷ []

abbrev alone : Caplist
alone = ("alice", "CAP_CHOWN" ∷ []) ∷ []

abbrev config : Config
config = record { users = alone; groups = alone }

abbrev empty : Config
empty = record { users = []; groups = [] }

empty-IsValid : IsValid []
unfolding list_caps lookup
empty-IsValid = record { no_repeat = λ who. refl; in_table = λ who. refl }

alone-IsValid : IsValid alone
unfolding list_caps lookup known table
alone-IsValid = record { no_repeat = no_repeats; in_table = all_known }
  where
    no_repeats : (who : String) → distinct (list_caps alone who) ≡ true
    no_repeats who = elim (Bool-cases ("alice" == who)) [ inl e ↦ rw e refl | inr e ↦ rw e refl ]

    all_known : (who : String) → all known (list_caps alone who) ≡ true
    all_known who = elim (Bool-cases ("alice" == who)) [ inl e ↦ rw e refl | inr e ↦ rw e refl ]

add_user_caps_test :
    add_user_caps config "alice" two ≡ ok (record { users = ("alice", two) ∷ []; groups = alone })
unfolding add_user_caps add_caps check_caps known lookup table add_each insert list_caps present
add_user_caps_test = refl

drop_user_caps_test : drop_user_caps config "alice" two ≡ ok (record { users = []; groups = alone })
unfolding drop_user_caps drop_caps check_caps known lookup table drop_each insert list_caps cut_last
    forget_empty delete
drop_user_caps_test = refl

add_user_caps-Adds_example :
    UsersAre (Adds alone "alice" two) config (add_user_caps config "alice" two)
add_user_caps-Adds_example = add_user_caps-Adds config "alice" two

drop_user_caps-Drops_example :
    UsersAre (Drops alone "alice" two) config (drop_user_caps config "alice" two)
drop_user_caps-Drops_example = drop_user_caps-Drops config "alice" two alone-IsValid

abbrev commands : List Command
commands =
    add_user "alice" two
    ∷ add_group "bob" ("CAP_NONE" ∷ [])
    ∷ drop_user "alice" ("CAP_CHOWN" ∷ [])
    ∷ []

run-BothValid_example : BothValid (run empty commands)
run-BothValid_example = run-BothValid empty commands (empty-IsValid, empty-IsValid)
