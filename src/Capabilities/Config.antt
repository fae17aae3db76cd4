-- ===== src/Capabilities/Config.antt =====
-- config.go: the capabilities that the administrator authorises for users and for groups.
-- A nil slice and an empty one are both `[]`. The two maps are made before a file is decoded into
-- them, so the model has no nil map.
mod Examples
pub mod Lists
pub mod Grants
pub mod Effects
pub mod Commands
use apptainer.Prelude.{
  String, List, [], ◌∷◌, ◌++◌, Option, none, some, Bool, true, false, ◌||◌, ◌==◌, if◌then◌else◌,
  Assoc, lookup, insert, delete,
}
use apptainer.Capabilities.Table.{known}

abbrev pub Caplist : Type 0
Caplist = Assoc (List String)

pub record Config : Type 0 where
  pub users : Caplist
  pub groups : Caplist

pub data ConfigError : Type 0 where
  unknown_capability : String → ConfigError
  none_assigned : String → ConfigError

pub data Outcome {ℓ} (A : Type ℓ) : Type ℓ where
  ok : A → Outcome A
  err : ConfigError → Outcome A

infixl 5 ◌>>=◌ ◌>>◌
abbrev pub ◌>>=◌ {ℓ κ} : {A : Type ℓ} {B : Type κ} → Outcome A → (A → Outcome B) → Outcome B
ok a >>= f = f a
err e >>= f = err e

abbrev pub ◌>>◌ {ℓ} : {B : Type ℓ} → Outcome (Unit {0}) → Outcome B → Outcome B
m >> k = m >>= λ _. k

-- The value of a missing key is the nil slice.
abbrev or_nil : Option (List String) → List String
or_nil none = []
or_nil (some l) = l

-- `c.Users[user]`, and `ListUserCaps`
pub list_caps : Caplist → String → List String
list_caps m who = or_nil (lookup who m)

pub check_caps : List String → Outcome (Unit {0})
check_caps [] = ok tt
check_caps (c ∷ cs) = if known c then check_caps cs else err (unknown_capability c)

-- The scan of the assigned list; it has no `break`.
pub present : List String → String → Bool
present [] capability = false
present (c ∷ cs) capability = c == capability || present cs capability

-- The loop of `AddUserCaps` and `AddGroupCaps`.
pub add_each : Caplist → String → List String → Caplist
unfolding present list_caps
add_each m who [] = m
add_each m who (capability ∷ caps) =
    let assigned = list_caps m who in
    add_each (if present assigned capability then m else insert who (assigned ++ capability ∷ []) m)
      who caps

pub add_caps : Caplist → String → List String → Outcome Caplist
add_caps m who caps = do check_caps caps; ok (add_each m who caps)

pub add_user_caps : Config → String → List String → Outcome Config
add_user_caps c user caps = do m ← add_caps c.users user caps; ok (record c { users = m })

pub add_group_caps : Config → String → List String → Outcome Config
add_group_caps c group caps = do m ← add_caps c.groups group caps; ok (record c { groups = m })

-- The scan from the last index down to 0, which cuts out the first match that it meets; `none`
-- where there is no match.
pub cut_last : List String → String → Option (List String)
cut_last [] capability = none
cut_last (c ∷ cs) capability = elim (cut_last cs capability) [
  | some r ↦ some (c ∷ r)
  | none ↦ if c == capability then some cs else none
]

abbrev pub put_if : String → Option (List String) → Caplist → Caplist
put_if who none m = m
put_if who (some l) m = insert who l m

-- The loop of `DropUserCaps` and `DropGroupCaps`.
pub drop_each : Caplist → String → List String → Caplist
unfolding cut_last list_caps
drop_each m who [] = m
drop_each m who (capability ∷ caps) =
    drop_each (put_if who (cut_last (list_caps m who) capability) m) who caps

-- `if len(c.Users[user]) == 0 { delete(c.Users, user) }`
pub forget_empty : List String → Caplist → String → Caplist
forget_empty [] m who = delete who m
forget_empty (c ∷ cs) m who = m

abbrev pub require : String → Option (List String) → Outcome (Unit {0})
require who none = err (none_assigned who)
require who (some l) = ok tt

pub drop_caps : Caplist → String → List String → Outcome Caplist
unfolding forget_empty
drop_caps m who caps = do
  check_caps caps
  require who (lookup who m)
  let m' = drop_each m who caps
  ok (forget_empty (list_caps m' who) m' who)

pub drop_user_caps : Config → String → List String → Outcome Config
drop_user_caps c user caps = do m ← drop_caps c.users user caps; ok (record c { users = m })

pub drop_group_caps : Config → String → List String → Outcome Config
drop_group_caps c group caps = do m ← drop_caps c.groups group caps; ok (record c { groups = m })

pub list_all_caps : Config → Caplist × Caplist
list_all_caps c = (c.users, c.groups)

-- The inner loop of the checks, which stops at the first match.
pub is_assigned : List String → String → Bool
is_assigned [] ca = false
is_assigned (c ∷ cs) ca = if c == ca then true else is_assigned cs ca

abbrev pub check_each :
    List String → List String → List String → List String → List String × List String
check_each assigned [] authorized unauthorized = (authorized, unauthorized)
check_each assigned (ca ∷ caps) authorized unauthorized =
    let found = is_assigned assigned ca in
    check_each assigned caps (if found then authorized ++ ca ∷ [] else authorized)
      (if found then unauthorized else unauthorized ++ ca ∷ [])

-- The authorised ones among `caps`, and the others.
pub check_user_caps : Config → String → List String → List String × List String
unfolding is_assigned list_caps
check_user_caps c user caps = check_each (list_caps c.users user) caps [] []

pub check_group_caps : Config → String → List String → List String × List String
unfolding is_assigned list_caps
check_group_caps c group caps = check_each (list_caps c.groups group) caps [] []
