-- ===== src/Capabilities/Normalize/Examples.antt =====
-- Runs of the normalisation of names.
use apptainer.Prelude.{
  String, List, [], ◌∷◌, true, not, ◌&&◌, ◌||◌, ◌≡◌, refl, contains, distinct, keys, is_some,
  lookup, Assoc, arith, has_prefix, to_upper, trim_space,
}
use apptainer.Capabilities.Table.{known, table}
use apptainer.Capabilities.Normalize.{
  remove_duplicated, normal_names, normal_name, normalize, cap_all,
}
use apptainer.Capabilities.Normalize.Dedup.{remove_duplicated_lem}
use apptainer.Capabilities.Normalize.Names.{normalize_lem}

abbrev repeated : List String
repeated = "a" ∷ "b" ∷ "a" ∷ "c" ∷ "b" ∷ "d" ∷ []

remove_duplicated_test : remove_duplicated ("a" ∷ "a" ∷ "b" ∷ "c" ∷ []) ≡ "a" ∷ "c" ∷ "b" ∷ []
unfolding remove_duplicated
remove_duplicated_test = refl

remove_duplicated_lem_example :
    ((a : String) → contains (remove_duplicated repeated) a ≡ contains repeated a)
    × (distinct (remove_duplicated repeated) ≡ true)
remove_duplicated_lem_example = remove_duplicated_lem repeated

contains-keys : {V : Type 0} (m : Assoc V) (a : String) → contains (keys m) a ≡ is_some (lookup a m)
unfolding lookup
contains-keys [] a = refl
contains-keys ((k, v) ∷ m) a = ground (arith, contains-keys m a)

contains-table : (a : String) → contains (keys table) a ≡ known a
unfolding known
contains-table a = contains-keys table a

abbrev names : List String
names = " sys_admin" ∷ "CAP_CHOWN" ∷ "chown" ∷ "nothing" ∷ []

normalize_test :
    normalize (keys table) names ≡ ("CAP_SYS_ADMIN" ∷ "CAP_CHOWN" ∷ [], "CAP_NOTHING" ∷ [])
unfolding normalize normal_names remove_duplicated normal_name has_prefix to_upper trim_space known
    lookup table
normalize_test = refl

normalize_lem_example :
    ((a : String)
      → (contains (normalize (keys table) names).0 a
          ≡ ((contains (normal_names names) cap_all || contains (normal_names names) a) && known a))
        × (contains (normalize (keys table) names).1 a ≡ (
            not (contains (normal_names names) cap_all)
            && (contains (normal_names names) a && not (known a)))))
    × (distinct (normalize (keys table) names).0 ≡ true)
    × (distinct (normalize (keys table) names).1 ≡ true)
normalize_lem_example = normalize_lem (keys table) names contains-table
