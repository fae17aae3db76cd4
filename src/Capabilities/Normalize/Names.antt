-- ===== src/Capabilities/Normalize/Names.antt =====
-- Which names `Normalize` takes for capabilities.
use apptainer.Prelude.{
  String, List, [], ◌∷◌, ◌++◌, true, false, not, ◌&&◌, ◌||◌, ◌==◌, eq_iff, contains,
  contains-append, distinct, arith, ◌≡◌, ap, ◌∙◌, Bool-cases, inl, inr, if◌then◌else◌,
}
use apptainer.Capabilities.Table.{known}
use apptainer.Capabilities.Normalize.{cap_all, normal_names, sort_out, normalize}
use apptainer.Capabilities.Normalize.Dedup.{remove_duplicated_lem}

known_congr : (a b : String) → (a == b) ≡ true → known a ≡ known b
known_congr a b h = ap known ((eq_iff a b).0 h)

contains-sort_out :
    (order included excluded caps : List String) (a : String)
    → (contains (sort_out order included excluded caps).0 a ≡ (
        if contains caps cap_all
        then contains order a
        else (contains included a || (contains caps a && known a))))
      × (contains (sort_out order included excluded caps).1 a ≡ (
          if contains caps cap_all
          then false
          else (contains excluded a || (contains caps a && not (known a)))))
unfolding sort_out
contains-sort_out order included excluded [] a = ground arith
contains-sort_out order included excluded (c ∷ caps) a = elim (Bool-cases (known c)) [
  | inl e ↦ rw e (
      ground (
        arith,
        e,
        known_congr c a,
        contains-append included (c ∷ []) a,
        contains-sort_out order (included ++ c ∷ []) excluded caps a,
      ))
  | inr e ↦ rw e (
      ground (
        arith,
        e,
        known_congr c a,
        contains-append excluded (c ∷ []) a,
        contains-sort_out order included (excluded ++ c ∷ []) caps a,
      ))
]

-- The first list holds the capabilities of the table that the names, normalised, name, and all of
-- the table where CAP_ALL is among them. The second holds the names that are in no table, and
-- nothing where CAP_ALL is among them. Neither has a repetition. `order` is any order of the keys.
pub normalize_lem :
    (order caps : List String)
    → ((a : String) → contains order a ≡ known a)
    → ((a : String)
        → (contains (normalize order caps).0 a
            ≡ ((contains (normal_names caps) cap_all || contains (normal_names caps) a) && known a))
          × (contains (normalize order caps).1 a ≡ (
              not (contains (normal_names caps) cap_all)
              && (contains (normal_names caps) a && not (known a)))))
      × (distinct (normalize order caps).0 ≡ true)
      × (distinct (normalize order caps).1 ≡ true)
unfolding normalize
normalize_lem order caps h =
    let (inc, exc) = sort_out order [] [] (normal_names caps) in
    (
      λ a. (
        (remove_duplicated_lem inc).0 a
            ∙ ground (arith, h a, contains-sort_out order [] [] (normal_names caps) a),
        (remove_duplicated_lem exc).0 a
            ∙ ground (arith, contains-sort_out order [] [] (normal_names caps) a),
      ),
      (remove_duplicated_lem inc).1,
      (remove_duplicated_lem exc).1,
    )
