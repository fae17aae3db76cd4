-- ===== src/Capabilities/Config/Grants.antt =====
-- What adding and dropping do to the set of capabilities that each name has.
use apptainer.Prelude.{
  String, List, [], ◌∷◌, ◌++◌, Bool, true, not, ◌&&◌, ◌||◌, ◌==◌, eq_iff, arith, ◌≡◌, refl, ap, ◌∙◌,
  contains, contains-append, contains_congr, all-append, List-cases, distinct, all, if◌then◌else◌,
  Bool-cases, Option-cases, inl, inr, insert, delete, lookup-insert, lookup-delete,
}
use apptainer.Capabilities.Table.{known}
use apptainer.Capabilities.Config.{
  Caplist, list_caps, present, cut_last, add_each, put_if, drop_each, forget_empty,
}
use apptainer.Capabilities.Config.Lists.{
  present-contains, or_same, contains-cut_last, distinct-cut_last, distinct-concat,
}

-- Is the capability assigned to the name?
abbrev pub granted : Caplist → String → String → Bool
granted m who a = contains (list_caps m who) a

pub list_caps-insert :
    (m : Caplist) (k j : String) (l : List String)
    → list_caps (insert k l m) j ≡ (if k == j then l else list_caps m j)
unfolding list_caps
list_caps-insert m k j l = ground (arith, lookup-insert k j l m)

pub list_caps-delete :
    (m : Caplist) (k j : String) → list_caps (delete k m) j ≡ (if k == j then [] else list_caps m j)
unfolding list_caps
list_caps-delete m k j = ground (arith, lookup-delete k j m)

list_caps_congr : (m : Caplist) (j k : String) → (j == k) ≡ true → list_caps m j ≡ list_caps m k
list_caps_congr m j k h = ap (list_caps m) ((eq_iff j k).0 h)

-- Every list has no repetition, and holds capabilities of the table only.
pub record IsValid (m : Caplist) : Type 0 where
  pub no_repeat : (who : String) → distinct (list_caps m who) ≡ true
  pub in_table : (who : String) → all known (list_caps m who) ≡ true

abbrev add_one : Caplist → String → String → Caplist
add_one m who a =
    if present (list_caps m who) a then m else insert who (list_caps m who ++ a ∷ []) m

granted-add_one :
    (m : Caplist) (who a j b : String)
    → granted (add_one m who a) j b ≡ (granted m j b || (who == j && a == b))
granted-add_one m who a j b = elim (Bool-cases (present (list_caps m who) a)) [
  | inl e ↦ ground (
    arith,
    e,
    present-contains (list_caps m who) a,
    contains_congr (list_caps m who) a b,
    eq_iff who j,
  )
  | inr e ↦ ground (
    arith,
    e,
    list_caps-insert m who j (list_caps m who ++ a ∷ []),
    contains-append (list_caps m who) (a ∷ []) b,
    eq_iff who j,
  )
]

pub granted-add_each :
    (m : Caplist) (who : String) (caps : List String) (j b : String)
    → granted (add_each m who caps) j b ≡ (granted m j b || (who == j && contains caps b))
unfolding add_each
granted-add_each m who [] j b = ground arith
granted-add_each m who (a ∷ caps) j b =
    ground (arith, granted-add_each (add_one m who a) who caps j b, granted-add_one m who a j b)

add_one-IsValid :
    (m : Caplist) (who a : String) → known a ≡ true → IsValid m → IsValid (add_one m who a)
add_one-IsValid m who a k v = elim (Bool-cases (present (list_caps m who) a)) [
  | inl e ↦ rw e v
  | inr e ↦ rw e (record {
    no_repeat = λ j. ground (
      arith,
      e,
      list_caps-insert m who j (list_caps m who ++ a ∷ []),
      v.no_repeat j,
      v.no_repeat who,
      distinct-concat (list_caps m who) a,
      present-contains (list_caps m who) a,
    );
    in_table = λ j. ground (
      arith,
      e,
      k,
      list_caps-insert m who j (list_caps m who ++ a ∷ []),
      v.in_table j,
      v.in_table who,
      all-append known (list_caps m who) (a ∷ []),
    );
  })
]

pub add_each-IsValid :
    (m : Caplist) (who : String) (caps : List String)
    → all known caps ≡ true
    → IsValid m
    → IsValid (add_each m who caps)
unfolding add_each
add_each-IsValid m who [] k v = v
add_each-IsValid m who (a ∷ caps) k v =
    add_each-IsValid (add_one m who a) who caps (ground arith)
      (add_one-IsValid m who a (ground arith) v)

abbrev drop_one : Caplist → String → String → Caplist
drop_one m who a = put_if who (cut_last (list_caps m who) a) m

list_caps-drop_one :
    (m : Caplist) (who a j : String)
    → list_caps (drop_one m who a) j ≡ (
        if who == j
        then or_same (list_caps m who) (cut_last (list_caps m who) a)
        else list_caps m j)
list_caps-drop_one m who a j = elim (Option-cases (cut_last (list_caps m who) a)) [
  | inl e ↦ rw e (ground (arith, eq_iff who j, list_caps_congr m who j))
  | inr (r, e) ↦ rw e (list_caps-insert m who j r)
]

granted-drop_one :
    (m : Caplist) (who a j b : String)
    → IsValid m
    → granted (drop_one m who a) j b ≡ (granted m j b && not (who == j && a == b))
granted-drop_one m who a j b v = ground (
  arith,
  list_caps-drop_one m who a j,
  list_caps_congr m who j,
  contains-cut_last (list_caps m who) a b,
  v.no_repeat who,
)

all_known-cut_last :
    (l : List String) (a : String)
    → all known l ≡ true
    → all known (or_same l (cut_last l a)) ≡ true
unfolding cut_last
all_known-cut_last [] a h = refl
all_known-cut_last (x ∷ l) a h = elim (Option-cases (cut_last l a)) [
  | inl e ↦ ground (arith, e)
  | inr (r, e) ↦ ground (arith, e, all_known-cut_last l a)
]

drop_one-IsValid : (m : Caplist) (who a : String) → IsValid m → IsValid (drop_one m who a)
drop_one-IsValid m who a v = record {
  no_repeat = λ j. ground (
    arith,
    list_caps-drop_one m who a j,
    v.no_repeat j,
    v.no_repeat who,
    distinct-cut_last (list_caps m who) a,
  );
  in_table = λ j. ground (
    arith,
    list_caps-drop_one m who a j,
    v.in_table j,
    v.in_table who,
    all_known-cut_last (list_caps m who) a,
  );
}

pub drop_each-IsValid :
    (m : Caplist) (who : String) (caps : List String) → IsValid m → IsValid (drop_each m who caps)
unfolding drop_each
drop_each-IsValid m who [] v = v
drop_each-IsValid m who (a ∷ caps) v =
    drop_each-IsValid (drop_one m who a) who caps (drop_one-IsValid m who a v)

pub granted-drop_each :
    (m : Caplist) (who : String) (caps : List String) (j b : String)
    → IsValid m
    → granted (drop_each m who caps) j b ≡ (granted m j b && not (who == j && contains caps b))
unfolding drop_each
granted-drop_each m who [] j b v = ground arith
granted-drop_each m who (a ∷ caps) j b v = ground (
  arith,
  granted-drop_each (drop_one m who a) who caps j b (drop_one-IsValid m who a v),
  granted-drop_one m who a j b v,
)

-- Forgetting a name whose list is empty changes no list.
pub list_caps-forget_empty :
    (m : Caplist) (who j : String)
    → list_caps (forget_empty (list_caps m who) m who) j ≡ list_caps m j
unfolding forget_empty
list_caps-forget_empty m who j = elim (List-cases (list_caps m who)) [
  | inl e ↦ rw e (list_caps-delete m who j ∙ ground (arith, e, list_caps_congr m who j))
  | inr (x, l, e) ↦ rw e refl
]
