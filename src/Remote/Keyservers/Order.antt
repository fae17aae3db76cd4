-- ===== src/Remote/Keyservers/Order.antt =====
-- Where `AddKeyserver` puts a keyserver.
use apptainer.Prelude.{
  ℕ, zero, suc, ◌+◌, ◌-◌, ◌%◌, ◌^◌, ◌<◌, ◌≤◌, String, List, [], ◌∷◌, ◌++◌, Bool, true, false, not,
  ◌&&◌, Option, none, some, if◌then◌else◌, eqb, ltb, length, ◌≡◌, refl, sym, ap, arith, Bool-cases,
  ◌⊎◌, inl, inr,
}
use apptainer.Remote.Uri.{Parse, same_keyserver}
use apptainer.Remote.Keyservers.{
  Service, Endpoint, Result, ok, err, order_range, already_configured, update_keyservers_config,
  active, Match, match_or, last_match, insert_at, put_back, new_keyserver, add_matched, max_order,
  add_updated, add_keyserver,
}

active-le-length : (ks : List Service) → active ks ≤ length ks
unfolding active
active-le-length [] = omega arith
active-le-length (k ∷ ks) = ground (arith, active-le-length ks)

-- The list around a match.
abbrev pub Around : Parse → String → List Service → Match → Type 0
Around parse uri ks none = Unit
Around parse uri ks (some (pre, k, post)) =
    (ks ≡ pre ++ k ∷ post) × (same_keyserver parse k.uri uri ≡ true)

match_or-Around :
    (parse : Parse) (uri : String) (b : Bool) (k : Service) (ks : List Service) (m : Match)
    → b ≡ same_keyserver parse k.uri uri
    → Around parse uri ks m
    → Around parse uri (k ∷ ks) (match_or b k ks m)
match_or-Around parse uri b k ks (some (pre, x, post)) e h = (ap (λ l. k ∷ l) h.0, h.1)
match_or-Around parse uri true k ks none e h = (refl, sym e)
match_or-Around parse uri false k ks none e h = tt

last_match-Around :
    (parse : Parse) (uri : String) (ks : List Service)
    → Around parse uri ks (last_match parse uri ks)
unfolding last_match
last_match-Around parse uri [] = tt
last_match-Around parse uri (k ∷ ks) =
    match_or-Around parse uri (same_keyserver parse k.uri uri) k ks (last_match parse uri ks) refl
      (last_match-Around parse uri ks)

-- The list with one more at the place.
pub record At (i : ℕ) (k : Service) (ks ks' : List Service) : Type 0 where
  pub front : List Service
  pub back : List Service
  pub before : ks ≡ front ++ back
  pub after : ks' ≡ front ++ k ∷ back
  pub place : length front ≡ i

insert_at-At :
    (i : ℕ) (k : Service) (ks : List Service)
    → i ≤ length ks
    → (ks' : List Service) × (insert_at i k ks ≡ some ks') × At i k ks ks'
unfolding insert_at
insert_at-At zero k ks h =
    (k ∷ ks, refl, record { front = []; back = ks; before = refl; after = refl; place = refl })
insert_at-At (suc i) k [] h = absurd (omega arith)
insert_at-At (suc i) k (x ∷ ks) h =
    let (ks', e, a) = insert_at-At i k ks (omega arith) in
    (
      x ∷ ks',
      rw e refl,
      record {
        front = x ∷ a.front;
        back = a.back;
        before = ap (λ l. x ∷ l) a.before;
        after = ap (λ l. x ∷ l) a.after;
        place = ap suc a.place;
      },
    )

same_order : (n m : ℕ) → n ≤ m → m < 2 ^ 32 - 1 → (1 + n) % 2 ^ 32 ≡ suc n
same_order n m h k = omega arith

minus_one : (i : ℕ) → suc i - 1 ≡ i
minus_one i = omega arith

-- The new keyserver, or the skipped one of the list, which leaves its place.
unfoldable pub Origin : Parse → String → Bool → List Service → List Service → Service → Type 0
Origin parse uri insecure ks rest k =
    ((k ≡ new_keyserver uri insecure) × (rest ≡ ks) × (last_match parse uri ks ≡ none))
    ⊎ ((pre : List Service) × (post : List Service) × (old : Service) × (ks ≡ pre ++ old ∷ post)
        × (rest ≡ pre ++ post)
        × (k ≡ record old { skip = false })
        × (old.skip ≡ true)
        × (old.external ≡ false)
        × (same_keyserver parse old.uri uri ≡ true))

pub record Inserted (parse : Parse) (uri : String) (insecure : Bool) (order : ℕ)
    (ks ks' : List Service) : Type 0 where
  pub added : Service
  pub rest : List Service
  pub index : ℕ
  pub origin : Origin parse uri insecure ks rest added
  pub at : At index added rest ks'
  pub numbered : suc index ≡ order

unfoldable pub Added : Parse → String → Bool → ℕ → Endpoint → Result Endpoint → Type 0
Added parse uri insecure order e r =
    ((r ≡ err already_configured)
      × ((pre : List Service) × (post : List Service) × (k : Service) × (e.keyservers
            ≡ pre ++ k ∷ post)
          × (same_keyserver parse k.uri uri ≡ true)
          × ((not k.external && k.skip) ≡ false)))
    ⊎ ((e' : Endpoint) × (r ≡ ok e') × Inserted parse uri insecure order e.keyservers e'.keyservers)

put_back-Added :
    (parse : Parse) (uri : String) (insecure : Bool) (i : ℕ) (e : Endpoint) (k : Service)
    (rest : List Service)
    → Origin parse uri insecure e.keyservers rest k
    → i ≤ length rest
    → Added parse uri insecure (suc i) e (put_back e (insert_at i k rest))
unfolding Added
put_back-Added parse uri insecure i e k rest o h =
    let (ks', eq, a) = insert_at-At i k rest h in
    inr (
      record e { keyservers = ks' },
      rw eq refl,
      record { added = k; rest = rest; index = i; origin = o; at = a; numbered = refl },
    )

active-skipped :
    (pre post : List Service) (k : Service)
    → k.skip ≡ true
    → active (pre ++ k ∷ post) ≡ active (pre ++ post)
unfolding active
active-skipped [] post k h = ground arith
active-skipped (x ∷ pre) post k h = ground (arith, active-skipped pre post k h)

matched-Added :
    (parse : Parse) (uri : String) (insecure : Bool) (i : ℕ) (e : Endpoint) (m : Match)
    → m ≡ last_match parse uri e.keyservers
    → Around parse uri e.keyservers m
    → i ≤ active e.keyservers
    → Added parse uri insecure (suc i) e (add_matched e uri insecure (suc i) m)
unfolding Origin Added
matched-Added parse uri insecure i e none h a le = rw minus_one (
    put_back-Added parse uri insecure i e (new_keyserver uri insecure) e.keyservers
      (inl (refl, refl, sym h)) (omega (arith, active-le-length e.keyservers)))
matched-Added parse uri insecure i e (some (pre, k, post)) h a le =
    elim (Bool-cases (not k.external && k.skip)) [
      | inr x ↦ inl (ground (arith, x), (pre, post, k, a.0, a.1, x))
      | inl x ↦
          let s : k.skip ≡ true = ground (arith, x) in
          let reached : add_matched e uri insecure (suc i) (some (pre, k, post))
              ≡ put_back e (insert_at i (record k { skip = false }) (pre ++ post)) =
            ground (arith, x, minus_one i) in
          rw reached (
            put_back-Added parse uri insecure i e (record k { skip = false }) (pre ++ post)
              (inr (pre, post, k, a.0, refl, refl, s, ground (arith, x), a.1))
              (omega (
                arith,
                ap active a.0,
                active-skipped pre post k s,
                active-le-length (pre ++ post),
              )))
    ]

ordered-Added :
    (parse : Parse) (uri : String) (insecure : Bool) (order : ℕ) (e : Endpoint)
    → eqb order 0 ≡ false
    → order ≤ suc (active e.keyservers)
    → Added parse uri insecure order e
        (add_matched e uri insecure order (last_match parse uri e.keyservers))
ordered-Added parse uri insecure zero e h le = cc
ordered-Added parse uri insecure (suc i) e h le =
    matched-Added parse uri insecure i e (last_match parse uri e.keyservers) refl
      (last_match-Around parse uri e.keyservers) (omega arith)

-- The place that the order asks for.
abbrev pub place_of : ℕ → List Service → ℕ
place_of order ks = if eqb order 0 then suc (active ks) else order

updated-Added :
    (parse : Parse) (uri : String) (insecure : Bool) (order : ℕ) (e : Endpoint)
    → length e.keyservers < 2 ^ 32 - 1
    → (add_updated parse uri order insecure (ok e) ≡ err order_range
        × suc (active e.keyservers) < order)
      ⊎ Added parse uri insecure
          (place_of order e.keyservers)
          e
          (add_updated parse uri order insecure (ok e))
updated-Added parse uri insecure order e small =
    let most : max_order e.keyservers ≡ suc (active e.keyservers) =
      same_order (active e.keyservers) (length e.keyservers) (active-le-length e.keyservers)
        small in
    elim (Bool-cases (eqb order 0)) [
      | inl z ↦
          let here : add_updated parse uri order insecure (ok e)
              ≡ add_matched e uri insecure (suc (active e.keyservers))
                  (last_match parse uri e.keyservers) =
            ground (arith, z, most) in
          let placed : place_of order e.keyservers ≡ suc (active e.keyservers) =
            ground (arith, z) in
          inr (
            rw (here, placed)
              (ordered-Added parse uri insecure (suc (active e.keyservers)) e (ground arith)
                (omega arith)))
      | inr z ↦ elim (Bool-cases (ltb (max_order e.keyservers) order)) [
        | inl over ↦ inl (ground (arith, z, over), ground (arith, over, most))
        | inr over ↦
            let here : add_updated parse uri order insecure (ok e)
                ≡ add_matched e uri insecure order (last_match parse uri e.keyservers) =
              ground (arith, z, over) in
            let placed : place_of order e.keyservers ≡ order = ground (arith, z) in
            inr (
              rw (here, placed)
                (ordered-Added parse uri insecure order e z (ground (arith, over, most))))
      ]
    ]

-- On less than 2^32 - 1 keyservers and where `UpdateKeyserversConfig` succeeds, `AddKeyserver` ends
-- without an index out of range: it refuses an order that is more than one above the number of the
-- keyservers that are not skipped, it refuses a keyserver that is in the list and that is external or
-- not skipped, or it puts the new keyserver, or the skipped one of the list, at the index of the order
-- (0 stands for the highest) among the other keyservers, whose order stays.
pub add_keyserver-Inserted :
    (parse : Parse) (service_uri : Option String) (e e' : Endpoint) (uri : String) (order : ℕ)
    (insecure : Bool)
    → update_keyservers_config parse service_uri e ≡ ok e'
    → length e'.keyservers < 2 ^ 32 - 1
    → (add_keyserver parse service_uri e uri order insecure ≡ err order_range
        × suc (active e'.keyservers) < order)
      ⊎ Added parse uri insecure
          (place_of order e'.keyservers)
          e'
          (add_keyserver parse service_uri e uri order insecure)
unfolding add_keyserver
add_keyserver-Inserted parse service_uri e e' uri order insecure h small =
    rw h (updated-Added parse uri insecure order e' small)
