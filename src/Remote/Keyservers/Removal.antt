-- ===== src/Remote/Keyservers/Removal.antt =====
-- What `RemoveKeyserver` leaves.
use apptainer.Prelude.{
  ℕ, suc, ◌<◌, String, List, [], ◌∷◌, ◌++◌, true, false, not, ◌&&◌, Option, if◌then◌else◌, all, ◌≡◌,
  ◌≢◌, refl, ap, ◌∙◌, arith, Bool-cases, inl, inr,
}
use apptainer.Remote.Uri.{Parse, same_keyserver}
use apptainer.Remote.Keyservers.{
  Service, Endpoint, Result, ok, err, update_keyservers_config, active, after_kept, remove_from,
  with_keyservers, remove_keyserver,
}

-- The keyserver that goes, or that stays as skipped.
pub record Removed (parse : Parse) (uri : String) (ks ks' : List Service) : Type 0 where
  pub pre : List Service
  pub post : List Service
  pub old : Service
  pub whole : ks ≡ pre ++ old ∷ post
  pub same : same_keyserver parse old.uri uri ≡ true
  pub on : old.skip ≡ false
  pub earlier : all (λ (k : Service). not (same_keyserver parse k.uri uri && not k.skip)) pre ≡ true
  pub left : ks' ≡ pre ++ (if old.external then post else record old { skip = true } ∷ post)

after_kept-ok :
    (k : Service) (r : Result (List Service)) (ks' : List Service)
    → after_kept k r ≡ ok ks'
    → (ks : List Service) × (r ≡ ok ks) × (ks' ≡ k ∷ ks)
after_kept-ok k (ok ks) ks' h = (ks, refl, ground arith)
after_kept-ok k (err x) ks' h = cc

remove_from-Removed :
    (parse : Parse) (uri : String) (total : ℕ) (ks ks' : List Service)
    → remove_from parse uri total ks ≡ ok ks'
    → Removed parse uri ks ks' × (total ≢ 1)
unfolding remove_from
remove_from-Removed parse uri total [] ks' h = cc
remove_from-Removed parse uri total (k ∷ ks) ks' h =
    elim (Bool-cases (same_keyserver parse k.uri uri && not k.skip)) [
      | inl e ↦ (
        record {
          pre = [];
          post = ks;
          old = k;
          whole = refl;
          same = ground (arith, e);
          on = ground (arith, e);
          earlier = refl;
          left = ground (arith, e);
        },
        λ one. ground (arith, e),
      )
      | inr e ↦
          let (ks1, r, eq) = after_kept-ok k (remove_from parse uri total ks) ks' (rw e at h) in
          let (d, n) = remove_from-Removed parse uri total ks ks1 r in
          (
            record {
              pre = k ∷ d.pre;
              post = d.post;
              old = d.old;
              whole = ap (λ l. k ∷ l) d.whole;
              same = d.same;
              on = d.on;
              earlier = rw (e, d.earlier) refl;
              left = eq ∙ ap (λ l. k ∷ l) d.left;
            },
            n,
          )
    ]

active-left :
    (pre post : List Service) (k : Service)
    → k.skip ≡ false
    → active (pre ++ k ∷ post)
      ≡ suc (active (pre ++ (if k.external then post else record k { skip = true } ∷ post)))
unfolding active
active-left [] post k h = ground arith
active-left (x ∷ pre) post k h = ground (arith, active-left pre post k h)

active-Removed :
    (parse : Parse) (uri : String) (ks ks' : List Service)
    → Removed parse uri ks ks'
    → active ks ≡ suc (active ks')
active-Removed parse uri ks ks' d = rw (d.whole, d.left) (active-left d.pre d.post d.old d.on)

with_keyservers-ok :
    (e e' : Endpoint) (r : Result (List Service))
    → with_keyservers e r ≡ ok e'
    → r ≡ ok e'.keyservers
with_keyservers-ok e e' (ok ks) h = ground arith
with_keyservers-ok e e' (err x) h = cc

-- Where `UpdateKeyserversConfig` succeeds, a successful `RemoveKeyserver` takes the first keyserver of
-- the URI that is not skipped out of the list, if it is external, or marks it as skipped, and keeps the
-- others. There is one less that is not skipped, and at least one is left.
pub remove_keyserver-Removed :
    (parse : Parse) (service_uri : Option String) (e e0 e' : Endpoint) (uri : String)
    → update_keyservers_config parse service_uri e ≡ ok e0
    → remove_keyserver parse service_uri e uri ≡ ok e'
    → Removed parse uri e0.keyservers e'.keyservers
      × (active e0.keyservers ≡ suc (active e'.keyservers))
      × (0 < active e'.keyservers)
unfolding remove_keyserver
remove_keyserver-Removed parse service_uri e e0 e' uri h r =
    let ok' : remove_from parse uri (active e0.keyservers) e0.keyservers ≡ ok e'.keyservers =
      with_keyservers-ok e0 e' (remove_from parse uri (active e0.keyservers) e0.keyservers)
        (rw h at r) in
    let (d, n) =
      remove_from-Removed parse uri (active e0.keyservers) e0.keyservers e'.keyservers ok' in
    let one : active e0.keyservers ≡ suc (active e'.keyservers) =
      active-Removed parse uri e0.keyservers e'.keyservers d in
    (d, one, ground (arith, one, n))
