-- ===== src/Ecl/Decide/Permits.antt =====
-- When the rules permit an image.
use apptainer.Prelude.{
  ℕ, List, [], Bool, true, false, not, Option, none, some, ◌≡◌, inl, inr, refl, ap, ◌∙◌, any, all,
  arith, ◌==◌, if◌then◌else◌, Bool-cases, Option-cases,
}
use apptainer.Ecl.Hex.{Fingerprint, names_key}
use apptainer.Ecl.Config.{Execgroup, EclConfig, get_exec_group}
use apptainer.Ecl.Policy.{white_list, white_strict, black_list}
use apptainer.Ecl.Policy.Lists.{vouches, white_list-any, white_strict-all, black_list-any}
use apptainer.Ecl.Decide.{
  Verifier, Image, Verdict, run, signers_unknown, not_signed_by_required, signed_by_forbidden,
  not_in_group, load_failed, invalid_signature, no_verifier, call_back, or_stop, verdict_of,
  check_fingerprints, verify_with, verify_image, should_run_open, should_run_fp,
}

abbrev holds_of : Option (List Fingerprint) → (List Fingerprint → Bool) → Bool
holds_of none p = false
holds_of (some fps) p = p fps

-- The policy of the group: some key, or every key, vouches for the image, or no key names a signer.
abbrev pub policy : Execgroup → Verifier → List Fingerprint → Bool
policy g v unvalidated =
    if g.list_mode == "whitelist"
    then holds_of v.all_signed_by (λ fps. any (vouches fps unvalidated) g.key_fps)
    else if g.list_mode == "whitestrict"
    then holds_of v.all_signed_by (λ fps. all (vouches fps unvalidated) g.key_fps)
    else if g.list_mode == "blacklist"
    then holds_of v.any_signed_by (λ fps. not (any (λ key. any (names_key key) fps) g.key_fps))
    else false

-- The verifier that the config asks for: the legacy one looks at the primary partition alone.
abbrev limited : Image → Option ℕ → Option Verifier
limited img none = none
limited img (some id) = img.new_verifier (some id)

abbrev pub verifier_for : EclConfig → Image → Option Verifier
verifier_for ecl img = if ecl.legacy then limited img img.primary else img.new_verifier none

-- What the rules ask of an image where they are activated.
pub record Permits (ecl : EclConfig) (img : Image) : Type 0 where
  pub group : Execgroup
  pub verifier : Verifier
  pub in_group : get_exec_group ecl img.name ≡ some group
  pub loaded : img.loads ≡ true
  pub made : verifier_for ecl img ≡ some verifier
  pub verified : verifier.accepts (call_back img [] verifier.results).1 ≡ true
  pub allowed : policy group verifier (call_back img [] verifier.results).0 ≡ true

is_run : Verdict → Bool
is_run run = true
is_run _ = false

is_run-run : (v : Verdict) → is_run v ≡ true → v ≡ run
unfolding is_run
is_run-run run h = refl
is_run-run _ h = cc

is_run-verdict_of : (e : Verdict) (b : Bool) → is_run e ≡ false → is_run (verdict_of e b) ≡ b
unfolding is_run
is_run-verdict_of e true h = refl
is_run-verdict_of e false h = h

is_run-signed :
    (o : Option (List Fingerprint)) (e : Verdict) (p q : List Fingerprint → Bool)
    → is_run e ≡ false
    → ((fps : List Fingerprint) → p fps ≡ q fps)
    → is_run (or_stop signers_unknown o (λ fps. verdict_of e (p fps))) ≡ holds_of o q
unfolding is_run
is_run-signed none e p q h k = refl
is_run-signed (some fps) e p q h k = is_run-verdict_of e (p fps) h ∙ k fps

check_fingerprints-policy :
    (g : Execgroup) (v : Verifier) (unvalidated : List Fingerprint)
    → is_run (check_fingerprints g v unvalidated) ≡ policy g v unvalidated
unfolding check_fingerprints is_run
check_fingerprints-policy g v unvalidated = ground (
  arith,
  is_run-signed v.all_signed_by not_signed_by_required (λ fps. white_list g.key_fps fps unvalidated)
      (λ fps. any (vouches fps unvalidated) g.key_fps) refl
      (λ fps. white_list-any g.key_fps fps unvalidated),
  is_run-signed v.all_signed_by not_signed_by_required
      (λ fps. white_strict g.key_fps fps unvalidated)
      (λ fps. all (vouches fps unvalidated) g.key_fps) refl
      (λ fps. white_strict-all g.key_fps fps unvalidated),
  is_run-signed v.any_signed_by signed_by_forbidden (λ fps. black_list g.key_fps fps)
      (λ fps. not (any (λ key. any (names_key key) fps) g.key_fps)) refl
      (λ fps. black_list-any g.key_fps fps),
)

-- The result of `or_stop` is `run` only through the value.
or_stop-run :
    {A : Type 0} (e : Verdict) (o : Option A) (k : A → Verdict)
    → is_run e ≡ false
    → or_stop e o k ≡ run
    → (a : A) × (o ≡ some a) × (k a ≡ run)
unfolding is_run
or_stop-run e none k h r = ground (arith, ap is_run r)
or_stop-run e (some a) k h r = (a, refl, r)

verify_image-verify_with :
    (ecl : EclConfig) (img : Image) (g : Execgroup)
    → verify_image ecl img g ≡ run
    → verify_with img g (verifier_for ecl img) ≡ run
unfolding verify_image
verify_image-verify_with ecl img g h = elim (Bool-cases ecl.legacy) [
  | inl e ↦ elim (Option-cases img.primary) [
    | inl f ↦ ground (arith, e, f)
    | inr (id, f) ↦ ground (arith, e, f)
  ]
  | inr e ↦ ground (arith, e)
]

verify_with-verify_image :
    (ecl : EclConfig) (img : Image) (g : Execgroup)
    → verify_with img g (verifier_for ecl img) ≡ run
    → verify_image ecl img g ≡ run
unfolding verify_image verify_with
verify_with-verify_image ecl img g h = elim (Bool-cases ecl.legacy) [
  | inl e ↦ elim (Option-cases img.primary) [
    | inl f ↦ ground (arith, e, f)
    | inr (id, f) ↦ ground (arith, e, f)
  ]
  | inr e ↦ ground (arith, e)
]

abbrev checked : Image → Execgroup → Verifier → Verdict
checked img g v =
    let (unvalidated, flags) = call_back img [] v.results in
    if v.accepts flags then check_fingerprints g v unvalidated else invalid_signature

loads_run : (b : Bool) (v : Verdict) → (if b then v else load_failed) ≡ run → (b ≡ true) × (v ≡ run)
loads_run b v h = ground arith

checked-run :
    (img : Image) (g : Execgroup) (v : Verifier)
    → checked img g v ≡ run
    → (v.accepts (call_back img [] v.results).1 ≡ true)
      × (policy g v (call_back img [] v.results).0 ≡ true)
unfolding is_run
checked-run img g v h =
    let unvalidated = (call_back img [] v.results).0 in
    ground (arith, check_fingerprints-policy g v unvalidated)

-- Where the rules are activated, an image that runs lies in a group, was loaded and verified, and
-- the group's policy allows it.
pub should_run_fp-Permits :
    (ecl : EclConfig) (img : Image)
    → ecl.activated ≡ true
    → should_run_fp ecl img ≡ run
    → Permits ecl img
unfolding should_run_fp is_run
should_run_fp-Permits ecl img on h =
    let open_run : should_run_open ecl img ≡ run = ground (arith, on) in
    let (g, in_group, after) =
      or_stop-run not_in_group (get_exec_group ecl img.name)
        (λ g. if img.loads then verify_image ecl img g else load_failed) refl
        (unfold should_run_open in open_run) in
    let (loaded, verified) = loads_run img.loads (verify_image ecl img g) after in
    let (v, made, accepted) =
      or_stop-run no_verifier (verifier_for ecl img) (checked img g) refl
        (unfold verify_with in verify_image-verify_with ecl img g verified) in
    let (sound, allowed) = checked-run img g v accepted in
    record {
      group = g;
      verifier = v;
      in_group = in_group;
      loaded = loaded;
      made = made;
      verified = sound;
      allowed = allowed;
    }

checked_lem :
    (img : Image) (g : Execgroup) (v : Verifier)
    → v.accepts (call_back img [] v.results).1 ≡ true
    → policy g v (call_back img [] v.results).0 ≡ true
    → checked img g v ≡ run
checked_lem img g v sound allowed =
    let unvalidated = (call_back img [] v.results).0 in
    ground (
      arith,
      check_fingerprints-policy g v unvalidated,
      is_run-run (check_fingerprints g v unvalidated),
    )

Permits-should_run_open :
    (ecl : EclConfig) (img : Image) → Permits ecl img → should_run_open ecl img ≡ run
unfolding should_run_open
Permits-should_run_open ecl img p =
    simp (p.in_group, p.loaded)
      (verify_with-verify_image ecl img p.group (
        unfold verify_with in
        (ap (λ o. or_stop no_verifier o (checked img p.group)) p.made
          ∙ checked_lem img p.group p.verifier p.verified p.allowed)))

-- Where the rules permit an image it runs.
pub Permits-should_run_fp :
    (ecl : EclConfig) (img : Image) → Permits ecl img → should_run_fp ecl img ≡ run
unfolding should_run_fp
Permits-should_run_fp ecl img p = ground (arith, Permits-should_run_open ecl img p)
