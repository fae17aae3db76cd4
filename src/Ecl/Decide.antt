-- ===== src/Ecl/Decide.antt =====
-- `ShouldRun`, `ShouldRunFp` and `shouldRun` of syecl.go. The image library (sif and its integrity
-- package) is an argument: a record of what its functions answer for one open image.
mod Examples
pub mod Permits
use apptainer.Prelude.{
  ℕ, String, List, [], ◌∷◌, ◌++◌, Bool, true, false, Option, none, some, ◌==◌, if◌then◌else◌,
}
use apptainer.Ecl.Hex.{Fingerprint}
use apptainer.Ecl.Config.{Execgroup, EclConfig, get_exec_group}
use apptainer.Ecl.Policy.{white_list, white_strict, black_list}

-- A verifier that NewVerifier made. `results` are the results that Verify hands to the callback:
-- the signature's id where its error is a SignatureNotValidError. `accepts` says if Verify returns
-- no error, by what the callback answered. `none` is the error of AllSignedBy and AnySignedBy.
pub record Verifier : Type 0 where
  pub results : List (Option ℕ)
  pub accepts : List Bool → Bool
  pub all_signed_by : Option (List Fingerprint)
  pub any_signed_by : Option (List Fingerprint)

-- An open image file. `descriptor` is GetDescriptor by id, with the answer of SignatureMetadata;
-- `primary` is the id of the primary system partition. `new_verifier` takes the id of the object to
-- which the legacy mode limits the verification.
pub record Image : Type 0 where
  pub name : String
  pub loads : Bool
  pub descriptor : ℕ → Option (Option Fingerprint)
  pub primary : Option ℕ
  pub new_verifier : Option ℕ → Option Verifier

-- What the functions return: `run` is `true, nil`, and each other one is `false` with its error.
pub data Verdict : Type 0 where
  run open_failed not_in_group load_failed no_primary no_verifier invalid_signature : Verdict
  signers_unknown not_signed_by_required signed_by_forbidden invalid_config : Verdict

-- The callback, on the fingerprints collected so far: the fingerprints after it, and whether the
-- error is to be ignored.
noted : List Fingerprint → Option (Option Fingerprint) → List Fingerprint × Bool
noted unvalidated none = (unvalidated, false)
noted unvalidated (some none) = (unvalidated, false)
noted unvalidated (some (some fp)) = (unvalidated ++ fp ∷ [], true)

verify_callback : Image → List Fingerprint → Option ℕ → List Fingerprint × Bool
unfolding noted
verify_callback img unvalidated none = (unvalidated, false)
verify_callback img unvalidated (some id) = noted unvalidated (img.descriptor id)

-- The callbacks of one Verify, in order.
unfoldable pub call_back : Image → List Fingerprint → List (Option ℕ) → List Fingerprint × List Bool
unfolding verify_callback
call_back img unvalidated [] = (unvalidated, [])
call_back img unvalidated (r ∷ rs) =
    let (unvalidated', ignored) = verify_callback img unvalidated r in
    let (final, flags) = call_back img unvalidated' rs in (final, ignored ∷ flags)

abbrev pub Step : Type 0 → Type 0
Step A = (A → Verdict) → Verdict

-- The error `e`, or the rest of the function on the value.
abbrev pub or_stop : {A : Type 0} → Verdict → Option A → Step A
or_stop e none k = e
or_stop e (some a) k = k a

abbrev pub verdict_of : Verdict → Bool → Verdict
verdict_of e true = run
verdict_of e false = e

unfoldable pub check_fingerprints : Execgroup → Verifier → List Fingerprint → Verdict
check_fingerprints g v unvalidated =
    if g.list_mode == "whitelist"
    then or_stop signers_unknown v.all_signed_by
        (λ fps. verdict_of not_signed_by_required (white_list g.key_fps fps unvalidated))
    else if g.list_mode == "whitestrict"
    then or_stop signers_unknown v.all_signed_by
        (λ fps. verdict_of not_signed_by_required (white_strict g.key_fps fps unvalidated))
    else if g.list_mode == "blacklist"
    then or_stop signers_unknown v.any_signed_by
        (λ fps. verdict_of signed_by_forbidden (black_list g.key_fps fps))
    else invalid_config

-- From NewVerifier on.
unfoldable pub verify_with : Image → Execgroup → Option Verifier → Verdict
verify_with img g made = or_stop no_verifier made (λ v.
    let (unvalidated, flags) = call_back img [] v.results in
    if v.accepts flags then check_fingerprints g v unvalidated else invalid_signature)

unfoldable pub verify_image : EclConfig → Image → Execgroup → Verdict
verify_image ecl img g =
    if ecl.legacy
    then or_stop no_primary img.primary (λ id. verify_with img g (img.new_verifier (some id)))
    else verify_with img g (img.new_verifier none)

unfoldable pub should_run_open : EclConfig → Image → Verdict
should_run_open ecl img =
    or_stop not_in_group (get_exec_group ecl img.name)
      (λ g. if img.loads then verify_image ecl img g else load_failed)

unfoldable pub should_run_fp : EclConfig → Image → Verdict
should_run_fp ecl img = if ecl.activated then should_run_open ecl img else run

-- `opened` is the answer of os.Open for the path.
unfoldable pub should_run : EclConfig → Option Image → Verdict
should_run ecl opened =
    if ecl.activated then or_stop open_failed opened (should_run_open ecl) else run
