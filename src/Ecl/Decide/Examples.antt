-- ===== src/Ecl/Decide/Examples.antt =====
-- Runs of the decision on one image.
use apptainer.Prelude.{[], ◌∷◌, true, false, none, some, ◌≡◌, refl, dir}
use apptainer.Ecl.Hex.{names_key}
use apptainer.Ecl.Config.{Execgroup, EclConfig, get_exec_group}
use apptainer.Ecl.Decide.{Verifier, Image, run, should_run_fp, call_back}
use apptainer.Ecl.Decide.Permits.{Permits, should_run_fp-Permits, Permits-should_run_fp}

abbrev group : Execgroup
group = record {
  tag_name = "g";
  list_mode = "whitelist";
  dir_path = "/data";
  key_fps = "0A0b" ∷ [];
}

abbrev config : EclConfig
config = record { activated = true; legacy = false; exec_groups = group ∷ [] }

abbrev verifier : Verifier
verifier = record {
  results = [];
  accepts = λ flags. true;
  all_signed_by = some ((10 ∷ 11 ∷ []) ∷ []);
  any_signed_by = none;
}

abbrev image : Image
image = record {
  name = "/data/a.sif";
  loads = true;
  descriptor = λ id. none;
  primary = none;
  new_verifier = λ id. some verifier;
}

image_permitted : Permits config image
unfolding get_exec_group call_back names_key dir
image_permitted = record {
  group = group;
  verifier = verifier;
  in_group = refl;
  loaded = refl;
  made = refl;
  verified = refl;
  allowed = refl;
}

image_runs : should_run_fp config image ≡ run
image_runs = Permits-should_run_fp config image image_permitted

should_run_fp-Permits_example : Permits config image
should_run_fp-Permits_example = should_run_fp-Permits config image refl image_runs

Permits-should_run_fp_example : should_run_fp config image ≡ run
Permits-should_run_fp_example = Permits-should_run_fp config image image_permitted
