-- ===== src/Ecl/Config/Examples.antt =====
-- Runs of the validation of an ECL config.
use apptainer.Prelude.{String, [], ◌∷◌, true, false, Option, some}
use apptainer.Ecl.Config.{Execgroup, EclConfig}

abbrev group : Execgroup
group = record { tag_name = "g"; list_mode = "whitelist"; dir_path = "/data"; key_fps = [] }

abbrev twice : EclConfig
twice = record { activated = true; legacy = false; exec_groups = group ∷ group ∷ [] }

abbrev resolve : String → Option String
resolve path = some path
