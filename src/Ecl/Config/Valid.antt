-- ===== src/Ecl/Config/Valid.antt =====
-- What `ValidateConfig` accepts, and which group an image gets.
use apptainer.Prelude.{
  String, List, [], ◌∷◌, Bool, true, false, not, ◌&&◌, ◌||◌, Option, none, some, contains, all,
  ◌==◌,
}
use apptainer.Ecl.Config.{Execgroup, EclError, is_fingerprint, is_mode}

abbrev pub dirs : List Execgroup → List String
dirs [] = []
dirs (g ∷ gs) = g.dir_path ∷ dirs gs

abbrev pub accepted : Option EclError → Bool
accepted none = true
accepted (some e) = false

abbrev apart : List String → List String → Bool
apart seen ds = all (λ d. not (contains seen d)) ds

abbrev pub is_path : String → Option String → Bool
is_path path none = false
is_path path (some a) = path == a

module _ (eval_symlinks abs : String → Option String) where
  -- The directory is the empty one, or the absolute path that its links lead to.
  abbrev pub resolves_to : String → Option String → Bool
  resolves_to path none = false
  resolves_to path (some p) = is_path path (abs p)

  abbrev pub is_sound : Execgroup → Bool
  is_sound g =
      (g.dir_path == "" || resolves_to g.dir_path (eval_symlinks g.dir_path))
      && is_mode g.list_mode
      && all is_fingerprint g.key_fps
