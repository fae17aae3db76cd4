-- ===== src/Prelude/Paths.antt =====
-- Go's `path/filepath` on Unix, as far as it is lexical.
pub mod Parents
use Prim.Native.String.{String}
use mathlib.Core.Bool.{Bool, true, false, not, ◌&&◌, ◌||◌}
use mathlib.Core.List.{List, [], ◌∷◌}
use text.Mathlib.Text.{◌==◌}
use apptainer.Prelude.Tests.{if◌then◌else◌}
use apptainer.Prelude.Texts.{append, has_prefix, split, join}

-- `filepath.IsAbs`
unfoldable pub is_abs : String → Bool
unfolding has_prefix
is_abs p = has_prefix p "/"

-- One element of a path after those that were kept, the last of them first. `..` takes the last one
-- away, has no effect at the root, and stays at the start of a path that is not rooted.
step_up : Bool → List String → List String
step_up rooted [] = if rooted then [] else ".." ∷ []
step_up rooted (e ∷ es) = if e == ".." then ".." ∷ e ∷ es else es

clean_from : Bool → List String → List String → List String
clean_from rooted kept [] = kept
clean_from rooted kept (e ∷ es) =
    clean_from rooted
      (if e == "" || e == "." then kept else if e == ".." then step_up rooted kept else e ∷ kept) es

reverse_onto : List String → List String → List String
reverse_onto [] acc = acc
reverse_onto (e ∷ es) acc = reverse_onto es (e ∷ acc)

rebuild : Bool → List String → String
rebuild true es = append "/" (join "/" es)
rebuild false [] = "."
rebuild false (e ∷ es) = join "/" (e ∷ es)

-- `filepath.Clean`
unfoldable pub clean : String → String
unfolding is_abs clean_from step_up reverse_onto rebuild split join
clean p = rebuild (is_abs p) (reverse_onto (clean_from (is_abs p) [] (split b'/' p)) [])

all_but_last : List String → List String
all_but_last [] = []
all_but_last (e ∷ []) = []
all_but_last (e ∷ f ∷ es) = e ∷ all_but_last (f ∷ es)

up_to_last : List String → String
up_to_last [] = ""
up_to_last (e ∷ es) = append (join "/" (e ∷ es)) "/"

-- `filepath.Dir`: what stands up to the last separator, cleaned.
unfoldable pub dir : String → String
unfolding clean all_but_last up_to_last
dir p = clean (up_to_last (all_but_last (split b'/' p)))

last_named : List String → String
last_named [] = "/"
last_named (e ∷ es) =
    let later = last_named es in if later == "/" && not (e == "") then e else later

-- `filepath.Base`: the last element that is not empty.
unfoldable pub base : String → String
unfolding last_named split
base p = if p == "" then "." else last_named (split b'/' p)

-- `filepath.Join` of two elements
unfoldable pub join_path : String → String → String
unfolding clean
join_path a b =
    if a == "" && b == ""
    then ""
    else if a == ""
    then clean b
    else if b == ""
    then clean a
    else clean (append a (append "/" b))
