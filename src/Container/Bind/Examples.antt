-- ===== src/Container/Bind/Examples.antt =====
-- Runs of `ParseBindPath` and `newBindPath`.
use apptainer.Prelude.{[], ◌∷◌, split, insert, ◌≡◌, refl}
use apptainer.Container.Bind.{ok, err, bind_path, new_bind_path, invalid_option}
use apptainer.Container.Bind.Parse.{parse_bind_path}

escaped_test :
    parse_bind_path ("a\\:b:c:ro" ∷ []) []
    ≡ ok (record (bind_path "a:b" "c") { options = ("ro", "") ∷ [] } ∷ [])
unfolding parse_bind_path insert
escaped_test = refl

comma_test : parse_bind_path ("a\\,b:c" ∷ []) [] ≡ ok (bind_path "a,b" "c" ∷ [])
unfolding parse_bind_path insert
comma_test = refl

several_test :
    parse_bind_path ("s:d:rw,id=2,t" ∷ "u:v" ∷ []) []
    ≡ ok (
        record (bind_path "s" "d") { options = ("rw", "") ∷ ("id", "2") ∷ [] }
        ∷ bind_path "t" "t"
        ∷ bind_path "u" "v"
        ∷ [])
unfolding parse_bind_path insert
several_test = refl

invalid_test : parse_bind_path ("s:d:bad" ∷ []) [] ≡ err invalid_option
unfolding parse_bind_path insert
invalid_test = refl

-- A flag with a value is taken for the flag.
flag_value_test :
    new_bind_path "s:d:ro=false"
    ≡ ok (record (bind_path "s" "d") { options = ("ro", "false") ∷ [] })
unfolding new_bind_path insert
flag_value_test = refl

-- The value is also taken for a bind path of its own.
flag_value_twice_test :
    parse_bind_path ("s:d:ro=false" ∷ []) []
    ≡ ok (
        record (bind_path "s" "d") { options = ("ro", "false") ∷ [] }
        ∷ bind_path "ro=false" "ro=false"
        ∷ [])
unfolding parse_bind_path insert
flag_value_twice_test = refl

three_parts_test :
    new_bind_path "/data:/mnt:ro,id=2"
    ≡ ok (record (bind_path "/data" "/mnt") { options = ("ro", "") ∷ ("id", "2") ∷ [] })
unfolding new_bind_path split insert
three_parts_test = refl
