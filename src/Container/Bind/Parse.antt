-- ===== src/Container/Bind/Parse.antt =====
-- `ParseBindPath` of bind.go. The tokens are the matches of its regular expression.

use Prim.Native.Char.{code}
use Prim.Native.String.{[], ◌∷◌}
use mathlib.Core.List.{List}
use apptainer.Prelude.{
  ℕ, suc, String, ◌++◌, Bool, false, not, ◌&&◌, ◌||◌, if◌then◌else◌, eqb, ltb, ◌==◌,
  append as text_append, trim_space, has_prefix,
}
use apptainer.Container.Bind.{BindPath, Result, ok, err, wrong_syntax, new_bind_path}

abbrev pub token_before : String → List String → List String
token_before cur ts = if cur == "" then ts else List.◌∷◌ cur ts

-- The matches of `([^,^:]+:?)`; `cur` stands before the text.
unfoldable pub tokens : String → String → List String
tokens cur [] = token_before cur List.[]
tokens cur (c ∷ s) =
    let fresh = tokens "" s in
    let longer = tokens (text_append cur (c ∷ [])) s in
    if eqb (code c) b':'
    then (if cur == "" then fresh else List.◌∷◌ (text_append cur ":") fresh)
    else if eqb (code c) b',' || eqb (code c) b'^'
    then token_before cur fresh
    else longer

-- Is the last character the one with the number?
unfoldable pub ends_with : ℕ → String → Bool
ends_with n [] = false
ends_with n (c ∷ []) = eqb (code c) n
ends_with n (c ∷ d ∷ s) = ends_with n (d ∷ s)

-- Are the last two characters a backslash and a colon?
unfoldable pub ends_escaped : String → Bool
ends_escaped [] = false
ends_escaped (c ∷ []) = false
ends_escaped (c ∷ d ∷ []) = eqb (code c) b'\\' && eqb (code d) b':'
ends_escaped (c ∷ d ∷ e ∷ s) = ends_escaped (d ∷ e ∷ s)

unfoldable pub without_last : String → String
without_last [] = []
without_last (c ∷ []) = []
without_last (c ∷ d ∷ s) = c ∷ without_last (d ∷ s)

unfoldable pub is_option : String → Bool
unfolding has_prefix
is_option s = s == "ro" || s == "rw" || has_prefix s "image-src=" || has_prefix s "id="

-- The variables of the loop, and the bind paths so far.
pub record State : Type 0 where
  pub concat_comma : Bool
  pub concat_colon : Bool
  pub bind : String
  pub elem : ℕ
  pub binds : List BindPath

abbrev pub and_then : Result State → (State → Result State) → Result State
and_then (ok st) f = f st
and_then (err x) f = err x

abbrev pub taken : State → Result BindPath → Result State
taken st (ok b) = ok (record st { binds = st.binds ++ List.◌∷◌ b List.[]; bind = ""; elem = 0 })
taken st (err x) = err x

abbrev pub ends_colon : String → Bool
unfolding ends_with
ends_colon s = ends_with b':' s

-- The bind path ends before a token that is no option.
unfoldable pub flush : Bool → String → State → Result State
unfolding ends_with new_bind_path
flush option s st =
    if eqb st.elem 2 && not option
    then taken st
        (new_bind_path (if ends_with b':' st.bind then text_append st.bind s else st.bind))
    else ok st

-- From the test of the colon on.
unfoldable pub rest_of_token : Bool → String → State → Result State
unfolding ends_with new_bind_path
rest_of_token option s st =
    let colon = ends_with b':' st.bind in
    if eqb st.elem 2 && option
    then ok
        (record st { bind = text_append (if colon then st.bind else text_append st.bind ",") s })
    else if ltb 2 st.elem
    then err wrong_syntax
    else if st.bind == ""
    then ok (record st { bind = s; elem = suc st.elem })
    else if colon
    then ok (record st {
      bind = if ltb 0 st.elem then text_append st.bind s else st.bind;
      elem = suc st.elem;
    })
    else taken st (new_bind_path st.bind)

-- The escapes at the start of a bind path
unfoldable pub token : Bool → String → State → Result State
unfolding ends_with ends_escaped without_last rest_of_token
token option s st =
    if not (eqb st.elem 0)
    then rest_of_token option s st
    else if ends_with b'\\' s || st.concat_comma
    then ok (record st {
      bind =
          if not st.concat_comma
          then text_append st.bind (text_append (without_last s) ",")
          else text_append st.bind s;
      elem = if not st.concat_comma then st.elem else suc st.elem;
      concat_comma = not st.concat_comma;
    })
    else if ends_escaped s || st.concat_colon
    then ok (record st {
      bind = text_append st.bind s;
      elem = if st.concat_colon then suc st.elem else st.elem;
      concat_colon = not st.concat_colon;
    })
    else rest_of_token option s (if st.bind == "" then record st { bind = s } else st)

unfoldable pub each_token : List String → State → Result State
unfolding flush token is_option trim_space
each_token List.[] st = ok st
each_token (List.◌∷◌ m ms) st =
    let s = trim_space m in
    and_then (and_then (flush (is_option s) s st) (λ st'. token (is_option s) s st'))
      (λ st'. each_token ms st')

abbrev pub binds_after : State → Result BindPath → Result (List BindPath)
binds_after st (ok b) = ok (st.binds ++ List.◌∷◌ b List.[])
binds_after st (err x) = err x

abbrev pub finish : Result State → Result (List BindPath)
finish (err x) = err x
finish (ok st) = if st.bind == "" then ok st.binds else binds_after st (new_bind_path st.bind)

abbrev pub initial : List BindPath → State
initial binds = record {
  concat_comma = false;
  concat_colon = false;
  bind = "";
  elem = 0;
  binds = binds;
}

abbrev pub and_more :
    Result (List BindPath) → (List BindPath → Result (List BindPath)) → Result (List BindPath)
and_more (ok binds) f = f binds
and_more (err x) f = err x

-- The loop over the paths; `binds` are the bind paths so far.
unfoldable pub parse_bind_path : List String → List BindPath → Result (List BindPath)
unfolding each_token tokens
parse_bind_path List.[] binds = ok binds
parse_bind_path (List.◌∷◌ path paths) binds =
    and_more (finish (each_token (tokens "" path) (initial binds)))
      (λ binds'. parse_bind_path paths binds')
