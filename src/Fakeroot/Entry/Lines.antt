-- ===== src/Fakeroot/Entry/Lines.antt =====
-- The lines that `AddUser` writes.
use Prim.Native.Char.{Char, code}
use Prim.Native.Nat.{◌<◌}
use Prim.Native.String.{[], ◌∷◌}
use mathlib.Core.List.{List}
use apptainer.Prelude.{
  ℕ, ◌^◌, String, true, false, Option, eqb, split, split-append, split_whole, free_of, all_chars,
  append as text_append, ◌≡◌, refl, ap, ◌∙◌, arith,
}
use apptainer.Fakeroot.Decimal.{show, is_digit}
use apptainer.Fakeroot.Decimal.RoundTrip.{digits_show, parse_uint32-show, show-cons}
use apptainer.Fakeroot.Entry.{UserFn, added, with_name, entry_of, parse_entry}

-- `fmt.Sprintf("%d:%d:%d", …)`
abbrev pub line_of : ℕ → ℕ → ℕ → String
line_of uid start count = text_append (show uid) (":" ∷ text_append (show start) (":" ∷ show count))

no_colon : (s : String) → all_chars is_digit s ≡ true → free_of b':' s ≡ true
no_colon [] h = refl
no_colon (c ∷ s) h = ground (arith, no_colon s)

split-line_of :
    (uid start count : ℕ)
    → split b':' (line_of uid start count)
      ≡ List.◌∷◌ (show uid) (List.◌∷◌ (show start) (List.◌∷◌ (show count) List.[]))
split-line_of uid start count =
    split-append b':' (show uid) ":" _ (no_colon (show uid) (digits_show uid)) refl
    ∙ ap (List.◌∷◌ (show uid)) (
        split-append b':' (show start) ":" _ (no_colon (show start) (digits_show start)) refl
        ∙ ap (List.◌∷◌ (show start))
            (split_whole b':' (show count) (no_colon (show count) (digits_show count))))

with_name-digits :
    (g : UserFn) (line username : String) (start count : Option ℕ) (d : Char) (t : String)
    → username ≡ d ∷ t
    → all_chars is_digit username ≡ true
    → with_name g line username start count ≡ added (entry_of g line username false start count)
with_name-digits g line username start count d t e h =
    rw e (
      let digit_first : eqb (code d) b'!' ≡ false = ground (arith, rw e at h) in
      rw digit_first refl)

-- The line for a uid, a start and a count of 32 bits is read back as that entry, if the count is
-- not 0.
pub parse_entry-line_of :
    (g : UserFn) (uid start count : ℕ)
    → uid < 2 ^ 32
    → start < 2 ^ 32
    → count < 2 ^ 32
    → 0 < count
    → parse_entry g (line_of uid start count)
      ≡ added (record {
        line = line_of uid start count;
        uid = uid;
        start = start;
        count = count;
        disabled = false;
        invalid = false;
      })
unfolding parse_entry
parse_entry-line_of g uid start count hu hs hc pos =
    let (d, t, e) = show-cons uid in
    let not_zero : eqb count 0 ≡ false = ground arith in
    rw (split-line_of uid start count) (
      with_name-digits g (line_of uid start count) (show uid) _ _ d t e (digits_show uid)
      ∙ rw (parse_uint32-show uid hu, parse_uint32-show start hs, parse_uint32-show count hc)
          (rw not_zero refl))
