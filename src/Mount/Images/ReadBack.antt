-- ===== src/Mount/Images/ReadBack.antt =====
-- An image that AddImage adds, and the options that the engine reads back.
use text.Mathlib.TextLemmas.{append-nil}
use mathlib.Core.Path.{subst}
use apptainer.Prelude.{
  ℕ, String, List, [], ◌∷◌, ◌++◌, Bool, true, false, not, some, if◌then◌else◌, eqb, ◌==◌, eq_refl,
  append, split, split-append, split_whole, trim_space, has_prefix, has_prefix-append,
  has_prefix_differs, drop_text-append, is_some, lookup, select, ◌≡◌, refl, sym, ap, ◌∙◌,
  Bool-cases, inl, inr,
}
use apptainer.Mount.Flags.{Flags, is_forbidden}
use apptainer.Mount.Points.{
  Go, Points, Point, Result, ok, err, MountError, add, get_by_tag, given_options, is_internal,
  authorized_image,
}
use apptainer.Mount.Points.Adding.{point_for, add-Extends}
use apptainer.Mount.Adders.{add_image, image_options, with_ext3}
use apptainer.Mount.Images.{get_offset, get_size_limit, get_key}
use apptainer.Mount.Images.Options.{
  is_plain, has_no_comma, is_plain-append, flat, split_laid, given-cons, option_name, not_empty,
}

-- What is documented of Go's packages, for the numbers and the key of an image: `%d` and the base64
-- encoding give no comma and no space, and `Sscanf` and the decoder give back what was written.
pub record Laws (go : Go) (offset sizelimit : ℕ) (key : String) : Type 0 where
  pub shown_offset : is_plain (go.show offset) ≡ true
  pub shown_size : is_plain (go.show sizelimit) ≡ true
  pub encoded : is_plain (go.encode key) ≡ true
  pub scanned_offset : go.scan_number "offset=" (append "offset=" (go.show offset)) ≡ some offset
  pub scanned_size :
      go.scan_number "sizelimit=" (append "sizelimit=" (go.show sizelimit)) ≡ some sizelimit
  pub decoded : go.decode (go.encode key) ≡ some key

unguard :
    (b : Bool) (e : MountError) (r : Result Points) (q : Points)
    → (if b then err e else r) ≡ ok q
    → r ≡ ok q
unguard true e r q h = cc
unguard false e r q h = h

add_image_ok :
    (go : Go) (p q : Points) (tag source dest fstype : String) (flags : Flags)
    (offset sizelimit : ℕ) (key : String)
    → add_image go p tag source dest fstype flags offset sizelimit key ≡ ok q
    → add go p tag source dest fstype flags
        (with_ext3 fstype (image_options go offset sizelimit key))
      ≡ ok q
unfolding add_image
add_image_ok go p q tag source dest fstype flags offset sizelimit key h =
    unguard (eqb sizelimit 0) _ _ q (
      unguard (not (is_some (lookup fstype authorized_image))) _ _ q (
        unguard (is_forbidden flags) _ _ q
          (unguard (not (has_prefix source "/")) _ _ q (unguard (source == "") _ _ q h))))

-- The numbers and the key of an image, as the engine reads them.
pub record Reads (go : Go) (options : List String) (offset sizelimit : ℕ) (key : String)
    : Type 0 where
  pub at_offset : get_offset go options ≡ some offset
  pub limited : get_size_limit go options ≡ some sizelimit
  pub unlocked : get_key go options ≡ some key

module _ (go : Go) (offset sizelimit : ℕ) (key : String) (laws : Laws go offset sizelimit key) where
  offset_option : String
  offset_option = append "offset=" (go.show offset)

  size_option : String
  size_option = append "sizelimit=" (go.show sizelimit)

  key_text : String
  key_text = append "key=" (go.encode key)

  laid :
      (t : String)
      → append (image_options go offset sizelimit key) t
        ≡ append "loop" (
            append "," (
              append offset_option
                (append "," (append size_option (append "," (append key_text t))))))
  unfolding offset_option size_option key_text
  laid t =
      flat "loop" "," "offset=" (go.show offset) "sizelimit=" (go.show sizelimit) "key="
        (go.encode key) t

  offset_plain : is_plain offset_option ≡ true
  unfolding offset_option
  offset_plain = is_plain-append "offset=" (go.show offset) refl laws.shown_offset

  size_plain : is_plain size_option ≡ true
  unfolding size_option
  size_plain = is_plain-append "sizelimit=" (go.show sizelimit) refl laws.shown_size

  key_plain : is_plain key_text ≡ true
  unfolding key_text
  key_plain = is_plain-append "key=" (go.encode key) refl laws.encoded

  laid_split :
      (t : String)
      → split b',' (append (image_options go offset sizelimit key) t)
        ≡ "loop" ∷ offset_option ∷ size_option ∷ split b',' (append key_text t)
  laid_split t =
      ap (split b',') (laid t)
      ∙ split_laid "loop" offset_option size_option key_text t refl
          (has_no_comma offset_option offset_plain) (has_no_comma size_option size_plain)

  key_alone : split b',' (append key_text "") ≡ key_text ∷ []
  key_alone =
      ap (split b',') (append-nil key_text)
      ∙ split_whole b',' key_text (has_no_comma key_text key_plain)

  key_first :
      split b',' (append key_text ",errors=remount-ro") ≡ key_text ∷ "errors=remount-ro" ∷ []
  unfolding split
  key_first =
      split-append b',' key_text "," "errors=remount-ro" (has_no_comma key_text key_plain) refl

  option_rest : String → List String
  option_rest fstype = if fstype == "ext3" then "errors=remount-ro" ∷ [] else []

  all_split :
      (fstype : String)
      → split b',' (with_ext3 fstype (image_options go offset sizelimit key))
        ≡ "loop" ∷ offset_option ∷ size_option ∷ key_text ∷ option_rest fstype
  unfolding option_rest
  all_split fstype = elim (Bool-cases (fstype == "ext3")) [
    | inl e ↦ rw e (
        laid_split ",errors=remount-ro"
        ∙ ap (λ r. "loop" ∷ offset_option ∷ size_option ∷ r) key_first)
    | inr e ↦ rw e (
        ap (split b',') (sym (append-nil (image_options go offset sizelimit key)))
        ∙ laid_split ""
        ∙ ap (λ r. "loop" ∷ offset_option ∷ size_option ∷ r) key_alone)
  ]

  -- The options that the point keeps for the engine
  read_back : List String
  read_back = "loop" ∷ offset_option ∷ size_option ∷ key_text ∷ []

  offset_given : ((offset_option == "") ≡ false) × (is_internal offset_option ≡ true)
  unfolding offset_option has_prefix
  offset_given = (
    not_empty _ "offset=" (has_prefix-append "offset=" (go.show offset)) refl,
    rw (option_name "offset" (go.show offset) refl) refl,
  )

  size_given : ((size_option == "") ≡ false) × (is_internal size_option ≡ true)
  unfolding size_option has_prefix
  size_given = (
    not_empty _ "sizelimit=" (has_prefix-append "sizelimit=" (go.show sizelimit)) refl,
    rw (option_name "sizelimit" (go.show sizelimit) refl) refl,
  )

  key_given : ((key_text == "") ≡ false) × (is_internal key_text ≡ true)
  unfolding key_text has_prefix
  key_given = (
    not_empty _ "key=" (has_prefix-append "key=" (go.encode key)) refl,
    rw (option_name "key" (go.encode key) refl) refl,
  )

  internal_rest : (fstype : String) → select is_internal (given_options (option_rest fstype)) ≡ []
  unfolding option_rest given_options trim_space split
  internal_rest fstype = elim (Bool-cases (fstype == "ext3")) [
    | inl e ↦ rw e refl
    | inr e ↦ rw e refl
  ]

  given_all :
      (fstype : String)
      → given_options (split b',' (with_ext3 fstype (image_options go offset sizelimit key)))
        ≡ "loop" ∷ offset_option ∷ size_option ∷ key_text ∷ given_options (option_rest fstype)
  given_all fstype = rw (all_split fstype) (
      given-cons "loop" _ refl refl
      ∙ ap (λ r. "loop" ∷ r)
          (given-cons offset_option _ offset_plain offset_given.0
            ∙ ap (λ r. offset_option ∷ r)
                (given-cons size_option _ size_plain size_given.0
                  ∙ ap (λ r. size_option ∷ r) (given-cons key_text _ key_plain key_given.0))))

  internal_all :
      (fstype : String)
      → select is_internal
          (given_options (split b',' (with_ext3 fstype (image_options go offset sizelimit key))))
        ≡ read_back
  unfolding read_back split
  internal_all fstype =
      rw (given_all fstype, offset_given.1, size_given.1, key_given.1, internal_rest fstype) refl

  read_back-Reads : Reads go read_back offset sizelimit key
  unfolding read_back get_offset get_size_limit get_key offset_option size_option key_text
      has_prefix
  read_back-Reads = record {
    at_offset = rw (has_prefix-append "offset=" (go.show offset), laws.scanned_offset) refl;
    limited =
        rw
          (
            has_prefix_differs "o" "ffset=" "s" "izelimit=" (go.show offset) refl,
            has_prefix-append "sizelimit=" (go.show sizelimit),
            laws.scanned_size,
          )
          refl;
    unlocked =
        rw
          (
            has_prefix_differs "o" "ffset=" "k" "ey=" (go.show offset) refl,
            has_prefix_differs "s" "izelimit=" "k" "ey=" (go.show sizelimit) refl,
            has_prefix-append "key=" (go.encode key),
            drop_text-append "key=" (go.encode key),
          )
          laws.decoded;
  }

  -- If `AddImage` succeeds, then the tag gets one point more, at its end, and
  -- `GetOffset`, `GetSizeLimit` and `GetKey` on its internal options give the offset, the size limit and
  -- the key of the image, where printing, scanning and base64 do what is documented of them.
  pub add_image-Reads :
      (p q : Points) (tag source dest fstype : String) (flags : Flags)
      → add_image go p tag source dest fstype flags offset sizelimit key ≡ ok q
      → (x : Point) × (get_by_tag q tag ≡ get_by_tag p tag ++ x ∷ [])
        × Reads go x.internal offset sizelimit key
  add_image-Reads p q tag source dest fstype flags h =
      let options = with_ext3 fstype (image_options go offset sizelimit key) in
      let (_, grows) =
        add-Extends go p tag source dest fstype flags options
          (add_image_ok go p q tag source dest fstype flags offset sizelimit key h) in
      let grown : get_by_tag q tag
          ≡ get_by_tag p tag ++ point_for go p source dest fstype flags options ∷ [] =
        grows tag ∙ rw (eq_refl tag) refl in
      (
        point_for go p source dest fstype flags options,
        grown,
        subst (λ os. Reads go os offset sizelimit key) (sym (internal_all fstype)) read_back-Reads,
      )
