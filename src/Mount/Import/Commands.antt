-- ===== src/Mount/Import/Commands.antt =====
-- The operations on the points as commands, and the validity of the points.
use apptainer.Prelude.{
  ℕ, String, List, [], ◌∷◌, Bool, true, false, not, Option, none, some, if◌then◌else◌, ◌==◌, Assoc,
  ◌≡◌, refl,
}
use apptainer.Mount.Flags.{
  Flags, ms_bind, has_remount_flag, has_propagation_flag, flags_of, other_options,
}
use apptainer.Mount.Points.{
  Go, Point, Points, Result, ok, err, MountError, remove_all, remove_by_dest, remove_by_source,
  remove_by_tag, set_context,
}
use apptainer.Mount.Points.Valid.{is_valid}
use apptainer.Mount.Points.Removing.{cut-IsValid, clear-IsValid, remove_by_tag-IsValid}
use apptainer.Mount.Adders.{
  add_image, add_bind, add_overlay, add_fs_with_source, add_fs, add_remount, add_propagation,
}
use apptainer.Mount.Adders.Valid.{
  Kept, add_image-Kept, add_bind-Kept, add_overlay-Kept, add_fs_with_source-Kept, add_remount-Kept,
  add_propagation-Kept,
}
use apptainer.Mount.Import.{
  or_next, tried, or_stop, or_clear, import_fs, import_image, import_point, and_rest, import_list,
  import, key_option,
}

abbrev pub Outcome : Type 0
Outcome = Points × Option MountError

-- The points are valid, whether the import fails or not.
abbrev pub Keeps : Outcome → Type 0
Keeps o = is_valid o.0.points ≡ true

or_next-Keeps : (r : Result Points) (next : Outcome) → Kept r → Keeps next → Keeps (or_next r next)
or_next-Keeps (ok p) next k n = k
or_next-Keeps (err e) next k n = n

tried-Keeps :
    (b : Bool) (r : Result Points) (next : Outcome) → Kept r → Keeps next → Keeps (tried b r next)
tried-Keeps true r next k n = or_next-Keeps r next k n
tried-Keeps false r next k n = n

or_stop-Keeps :
    (p : Points) (r : Result Points) → is_valid p.points ≡ true → Kept r → Keeps (or_stop p r)
or_stop-Keeps p (ok q) h k = k
or_stop-Keeps p (err e) h k = h

or_clear-Keeps : (p : Points) (r : Result Points) → Kept r → Keeps (or_clear p r)
or_clear-Keeps p (ok q) k = k
or_clear-Keeps p (err e) k = clear-IsValid p.points

pick-Kept : (b : Bool) (r s : Result Points) → Kept r → Kept s → Kept (if b then r else s)
pick-Kept true r s k l = k
pick-Kept false r s k l = l

pick-Keeps : (b : Bool) (r s : Outcome) → Keeps r → Keeps s → Keeps (if b then r else s)
pick-Keeps true r s k l = k
pick-Keeps false r s k l = l

import_fs-Keeps :
    (go : Go) (tag : String) (x : Point) (flags : Flags) (options : List String) (p : Points)
    → is_valid p.points ≡ true
    → Keeps (import_fs go tag x flags options p)
import_fs-Keeps go tag x flags options p h = or_clear-Keeps p _ (
    pick-Kept (not (x.fstype == "overlay")) _ _
      (add_fs_with_source-Kept go p tag x.source x.destination x.fstype flags _ h)
      (add_overlay-Kept go p tag x.destination flags _ _ _ h))

import_image-Keeps :
    (go : Go) (tag : String) (x : Point) (flags : Flags) (options : List String) (p : Points)
    (key : Option String)
    → is_valid p.points ≡ true
    → Keeps (import_image go tag x flags options p key)
import_image-Keeps go tag x flags options p none h = h
import_image-Keeps go tag x flags options p (some key) h =
    or_next-Keeps _ _ (add_image-Kept go p tag x.source x.destination x.fstype flags _ _ key h)
      (import_fs-Keeps go tag x flags options p h)

import_point-Keeps :
    (go : Go) (tag : String) (x : Point) (p : Points)
    → is_valid p.points ≡ true
    → Keeps (import_point go tag x p)
unfolding import_point
import_point-Keeps go tag x p h =
    let f : Flags = flags_of x.options in
    tried-Keeps (has_remount_flag f) _ _ (add_remount-Kept go p tag x.destination f h) (
      tried-Keeps (has_propagation_flag f) _ _ (add_propagation-Kept go p tag x.destination f h) (
        pick-Keeps (f ms_bind) _ _
          (or_stop-Keeps p _ h (add_bind-Kept go p tag x.source x.destination f [] h))
          (import_image-Keeps go tag x f (other_options x.options) p (key_option go x.internal "")
            h)))

and_rest-Keeps :
    (o : Outcome) (f : Points → Outcome)
    → Keeps o
    → ((q : Points) → is_valid q.points ≡ true → Keeps (f q))
    → Keeps (and_rest o f)
and_rest-Keeps (p, none) f k l = l p k
and_rest-Keeps (p, some e) f k l = k

import_list-Keeps :
    (go : Go) (tag : String) (xs : List Point) (p : Points)
    → is_valid p.points ≡ true
    → Keeps (import_list go tag xs p)
unfolding import_list
import_list-Keeps go tag [] p h = h
import_list-Keeps go tag (x ∷ xs) p h =
    and_rest-Keeps (import_point go tag x p) _ (import_point-Keeps go tag x p h)
      (λ q k. import_list-Keeps go tag xs q k)

import-Keeps :
    (go : Go) (m : Assoc (List Point)) (p : Points)
    → is_valid p.points ≡ true
    → Keeps (import go m p)
unfolding import
import-Keeps go [] p h = h
import-Keeps go ((tag, xs) ∷ m) p h =
    and_rest-Keeps (import_list go tag xs p) _ (import_list-Keeps go tag xs p h)
      (λ q k. import-Keeps go m q k)

pub data Command : Type 0 where
  image : String → String → String → String → Flags → ℕ → ℕ → String → Command
  bind : String → String → String → Flags → List String → Command
  overlay : String → String → Flags → String → String → String → Command
  fs : String → String → String → Flags → String → Command
  fs_with_source : String → String → String → String → Flags → String → Command
  remount propagation : String → String → Flags → Command
  import_points : Assoc (List Point) → Command
  clear : Command
  drop_dest drop_source drop_tag context : String → Command

-- The points that a command leaves, and its error.
abbrev pub outcome_of : Points → Result Points → Outcome
outcome_of p (ok q) = (q, none)
outcome_of p (err e) = (p, some e)

unfoldable pub run : Go → Command → Points → Outcome
run go (image tag source dest fstype flags offset size key) p =
    outcome_of p (add_image go p tag source dest fstype flags offset size key)
run go (bind tag source dest flags options) p =
    outcome_of p (add_bind go p tag source dest flags options)
run go (overlay tag dest flags lower upper work) p =
    outcome_of p (add_overlay go p tag dest flags lower upper work)
run go (fs tag dest fstype flags options) p =
    outcome_of p (add_fs go p tag dest fstype flags options)
run go (fs_with_source tag source dest fstype flags options) p =
    outcome_of p (add_fs_with_source go p tag source dest fstype flags options)
run go (remount tag dest flags) p = outcome_of p (add_remount go p tag dest flags)
run go (propagation tag dest flags) p = outcome_of p (add_propagation go p tag dest flags)
run go (import_points m) p = import go m p
run go clear p = (remove_all p, none)
run go (drop_dest dest) p = (remove_by_dest p dest, none)
run go (drop_source source) p = (remove_by_source p source, none)
run go (drop_tag tag) p = (remove_by_tag p tag, none)
run go (context c) p = outcome_of p (set_context p c)

unfoldable pub run_all : Go → List Command → Points → Points
unfolding run
run_all go [] p = p
run_all go (b ∷ bs) p = run_all go bs (run go b p).0

outcome-Keeps :
    (p : Points) (r : Result Points) → is_valid p.points ≡ true → Kept r → Keeps (outcome_of p r)
outcome-Keeps p (ok q) h k = k
outcome-Keeps p (err e) h k = h

run-Keeps : (go : Go) (a : Command) (p : Points) → is_valid p.points ≡ true → Keeps (run go a p)
unfolding run
run-Keeps go (image tag source dest fstype flags offset size key) p h =
    outcome-Keeps p _ h (add_image-Kept go p tag source dest fstype flags offset size key h)
run-Keeps go (bind tag source dest flags options) p h =
    outcome-Keeps p _ h (add_bind-Kept go p tag source dest flags options h)
run-Keeps go (overlay tag dest flags lower upper work) p h =
    outcome-Keeps p _ h (add_overlay-Kept go p tag dest flags lower upper work h)
run-Keeps go (fs tag dest fstype flags options) p h =
    outcome-Keeps p _ h (add_fs_with_source-Kept go p tag fstype dest fstype flags options h)
run-Keeps go (fs_with_source tag source dest fstype flags options) p h =
    outcome-Keeps p _ h (add_fs_with_source-Kept go p tag source dest fstype flags options h)
run-Keeps go (remount tag dest flags) p h =
    outcome-Keeps p _ h (add_remount-Kept go p tag dest flags h)
run-Keeps go (propagation tag dest flags) p h =
    outcome-Keeps p _ h (add_propagation-Kept go p tag dest flags h)
run-Keeps go (import_points m) p h = import-Keeps go m p h
run-Keeps go clear p h = clear-IsValid p.points
run-Keeps go (drop_dest dest) p h = cut-IsValid (λ x. x.destination == dest) p.points h
run-Keeps go (drop_source source) p h = cut-IsValid (λ x. x.source == source) p.points h
run-Keeps go (drop_tag tag) p h = remove_by_tag-IsValid p tag h
run-Keeps go (context c) p h =
    outcome-Keeps p (set_context p c) h (pick-Kept (p.context == "") _ _ h tt)

-- Whatever operations run on an empty set of points, in any order and whether they fail or not, each
-- point of a tag then has an authorized tag, an absolute destination, and no type or an authorized
-- one, and no point that mounts something has the destination of a point before it in the tag.
pub run_all-IsValid :
    (go : Go) (bs : List Command) (label : String)
    → is_valid (run_all go bs (record { context = label; points = [] })).points ≡ true
unfolding is_valid run_all
run_all-IsValid go bs label = all_kept bs (record { context = label; points = [] }) refl
  where
    all_kept :
        (cs : List Command) (p : Points)
        → is_valid p.points ≡ true
        → is_valid (run_all go cs p).points ≡ true
    all_kept [] p h = h
    all_kept (b ∷ cs) p h = all_kept cs (run go b p).0 (run-Keeps go b p h)
