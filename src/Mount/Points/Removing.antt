-- ===== src/Mount/Points/Removing.antt =====
-- The removals, and the validity of the points.
use apptainer.Prelude.{
  String, List, [], ◌∷◌, Bool, true, false, not, ◌&&◌, ◌==◌, all, Assoc, select, ◌≡◌, refl, arith,
}
use apptainer.Mount.Points.{
  Point, Points, get_by_dest, get_by_source, each_list, cut, select_all, remove_by_dest,
  remove_by_source, remove_by_tag,
}
use apptainer.Mount.Points.Valid.{is_valid, is_authorized, plain_at, unique, is_valid-insert}

all-cut : (p f : Point → Bool) (xs : List Point) → all p xs ≡ true → all p (cut f xs) ≡ true
unfolding cut
all-cut p f [] h = refl
all-cut p f (x ∷ xs) h = ground (arith, all-cut p f xs)

plain_at-cut :
    (d : String) (f : Point → Bool) (xs : List Point)
    → plain_at d xs ≡ false
    → plain_at d (cut f xs) ≡ false
unfolding cut
plain_at-cut d f [] h = refl
plain_at-cut d f (x ∷ xs) h = ground (arith, plain_at-cut d f xs)

unique-cut : (f : Point → Bool) (xs : List Point) → unique xs ≡ true → unique (cut f xs) ≡ true
unfolding cut unique
unique-cut f [] h = refl
unique-cut f (x ∷ xs) h = ground (arith, unique-cut f xs, plain_at-cut x.destination f xs)

pub cut-IsValid :
    (f : Point → Bool) (m : Assoc (List Point))
    → is_valid m ≡ true
    → is_valid (each_list (cut f) m) ≡ true
unfolding is_valid each_list
cut-IsValid f [] h = refl
cut-IsValid f ((tag, xs) ∷ m) h =
    ground (arith, cut-IsValid f m, unique-cut f xs, all-cut (is_authorized tag) f xs)

pub clear-IsValid : (m : Assoc (List Point)) → is_valid (each_list (λ xs. []) m) ≡ true
unfolding is_valid each_list unique
clear-IsValid [] = refl
clear-IsValid ((tag, xs) ∷ m) = clear-IsValid m

pub remove_by_tag-IsValid :
    (p : Points) (tag : String)
    → is_valid p.points ≡ true
    → is_valid (remove_by_tag p tag).points ≡ true
unfolding unique
remove_by_tag-IsValid p tag h = is_valid-insert tag [] p.points h refl refl

select-cut :
    (f g : Point → Bool) (xs : List Point) → select g (cut f xs) ≡ select (λ x. g x && not (f x)) xs
unfolding cut
select-cut f g [] = refl
select-cut f g (x ∷ xs) = ground (arith, select-cut f g xs)

-- After a removal, a search finds what it found before, less what is removed.
pub select_all-cut :
    (f g : Point → Bool) (m : Assoc (List Point))
    → select_all g (each_list (cut f) m) ≡ select_all (λ x. g x && not (f x)) m
unfolding select_all each_list
select_all-cut f g [] = refl
select_all-cut f g ((tag, xs) ∷ m) = rw (select-cut f g xs, select_all-cut f g m) refl

select_none : (g : Point → Bool) (xs : List Point) → ((x : Point) → g x ≡ false) → select g xs ≡ []
select_none g [] h = refl
select_none g (x ∷ xs) h = rw (h x) (select_none g xs h)

select_all_none :
    (g : Point → Bool) (m : Assoc (List Point)) → ((x : Point) → g x ≡ false) → select_all g m ≡ []
unfolding select_all
select_all_none g [] h = refl
select_all_none g ((tag, xs) ∷ m) h = rw (select_none g xs h, select_all_none g m h) refl

contradiction : (b : Bool) → (b && not b) ≡ false
contradiction true = refl
contradiction false = refl

-- After `RemoveByDest` no point has the destination, and a search for any other property finds what it
-- found before, less the points of the destination.
pub remove_by_dest-Removes :
    (p : Points) (dest : String)
    → (get_by_dest (remove_by_dest p dest) dest ≡ [])
      × ((g : Point → Bool)
          → select_all g (remove_by_dest p dest).points
            ≡ select_all (λ x. g x && not (x.destination == dest)) p.points)
remove_by_dest-Removes p dest = (
  rw (select_all-cut (λ x. x.destination == dest) (λ x. x.destination == dest) p.points)
      (select_all_none _ p.points (λ x. contradiction (x.destination == dest))),
  λ g. select_all-cut (λ x. x.destination == dest) g p.points,
)

-- After `RemoveBySource` no point has the source, and a search for any other property finds what it
-- found before, less the points of the source.
pub remove_by_source-Removes :
    (p : Points) (source : String)
    → (get_by_source (remove_by_source p source) source ≡ [])
      × ((g : Point → Bool)
          → select_all g (remove_by_source p source).points
            ≡ select_all (λ x. g x && not (x.source == source)) p.points)
remove_by_source-Removes p source = (
  rw (select_all-cut (λ x. x.source == source) (λ x. x.source == source) p.points)
      (select_all_none _ p.points (λ x. contradiction (x.source == source))),
  λ g. select_all-cut (λ x. x.source == source) g p.points,
)
