-- ===== src/Rostering/Candidates/Dates.antt =====
-- The dates in which candidates are looked for reach the ends of the current intervals, and every row
-- that the query admits is a candidate.
use on_track_rostering.Prelude.{
  ℕ, ◌≤◌, true, ◌||◌, some, List, [], ◌∷◌, ◌≡◌, ◌≢◌, inl, inr, refl, sym, subst, ap, arith, map,
  Has, if◌then◌else◌, ltb, opt_eq, Has-flat_map, Has-sort_by, Has-filter, flat_map-Has, sort_by-Has,
  filter-Has,
}
use on_track_rostering.Enums.{is_scheduled, is_assigned}
use on_track_rostering.Clock.{Date, DateTime, date_of}
use on_track_rostering.Rostering.Models.{Workday, WorkdayRevision, Assignment}
use on_track_rostering.Rostering.Store.{Store}
use on_track_rostering.Rostering.Travel.Interval.{effective_person_interval}
use on_track_rostering.Rostering.Candidates.{
  Candidate, known_dates, points_of, least_from, greatest_from, earliest, latest, candidates,
  is_candidate, draft_candidates, window_start, window_end,
}

least_from-le :
    (m : ℕ) (xs : List ℕ) → (least_from m xs ≤ m) × ((x : ℕ) → Has x xs → least_from m xs ≤ x)
least_from-le m [] = (omega arith, λ x h. absurd h)
least_from-le m (y ∷ ys) =
    let (low, each) = least_from-le (if ltb y m then y else m) ys in
    (ground arith, λ x h. elim h [ inl e ↦ ground arith | inr n ↦ each x n ])

greatest_from-ge :
    (m : ℕ) (xs : List ℕ) → (m ≤ greatest_from m xs) × ((x : ℕ) → Has x xs → x ≤ greatest_from m xs)
greatest_from-ge m [] = (omega arith, λ x h. absurd h)
greatest_from-ge m (y ∷ ys) =
    let (high, each) = greatest_from-ge (if ltb m y then y else m) ys in
    (ground arith, λ x h. elim h [ inl e ↦ ground arith | inr n ↦ each x n ])

pub earliest-le : (d x : Date) (xs : List Date) → Has x xs → earliest d xs ≤ x
unfolding earliest
earliest-le d x (y ∷ ys) (inl e) = omega (arith, (least_from-le y ys).0, e)
earliest-le d x (y ∷ ys) (inr m) = (least_from-le y ys).1 x m
earliest-le d x [] m = absurd m

pub latest-ge : (d x : Date) (xs : List Date) → Has x xs → x ≤ latest d xs
unfolding latest
latest-ge d x (y ∷ ys) (inl e) = omega (arith, (greatest_from-ge y ys).0, e)
latest-ge d x (y ∷ ys) (inr m) = (greatest_from-ge y ys).1 x m
latest-ge d x [] m = absurd m

-- The known ends of a current row are among the dates that set the window.
module _ (draft : WorkdayRevision) (rows : List Assignment) (row : Assignment) (s e : DateTime)
    (own : Has row rows) (hs : (effective_person_interval draft row).start ≡ some s)
    (he : (effective_person_interval draft row).finish ≡ some e) where
  pub known_dates-start : Has (date_of s) (known_dates draft rows)
  unfolding known_dates
  known_dates-start =
      Has-flat_map (λ r. points_of (effective_person_interval draft r)) row (date_of s) rows own
        (rw (hs, he) (inl refl))

  pub known_dates-finish : Has (date_of e) (known_dates draft rows)
  unfolding known_dates
  known_dates-finish =
      Has-flat_map (λ r. points_of (effective_person_interval draft r)) row (date_of e) rows own
        (rw (hs, he) (inr (inl refl)))

-- The rows stand in the store, as an assigned row of the published or draft revision of a
-- scheduled workday.
pub record IsRostered (db : Store) (k : Candidate) : Type 0 where
  pub workday_stored : Has k.workday db.workdays
  pub revision_stored : Has k.revision db.revisions
  pub row_stored : Has k.assignment db.assignments
  pub current :
      (opt_eq k.workday.current_published_revision_id (some k.revision.id)
        || opt_eq k.workday.current_draft_revision_id (some k.revision.id))
      ≡ true
  pub in_revision : k.assignment.revision_id ≡ k.revision.id
  pub scheduled : is_scheduled k.workday.status ≡ true
  pub assigned : is_assigned k.assignment.status ≡ true

pub map-Has :
    {A B : Type 0} (f : A → B) (b : B) (xs : List A)
    → Has b (map f xs)
    → (a : A) × Has a xs × (b ≡ f a)
map-Has f b (x ∷ xs) (inl e) = (x, inl refl, e)
map-Has f b (x ∷ xs) (inr m) = let (a, n, e) = map-Has f b xs m in (a, inr n, e)
map-Has f b [] m = absurd m

pub Has-map : {A B : Type 0} (f : A → B) (a : A) (xs : List A) → Has a xs → Has (f a) (map f xs)
Has-map f a (x ∷ xs) (inl e) = inl (ap f e)
Has-map f a (x ∷ xs) (inr m) = inr (Has-map f a xs m)
Has-map f a [] m = absurd m

pub Has-candidates :
    (db : Store) (workday : Workday) (first last : Date) (k : Candidate)
    → Has k.workday db.workdays
    → Has k.revision db.revisions
    → Has k.assignment db.assignments
    → is_candidate workday first last k.workday k.revision k.assignment ≡ true
    → Has k (candidates db workday first last)
unfolding candidates
Has-candidates db workday first last k hw hr ha test = Has-sort_by _ k _ (
    Has-flat_map _ k.workday k db.workdays hw (
      Has-flat_map _ k.revision k db.revisions hr (
        Has-map (λ a. record { workday = k.workday; revision = k.revision; assignment = a })
          k.assignment _ (Has-filter _ k.assignment db.assignments ha test))))

is_candidate-true :
    (workday : Workday) (first last : Date) (w : Workday) (r : WorkdayRevision) (a : Assignment)
    → is_candidate workday first last w r a ≡ true
    → ((opt_eq w.current_published_revision_id (some r.id)
          || opt_eq w.current_draft_revision_id (some r.id))
        ≡ true)
      × (a.revision_id ≡ r.id)
      × (w.id ≢ workday.id)
      × (is_scheduled w.status ≡ true)
      × (is_assigned a.status ≡ true)
is_candidate-true workday first last w r a h =
    (ground arith, ground arith, λ e. ground arith, ground arith, ground arith)

-- A candidate stands in the store, in another workday.
pub draft_candidates-IsRostered :
    (db : Store) (workday : Workday) (draft : WorkdayRevision) (k : Candidate)
    → Has k (draft_candidates db workday draft)
    → IsRostered db k × (k.workday.id ≢ workday.id)
unfolding draft_candidates candidates
draft_candidates-IsRostered db workday draft k m =
    let (w, hw, inner) = flat_map-Has _ k db.workdays (sort_by-Has _ k _ m) in
    let (r, hr, own) = flat_map-Has _ k db.revisions inner in
    let (a, kept, made) =
      map-Has (λ a. record { workday = w; revision = r; assignment = a }) k _ own in
    let (ha, test) = filter-Has _ a db.assignments kept in
    let (current, in_revision, apart, scheduled, assigned) =
      is_candidate-true workday (window_start db draft) (window_end db draft) w r a test in
    subst (λ x. IsRostered db x × (x.workday.id ≢ workday.id)) (sym made)
      (
        record {
          workday_stored = hw;
          revision_stored = hr;
          row_stored = ha;
          current = current;
          in_revision = in_revision;
          scheduled = scheduled;
          assigned = assigned;
        },
        apart,
      )
