-- ===== src/Rostering/Candidates.antt =====
-- app/rostering/conflicts.py: the rows that a draft is compared with, and the dates between which they
-- are looked for.
pub mod Dates
use on_track_rostering.Prelude.{
  ℕ, ◌+◌, ◌-◌, Bool, true, false, ◌&&◌, ◌||◌, not, Option, none, some, List, [], ◌∷◌, ◌++◌, String,
  ltb, leb, ◌==◌, opt_eq, is_none, get_or, any, filter, find?, flat_map, sort_by, map,
  if◌then◌else◌,
}
use on_track_rostering.Enums.{is_scheduled, is_assigned, is_vehicle}
use on_track_rostering.Clock.{Date, DateTime, date_of}
use on_track_rostering.Rostering.Models.{Workday, WorkdayRevision, Assignment}
use on_track_rostering.Rostering.Store.{Store, get_revision, get_optional, assignments_of}
use on_track_rostering.Rostering.Travel.Effective.{given_text}
use on_track_rostering.Rostering.Travel.Interval.{
  EffectivePersonInterval, effective_person_interval,
}

abbrev pub max_start_days_before_workday : ℕ
max_start_days_before_workday = 1

abbrev pub max_finish_days_after_workday : ℕ
max_finish_days_after_workday = 3

-- A row of the candidate query.
pub record Candidate : Type 0 where
  pub workday : Workday
  pub revision : WorkdayRevision
  pub assignment : Assignment

unfoldable pub current_rows : Store → WorkdayRevision → List Assignment
unfolding assignments_of
current_rows db draft =
    sort_by (λ a b. leb a.id b.id) (filter (λ a. is_assigned a.status) (assignments_of db draft.id))

-- The dates of the known ends of the current intervals.
abbrev pub points_of : EffectivePersonInterval → List Date
points_of i =
    (elim i.start [ none ↦ [] | some s ↦ date_of s ∷ [] ])
    ++ (elim i.finish [ none ↦ [] | some f ↦ date_of f ∷ [] ])

unfoldable pub known_dates : WorkdayRevision → List Assignment → List Date
known_dates draft rows = flat_map (λ row. points_of (effective_person_interval draft row)) rows

-- `min(dates, default=d)` and `max(dates, default=d)`.
abbrev pub least_from : ℕ → List ℕ → ℕ
least_from m [] = m
least_from m (x ∷ xs) = least_from (if ltb x m then x else m) xs

abbrev pub greatest_from : ℕ → List ℕ → ℕ
greatest_from m [] = m
greatest_from m (x ∷ xs) = greatest_from (if ltb m x then x else m) xs

unfoldable pub earliest : Date → List Date → Date
earliest d [] = d
earliest d (x ∷ xs) = least_from x xs

unfoldable pub latest : Date → List Date → Date
latest d [] = d
latest d (x ∷ xs) = greatest_from x xs

-- The joins and the WHERE clause of the candidate query.
abbrev pub is_candidate : Workday → Date → Date → Workday → WorkdayRevision → Assignment → Bool
is_candidate workday first last w r a =
    (opt_eq w.current_published_revision_id (some r.id)
      || opt_eq w.current_draft_revision_id (some r.id))
    && a.revision_id == r.id
    && not (w.id == workday.id)
    && is_scheduled w.status
    && leb first r.work_date
    && leb r.work_date last
    && is_assigned a.status

-- 0 for the published revision of its workday, which stands before the draft.
abbrev published_rank : Candidate → ℕ
published_rank c =
    if opt_eq c.workday.current_published_revision_id (some c.revision.id) then 0 else 1

-- ORDER BY work date, workday, published revision first, assignment.
abbrev stands_before : Candidate → Candidate → Bool
stands_before x y =
    ltb x.revision.work_date y.revision.work_date
    || x.revision.work_date == y.revision.work_date
      && (ltb x.workday.id y.workday.id
          || x.workday.id == y.workday.id
            && (ltb (published_rank x) (published_rank y)
                || published_rank x == published_rank y && leb x.assignment.id y.assignment.id))

unfoldable pub candidates : Store → Workday → Date → Date → List Candidate
candidates db workday first last = sort_by stands_before (
    flat_map
      (λ w.
        flat_map
          (λ r.
            map (λ a. record { workday = w; revision = r; assignment = a })
              (filter (λ a. is_candidate workday first last w r a) db.assignments))
          db.revisions)
      db.workdays)

-- The dates between which the candidates of a draft are looked for.
abbrev pub window_start : Store → WorkdayRevision → Date
window_start db draft =
    earliest draft.work_date (known_dates draft (current_rows db draft))
    - max_finish_days_after_workday

abbrev pub window_end : Store → WorkdayRevision → Date
window_end db draft =
    latest draft.work_date (known_dates draft (current_rows db draft))
    + max_start_days_before_workday

unfoldable pub draft_candidates : Store → Workday → WorkdayRevision → List Candidate
draft_candidates db workday draft =
    candidates db workday (window_start db draft) (window_end db draft)
