-- ===== src/Rostering/Conflicts/Reports.antt =====
-- What a reported conflict says, and that each is reported once.
use on_track_rostering.Prelude.{
  ℕ, Bool, true, false, ◌&&◌, not, Option, List, [], ◌++◌, ◌≡◌, ◌≢◌, ◌⊎◌, inl, inr, Has, Bool-cases,
  flat_map-Has, sort_by-Has, filter-Has, Has-append_left, Has-append_right, ap,
}
use on_track_rostering.Enums.{is_scheduled, is_assigned}
use on_track_rostering.Rostering.Models.{Workday, WorkdayRevision, Assignment}
use on_track_rostering.Rostering.Store.{Store, assignments_of}
use on_track_rostering.Rostering.Travel.Interval.{effective_person_interval}
use on_track_rostering.Rostering.Candidates.{Candidate, current_rows, draft_candidates}
use on_track_rostering.Rostering.Candidates.Dates.{IsRostered, map-Has, draft_candidates-IsRostered}
use on_track_rostering.Rostering.Conflicts.{
  RosterConflict, overlap, operation_related, matches, row_conflicts, ConflictTiming, report,
  offered_conflicts, publication_conflicts, operation_publication_conflicts, generated_conflicts,
}
use on_track_rostering.Rostering.Conflicts.Matches.{
  IsShared, matches-IsShared, IsMeeting, overlap-IsMeeting,
}
use on_track_rostering.Rostering.Conflicts.Keys.{
  IsUnique, IsReported, append_new-IsUnique, append_new-Has, append_new-reports,
}

-- An assigned row of the draft, and a stored assigned row of the published or draft revision of
-- another workday, which is scheduled, that conflict.
pub record IsClash (db : Store) (workday : Workday) (draft : WorkdayRevision) (c : RosterConflict)
    : Type 0 where
  pub row : Assignment
  pub other : Candidate
  pub assigned_row : is_assigned row.status ≡ true
  pub own_row : Has row (assignments_of db draft.id)
  pub rostered : IsRostered db other
  pub elsewhere : other.workday.id ≢ workday.id
  pub named : c.other_workday_id ≡ other.workday.id
  pub unrelated : operation_related workday other.workday ≡ false
  pub meets :
      IsMeeting
        (effective_person_interval draft row)
        (effective_person_interval other.revision other.assignment)
        draft.work_date
        other.revision.work_date
  pub shared : IsShared row other.assignment c.kind c.subject_id

row_conflicts-IsClash :
    (db : Store) (workday : Workday) (draft : WorkdayRevision) (visible : Option (List ℕ))
    (row : Assignment) (k : Candidate) (c : RosterConflict)
    → Has row (current_rows db draft)
    → Has k (draft_candidates db workday draft)
    → Has c (row_conflicts workday draft visible row k)
    → IsClash db workday draft c
unfolding row_conflicts current_rows
row_conflicts-IsClash db workday draft visible row k c own stored m =
    elim (Bool-cases (operation_related workday k.workday)) [
      | inl e ↦ absurd (rw e at m)
      | inr e ↦ elim (Bool-cases met.0) [
        | inr o ↦ absurd (rw (e, o) at m)
        | inl o ↦
            let (rostered, elsewhere) = draft_candidates-IsRostered db workday draft k stored in
            let (match, found, made) =
              map-Has (report visible k met.1) c (matches row k.assignment) (rw (e, o) at m) in
            let (held, status) =
              filter-Has (λ (a : Assignment). is_assigned a.status) row (assignments_of db draft.id)
                (sort_by-Has _ row _ own) in
            record {
              row = row;
              other = k;
              assigned_row = status;
              own_row = held;
              rostered = rostered;
              elsewhere = elsewhere;
              named = ap (λ (x : RosterConflict). x.other_workday_id) made;
              unrelated = e;
              meets =
                  overlap-IsMeeting (effective_person_interval draft row)
                    (effective_person_interval k.revision k.assignment) draft.work_date
                    k.revision.work_date o;
              shared = rw made (matches-IsShared row k.assignment match.0 match.1 match.2 found);
            }
      ]
    ]
  where
    met : Bool × ConflictTiming
    met =
        overlap (effective_person_interval draft row)
          (effective_person_interval k.revision k.assignment) draft.work_date k.revision.work_date

-- A reported conflict is a clash of an assigned row of the draft with another row that is stored in
-- the published or draft revision of its workday: that row is assigned, its workday is scheduled, is
-- another one and is unrelated to the draft's, the conflict names it, and the two rows share the
-- person or vehicle of the conflict. Each row's interval starts before the other's finishes, or an
-- end is not known and the two are of one date.
pub publication_conflicts-IsClash :
    (db : Store) (workday : Workday) (draft : WorkdayRevision) (visible : Option (List ℕ))
    (include_inactive : Bool) (c : RosterConflict)
    → Has c (publication_conflicts db workday draft visible include_inactive)
    → IsClash db workday draft c
unfolding publication_conflicts offered_conflicts
publication_conflicts-IsClash db workday draft visible include_inactive c m =
    elim (Bool-cases (not include_inactive && not (is_scheduled workday.status))) [
      | inl e ↦ absurd (rw e at m)
      | inr e ↦ elim (append_new-Has c [] offered (rw e at m)) [
        | inl n ↦ absurd n
        | inr n ↦
            let (row, own, inner) = flat_map-Has _ c rows n in
            let (k, found, made) =
              flat_map-Has (row_conflicts workday draft visible row) c
                (draft_candidates db workday draft) inner in
            row_conflicts-IsClash db workday draft visible row k c own found made
      ]
    ]
  where
    rows : List Assignment
    rows = current_rows db draft

    offered : List RosterConflict
    offered = offered_conflicts db workday draft visible

-- The conflicts of a publication, those of its generated Travel workday included, have distinct
-- keys, and the key of every conflict of either workday is among them.
pub operation_publication_conflicts-keys :
    (db : Store) (workday : Workday) (draft : WorkdayRevision) (visible : Option (List ℕ))
    → IsUnique (operation_publication_conflicts db workday draft visible)
      × ((c : RosterConflict)
          → Has c (publication_conflicts db workday draft visible false)
            ⊎ Has c (generated_conflicts db workday draft visible)
          → IsReported c (operation_publication_conflicts db workday draft visible))
unfolding operation_publication_conflicts
operation_publication_conflicts-keys db workday draft visible =
    let own = publication_conflicts db workday draft visible false in
    let travel = generated_conflicts db workday draft visible in
    (
      append_new-IsUnique [] (own ++ travel) tt,
      λ c m. append_new-reports c [] (own ++ travel) (elim m [
        | inl n ↦ Has-append_left c own travel n
        | inr n ↦ Has-append_right c own travel n
      ]),
    )
