-- ===== src/Rostering/Conflicts/Complete.antt =====
-- No clash of timed rows is missed: the dates in which candidates are looked for reach far enough.
use on_track_rostering.Prelude.{
  ℕ, ◌≤◌, ◌<◌, true, false, Option, some, List, [], ◌≡◌, ◌≢◌, inl, refl, arith, String, Has, get_or,
  ==_iff, flat_map, Has-flat_map, Has-sort_by, Has-filter, Has-append_left,
}
use on_track_rostering.Enums.{is_scheduled, is_assigned}
use on_track_rostering.Clock.{Date, DateTime, date_of}
use on_track_rostering.Rostering.Models.{Workday, WorkdayRevision, Assignment}
use on_track_rostering.Rostering.Store.{Store, assignments_of}
use on_track_rostering.Rostering.Travel.Effective.{given_text}
use on_track_rostering.Rostering.Travel.Interval.{
  EffectivePersonInterval, effective_person_interval,
}
use on_track_rostering.Rostering.Travel.Window.{IsWithin, interval_window}
use on_track_rostering.Rostering.Candidates.{
  Candidate, current_rows, known_dates, is_candidate, draft_candidates, window_start, window_end,
}
use on_track_rostering.Rostering.Conflicts.{
  RosterConflict, ConflictKind, ConflictTiming, person, overlap, operation_related, matches,
  person_match, vehicle_match, row_conflicts, offered_conflicts, publication_conflicts, report,
}
use on_track_rostering.Rostering.Candidates.Dates.{
  earliest-le, latest-ge, known_dates-start, known_dates-finish, Has-map, Has-candidates,
  IsRostered,
}
use on_track_rostering.Rostering.Conflicts.Keys.{IsReported, append_new-reports}

-- Intervals of known ends meet exactly when each starts before the other finishes.
overlap-known :
    (left right : EffectivePersonInterval) (ld rd : Date) (ls lf rs rf : DateTime)
    → left.start ≡ some ls
    → left.finish ≡ some lf
    → right.start ≡ some rs
    → right.finish ≡ some rf
    → ls < rf
    → rs < lf
    → (overlap left right ld rd).0 ≡ true
unfolding overlap
overlap-known left right ld rd ls lf rs rf a b c d p q = ground arith

-- A row of the draft with known ends.
pub record IsTimedRow (db : Store) (draft : WorkdayRevision) (row : Assignment) (s e : DateTime)
    : Type 0 where
  pub own : Has row (assignments_of db draft.id)
  pub assigned : is_assigned row.status ≡ true
  pub start : (effective_person_interval draft row).start ≡ some s
  pub finish : (effective_person_interval draft row).finish ≡ some e

module _ (workday : Workday) {db : Store} {draft : WorkdayRevision} {row : Assignment}
    {k : Candidate} {s e s' e' : DateTime} (timed : IsTimedRow db draft row s e)
    (rostered : IsRostered db k) (within : IsWithin k.revision k.assignment)
    (other_workday : k.workday.id ≢ workday.id)
    (hs : (effective_person_interval k.revision k.assignment).start ≡ some s')
    (he : (effective_person_interval k.revision k.assignment).finish ≡ some e') (before : s < e')
    (after : s' < e) where
  Has-current_rows : Has row (current_rows db draft)
  unfolding current_rows
  Has-current_rows = Has-sort_by _ row _ (
      Has-filter (λ (a : Assignment). is_assigned a.status) row (assignments_of db draft.id)
        timed.own timed.assigned)

  in_window :
      (window_start db draft ≤ k.revision.work_date) × (k.revision.work_date ≤ window_end db draft)
  in_window =
      let rows = current_rows db draft in
      let (lo, hi) = interval_window k.revision k.assignment s' e' within hs he in
      let first =
        earliest-le draft.work_date (date_of s) (known_dates draft rows)
          (known_dates-start draft rows row s e Has-current_rows timed.start timed.finish) in
      let last =
        latest-ge draft.work_date (date_of e) (known_dates draft rows)
          (known_dates-finish draft rows row s e Has-current_rows timed.start timed.finish) in
      (omega arith, omega arith)

  is_candidate-true :
      is_candidate workday
        (window_start db draft)
        (window_end db draft)
        k.workday
        k.revision
        k.assignment
      ≡ true
  is_candidate-true =
      let (lo, hi) = in_window in
      let a = rostered.current in
      let b = rostered.in_revision in
      let c = rostered.scheduled in let d = rostered.assigned in ground arith

  Has-draft_candidates : Has k (draft_candidates db workday draft)
  unfolding draft_candidates
  Has-draft_candidates =
      Has-candidates db workday (window_start db draft) (window_end db draft) k
        rostered.workday_stored rostered.revision_stored rostered.row_stored is_candidate-true

Has-matches :
    (row other : Assignment) (p : ℕ)
    → row.person_id ≡ some p
    → other.person_id ≡ some p
    → Has
        (person, p, get_or (given_text row.person_name_snapshot) "Crew member")
        (matches row other)
unfolding matches
Has-matches row other p hp hq =
    Has-append_left (person, p, get_or (given_text row.person_name_snapshot) "Crew member")
      (person_match row other) (vehicle_match row other)
      (rw hp (rw hq (rw ((==_iff p p).1 refl) (inl refl))))

Has-row_conflicts :
    (workday : Workday) (draft : WorkdayRevision) (visible : Option (List ℕ)) (row : Assignment)
    (k : Candidate) (m : ConflictKind × ℕ × String)
    → operation_related workday k.workday ≡ false
    → (overlap
        (effective_person_interval draft row)
        (effective_person_interval k.revision k.assignment)
        draft.work_date
        k.revision.work_date).0
      ≡ true
    → Has m (matches row k.assignment)
    → (t : ConflictTiming) × Has (report visible k t m) (row_conflicts workday draft visible row k)
unfolding row_conflicts
Has-row_conflicts workday draft visible row k m unrelated meets found =
    let met =
      overlap (effective_person_interval draft row)
        (effective_person_interval k.revision k.assignment) draft.work_date k.revision.work_date in
    (
      met.1,
      rw (unrelated, meets) (Has-map (report visible k met.1) m (matches row k.assignment) found),
    )

-- If a person is on an assigned row of the draft and on an assigned row of the published or draft
-- revision of another, unrelated, scheduled workday, both with known intervals that meet, the
-- draft's workday is scheduled, and the other row is within the ranges of `IsWithin`, then the
-- person's conflict with that workday is reported.
pub publication_conflicts_complete :
    (db : Store) (workday : Workday) (draft : WorkdayRevision) (visible : Option (List ℕ))
    (row : Assignment) (k : Candidate) (s e s' e' : DateTime) (p : ℕ)
    → is_scheduled workday.status ≡ true
    → IsTimedRow db draft row s e
    → IsRostered db k
    → IsWithin k.revision k.assignment
    → k.workday.id ≢ workday.id
    → operation_related workday k.workday ≡ false
    → (effective_person_interval k.revision k.assignment).start ≡ some s'
    → (effective_person_interval k.revision k.assignment).finish ≡ some e'
    → s < e'
    → s' < e
    → row.person_id ≡ some p
    → k.assignment.person_id ≡ some p
    → (c : RosterConflict) × (c.kind ≡ person)
      × (c.subject_id ≡ p)
      × (c.other_workday_id ≡ k.workday.id)
      × IsReported c (publication_conflicts db workday draft visible false)
unfolding publication_conflicts offered_conflicts
publication_conflicts_complete db workday draft visible row k s e s' e' p sched timed rostered
      within apart unrelated hs he before after hp hq =
    let meets =
      overlap-known (effective_person_interval draft row)
        (effective_person_interval k.revision k.assignment) draft.work_date k.revision.work_date s e
        s' e' timed.start timed.finish hs he before after in
    let (t, made) =
      Has-row_conflicts workday draft visible row k
        (person, p, get_or (given_text row.person_name_snapshot) "Crew member") unrelated meets
        (Has-matches row k.assignment p hp hq) in
    let own = Has-current_rows workday timed rostered within apart hs he before after in
    let found = Has-draft_candidates workday timed rostered within apart hs he before after in
    (
      report visible k t (person, p, get_or (given_text row.person_name_snapshot) "Crew member"),
      refl,
      refl,
      refl,
      rw sched (
          append_new-reports
            (report visible k t
              (person, p, get_or (given_text row.person_name_snapshot) "Crew member"))
            [] (offered_conflicts db workday draft visible)
            (Has-flat_map
              (λ current.
                flat_map (row_conflicts workday draft visible current)
                  (draft_candidates db workday draft))
              row
              (report visible k t
                (person, p, get_or (given_text row.person_name_snapshot) "Crew member"))
              (current_rows db draft) own
              (Has-flat_map (row_conflicts workday draft visible row) k
                (report visible k t
                  (person, p, get_or (given_text row.person_name_snapshot) "Crew member"))
                (draft_candidates db workday draft) found made))),
    )
