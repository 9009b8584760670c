-- ===== src/Examples/Applications.antt =====
-- An application for an open position, selected in the draft of its workday; a response to a
-- rescheduled workday; and the capability signals of a person.
use on_track_rostering.Prelude.{
  ℕ, ◌≡◌, ◌↔◌, ◌⊎◌, refl, inl, none, some, [], ◌∷◌, Has, true, false, any,
}
use on_track_rostering.Enums.{
  OpenApplicationStatus, AssignmentStatus, RevisionState, Lifecycle, CapabilitySignal,
}
use on_track_rostering.Errors.{ok}
use on_track_rostering.Identity.{Person}
use on_track_rostering.Positions.{has_signal, eligibility_from_signals}
use on_track_rostering.Positions.Eligibility.{eligibility_from_signals-true_iff}
use on_track_rostering.Rostering.Models.{
  Workday, WorkdayRevision, Assignment, OpenPositionApplication, PersonalWorkdayEntry,
  ReplacementResponse,
}
use on_track_rostering.Rostering.Store.{Store, get_workday, get_revision, get_person}
use on_track_rostering.Rostering.Drafts.Copy.{lock_current_draft}
use on_track_rostering.Rostering.Drafts.Immutable.{KeepsPublished}
use on_track_rostering.Rostering.Decline.{
  own_entry, respond_to_reschedule, answered, fresh_entry, response_notices,
}
use on_track_rostering.Rostering.Decline.Responses.{respond_to_reschedule-answers}
use on_track_rostering.OpenPositions.{given_to, selected_for, select_application}
use on_track_rostering.OpenPositions.Selection.{select_application-assigns}
use on_track_rostering.Examples.{workday, revision, assignment, published_day, store}

abbrev pub vacant : ℕ → ℕ → Assignment
vacant id revision_id = record (assignment id revision_id) {
  person_id = none;
  person_name_snapshot = none;
  status = AssignmentStatus.open_slot;
}

abbrev application : OpenPositionApplication
application = record {
  id = 80;
  revision_id = 1;
  slot_key = 70;
  person_id = 7;
  status = OpenApplicationStatus.applied;
  selected_draft_revision_id = none;
  decided_at = none;
}

abbrev applicant : Person
applicant = record {
  id = 7;
  display_name = "Ana";
  lifecycle = Lifecycle.active;
  home_region_id = some 5;
}

abbrev pub vacancy : Store
vacancy = record store {
  workdays = workday 11 (some 1) (some 3) ∷ [];
  revisions = published_day ∷ revision 3 11 RevisionState.draft ∷ [];
  assignments = vacant 21 1 ∷ vacant 23 3 ∷ [];
  applications = application ∷ [];
  people = applicant ∷ [];
}

abbrev filled : Store
filled = record vacancy {
  workdays = record (workday 11 (some 1) (some 3)) { lock_version = 4 } ∷ [];
  assignments = vacant 21 1 ∷ given_to applicant (vacant 23 3) ∷ [];
  applications = selected_for 3 application ∷ [];
}

selection : select_application vacancy 11 3 application 3 ≡ ok filled
unfolding select_application lock_current_draft get_workday get_revision get_person
selection = refl

select_application-assigns_example :
    (application.status ≡ OpenApplicationStatus.applied)
    × ((workday : Workday) × (draft : WorkdayRevision) × (row : Assignment) × (get_workday vacancy
            11
          ≡ some workday)
        × (workday.current_published_revision_id ≡ some 1)
        × (get_revision vacancy 3 ≡ some draft)
        × Has row filled.assignments
        × (row.revision_id ≡ draft.id)
        × (row.slot_key ≡ 70)
        × (row.person_id ≡ some 7)
        × (row.status ≡ AssignmentStatus.assigned)
        × Has
            (record application {
              status = OpenApplicationStatus.selected;
              selected_draft_revision_id = some draft.id;
            })
            filled.applications
        × (get_workday filled 11 ≡ some (record workday { lock_version = 4 })))
    × KeepsPublished vacancy filled
select_application-assigns_example =
    select_application-assigns vacancy 11 3 3 application filled (inl refl) selection

eligibility_from_signals-true_iff_example :
    ((eligibility_from_signals (CapabilitySignal.worked ∷ []) true).0 ≡ true) ↔ (
      (has_signal CapabilitySignal.manager_block (CapabilitySignal.worked ∷ []) ≡ false)
      × (has_signal CapabilitySignal.employee_opt_out (CapabilitySignal.worked ∷ []) ≡ false)
      × ((has_signal CapabilitySignal.employee_allow (CapabilitySignal.worked ∷ []) ≡ true)
          ⊎ ((has_signal CapabilitySignal.manager_allow (CapabilitySignal.worked ∷ []) ≡ true)
              ⊎ ((has_signal CapabilitySignal.worked (CapabilitySignal.worked ∷ []) ≡ true)
                  × (true ≡ true)))))
eligibility_from_signals-true_iff_example =
    eligibility_from_signals-true_iff (CapabilitySignal.worked ∷ []) true

-- Workday 11 as the replacement of workday 10.
abbrev moved : Store
moved = record store {
  workdays = record (workday 11 (some 1) none) { rescheduled_from_workday_id = some 10 } ∷ [];
}

abbrev declined : Store
declined = record moved {
  entries = answered ReplacementResponse.declined 5000 (fresh_entry 100 11 7) ∷ [];
  notices = response_notices ReplacementResponse.declined 11 1 91;
  next_id = 101;
}

response : respond_to_reschedule moved 11 7 ReplacementResponse.declined 91 5000 ≡ ok declined
unfolding respond_to_reschedule get_workday get_revision
response = refl

respond_to_reschedule-answers_example :
    (any (own_entry 11 7) declined.entries ≡ true)
    × ((e : PersonalWorkdayEntry)
        → Has e declined.entries
        → own_entry 11 7 e ≡ true
        → e.replacement_response ≡ some ReplacementResponse.declined)
    × ((e : PersonalWorkdayEntry)
        → Has e moved.entries
        → own_entry 11 7 e ≡ false
        → Has e declined.entries)
    × (declined.workdays ≡ moved.workdays)
    × (declined.revisions ≡ moved.revisions)
    × (declined.assignments ≡ moved.assignments)
respond_to_reschedule-answers_example =
    respond_to_reschedule-answers moved 11 7 91 5000 ReplacementResponse.declined declined response
