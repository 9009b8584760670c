-- ===== src/Lib.antt =====
-- On Track Rostering: the rostering core and the access rules.
--
-- The program keeps workdays, each with revisions. A revision is a draft or a publication, and owns
-- the day's times and its assignments. Managers edit the current draft of a workday under a lock
-- version and publish it; people decline published assignments; before a publication the draft is
-- compared with the other current rosters. Who may do what follows from role grants.
--
-- Parts, files and source:
--   Clock            app/core/time.py, and Python's datetime arithmetic: a time is a number of
--                    microseconds after midnight, a date the number of a day
--   Clock/Display    app/core/time.py: parse_time, display_time; RoundTrip has the proofs
--   Clock/Civil      Python's date(year, month, day) and weekday
--   Holidays         app/core/holidays.py; Weekdays and Easter have the proofs
--   Enums, Identity  app/core/enums.py, app/identity/models.py, app/auth/access.py
--   Text, Errors     str.strip and the decimal text of a number; the exceptions as a result type
--   Auth/Policy      app/auth/policy.py (actor_for and the permission tests);
--                    Contractors and Ladder have the proofs
--   Rostering/Models app/rostering/models.py, app/catalog/models.py: the rows
--   Rostering/Store  the tables as one record of lists, with the queries and writes of the services
--   Rostering/Timing app/rostering/timing.py; Quarters and Derived have the proofs
--   Rostering/Travel app/rostering/travel.py: Effective (effective_person_travel), Interval
--                    (effective_person_interval), Standard (calculate_standard_travel); Rollover,
--                    Window and Standard/Plan have the proofs
--   Rostering/Candidates, Rostering/Conflicts
--                    app/rostering/conflicts.py; Dates, Keys, Matches, Reports and Complete have the
--                    proofs
--   Rostering/Drafts app/rostering/service.py: Copy (ensure_draft, lock_current_draft), Edit
--                    (update_draft_details, add_assignment, update_assignment,
--                    remove_assignment); Immutable, Fresh, Pointers, Same, Commands and Started
--                    have the proofs
--   Rostering/Decline app/rostering/service.py: decline_published_assignment,
--                    respond_to_reschedule; Outcome and Responses have the proofs
--   Rostering/Diff   app/rostering/diff.py: publication_diff; Fields has the compared attributes,
--                    Unchanged and Reported have the proofs
--   Rostering/Publication app/rostering/service.py: _publish; Checks, Travel and Crew are its parts,
--                    Promotion, Sent, Outcome, Kept, Published and Succeeds have the
--                    proofs
--   ContractorAccess app/identity/contractor_access.py; Expiry and Refreshed have the proofs
--   Positions        app/positions/service.py: _eligibility_from_signals; Signals (set_signal,
--                    infer_worked_capability, set_preference_signal), Bulk (bulk_eligibility);
--                    Preferences and Bulk/Single have the proofs
--   Participation    app/rostering/participation.py; Travellers, Active and Day have the proofs
--   Hours            app/hours/service.py: fortnight_bounds, format_minutes; Fortnights has the proof
--   OpenPositions    app/open_positions/service.py: select_application, Apply (apply_for_position);
--                    Selection and Apply/Applied have the proofs
--   Unavailability   app/unavailability/service.py: create_unavailability, cancel_unavailability;
--                    Disjoint has the proofs
--   Rostering/Steps  the operations above as a step relation, with what any sequence keeps in History
--                    and Pointed
--   Examples         concrete rows and stores
--
-- Parameters. The time zone (`Zone`), the normalised key of a region, the order and the canonical key
-- of position names, and the fingerprint of a set of conflicts, a SHA-256 digest, are arguments of the
-- operations that use them. An operation reads the clock once.
--
-- State. A service operation takes the store and gives the store after it, or an error: an exception
-- rolls the transaction back. uuid4 is a counter, whose next value `IsFresh` keeps above the
-- identifiers in use. Rows are locked by SELECT ... FOR UPDATE, so operations on one workday are
-- taken one after the other, and the lock version decides between edits of one draft.
--
-- Bounds. `roll_past` models the loop that moves a finish past its start on fuel; the start's day
-- number and one more are enough rounds (`roll_past_lem`). `decimal` has a round for every number up
-- to the one it writes. All else is structural recursion. Versions
-- and the minutes of rows are natural numbers, so derive_race_day_timing's test for negative ones is
-- void; the durations of calculate_standard_travel are signed. The ends of Python's calendar
-- (OverflowError) are not modelled. The values of an enumeration are a data type, so its tests for
-- other strings are void.
--
-- Not modelled: the texts of notices and of conflict timings (kept as their action, or as a form with
-- its values), creation timestamps, SQL concurrency below the row locks, rescheduling, the pages of
-- hours, sign-in, notifications, calendar import and the web pages.
pub mod Prelude
pub mod Clock
pub mod Text
pub mod Enums
pub mod Errors
pub mod Identity
pub mod Auth
pub mod ContractorAccess
pub mod Holidays
pub mod Hours
pub mod Rostering
pub mod Positions
pub mod OpenPositions
pub mod Participation
pub mod Unavailability
pub mod Examples
