-- ===== src/Rostering/Decline/Responses.antt =====
-- What a response to a rescheduled workday writes.
use on_track_rostering.Prelude.{
  ℕ, true, false, ◌||◌, not, some, List, [], ◌∷◌, ◌++◌, ◌≡◌, ◌∙◌, inl, inr, refl, subst, arith,
  ==_iff, any, map, Has, Bool-cases, is_none, if◌then◌else◌,
}
use on_track_rostering.Enums.{is_scheduled}
use on_track_rostering.Errors.{ok, >>=-eq-ok, ok-injective, reject_if-eq-ok}
use on_track_rostering.Clock.{DateTime}
use on_track_rostering.Rostering.Models.{
  Workday, WorkdayRevision, PersonalWorkdayEntry, ReplacementResponse,
}
use on_track_rostering.Rostering.Store.{
  Store, SameRoster, SameRoster-trans, get_workday, get_revision, get_optional, notify,
}
use on_track_rostering.Rostering.Drafts.Same.{notify-SameRoster}
use on_track_rostering.Rostering.Store.Frames.{get_workday-id}
use on_track_rostering.Rostering.Drafts.Copy.{require, require-eq-ok}
use on_track_rostering.Rostering.Decline.{
  own_entry, answered, fresh_entry, answer, assigned_in, respond_to_reschedule,
  replacement_not_found, response_notices,
}

-- The answer stands in every entry of the person for the workday, of which there is one at least,
-- and the other entries are those of before.
abbrev pub IsAnswered :
    ℕ → ℕ → ReplacementResponse → List PersonalWorkdayEntry → List PersonalWorkdayEntry → Type 0
IsAnswered w p response before after =
    (any (own_entry w p) after ≡ true)
    × ((e : PersonalWorkdayEntry)
        → Has e after
        → own_entry w p e ≡ true
        → e.replacement_response ≡ some response)
    × ((e : PersonalWorkdayEntry) → Has e before → own_entry w p e ≡ false → Has e after)

module _ (w p : ℕ) (response : ReplacementResponse) (now : DateTime) where
  abbrev written : PersonalWorkdayEntry → PersonalWorkdayEntry
  written e = if own_entry w p e then answered response now e else e

  any-written :
      (es : List PersonalWorkdayEntry)
      → any (own_entry w p) (map written es) ≡ any (own_entry w p) es
  any-written [] = refl
  any-written (e ∷ es) = ground (arith, any-written es)

  written-answered :
      (es : List PersonalWorkdayEntry) (e : PersonalWorkdayEntry)
      → Has e (map written es)
      → own_entry w p e ≡ true
      → e.replacement_response ≡ some response
  written-answered (x ∷ xs) e (inl h) own = ground arith
  written-answered (x ∷ xs) e (inr m) own = written-answered xs e m own
  written-answered [] e m own = absurd m

  Has-written :
      (es : List PersonalWorkdayEntry) (e : PersonalWorkdayEntry)
      → Has e es
      → own_entry w p e ≡ false
      → Has e (map written es)
  Has-written (x ∷ xs) e (inl h) other = inl (ground arith)
  Has-written (x ∷ xs) e (inr m) other = inr (Has-written xs e m other)
  Has-written [] e m other = absurd m

  appended-answered :
      (es : List PersonalWorkdayEntry) (n : ℕ)
      → any (own_entry w p) es ≡ false
      → IsAnswered w p response es (es ++ answered response now (fresh_entry n w p) ∷ [])
  appended-answered [] n none_own = (
    ground (arith, (==_iff w w).1 refl),
    λ e m own. elim m [ inl h ↦ ground arith | inr x ↦ absurd x ],
    λ e m other. absurd m,
  )
  appended-answered (x ∷ xs) n none_own =
      let (some_own, each, kept) = appended-answered xs n (ground arith) in
      (
        ground arith,
        λ e m own. elim m [ inl h ↦ ground arith | inr y ↦ each e y own ],
        λ e m other. elim m [ inl h ↦ inl h | inr y ↦ inr (kept e y other) ],
      )

  answer-IsAnswered :
      (db : Store) → IsAnswered w p response db.entries (answer w p response now db).entries
  unfolding answer
  answer-IsAnswered db = elim (Bool-cases (any (own_entry w p) db.entries)) [
    | inl e ↦ rw e (any-written db.entries ∙ e, written-answered db.entries, Has-written db.entries)
    | inr e ↦ rw e (appended-answered db.entries db.next_id e)
  ]

  answer-frame :
      (db : Store)
      → ((answer w p response now db).workdays ≡ db.workdays)
        × ((answer w p response now db).revisions ≡ db.revisions)
        × ((answer w p response now db).assignments ≡ db.assignments)
  unfolding answer
  answer-frame db = elim (Bool-cases (any (own_entry w p) db.entries)) [
    | inl e ↦ rw e (refl, refl, refl)
    | inr e ↦ rw e (refl, refl, refl)
  ]

answer-SameRoster :
    (w p : ℕ) (response : ReplacementResponse) (now : DateTime) (db : Store)
    → SameRoster db (answer w p response now db)
unfolding answer
answer-SameRoster w p response now db = elim (Bool-cases (any (own_entry w p) db.entries)) [
  | inl e ↦
      rw e (record { workdays = refl; revisions = refl; assignments = refl; next_id = omega arith })
  | inr e ↦
      rw e (record { workdays = refl; revisions = refl; assignments = refl; next_id = omega arith })
]

-- The store that a successful response leaves.
pub respond_to_reschedule-eq-ok :
    (db : Store) (w p actor : ℕ) (now : DateTime) (response : ReplacementResponse) (after : Store)
    → respond_to_reschedule db w p response actor now ≡ ok after
    → (workday : Workday) × (revision : WorkdayRevision) × (get_workday db w ≡ some workday)
      × (notify
            (response_notices response workday.id revision.id actor)
            (answer workday.id p response now db)
          ≡ after)
unfolding respond_to_reschedule
respond_to_reschedule-eq-ok db w p actor now response after h =
    let (workday, found, r1) = >>=-eq-ok (require (get_workday db w) replacement_not_found) _ h in
    let (revision, known, r2) =
      >>=-eq-ok
        (require (get_optional (get_revision db) workday.current_published_revision_id)
          replacement_not_found)
        _ r1 in
    let (_, done) =
      reject_if-eq-ok
        (not (is_scheduled workday.status)
          || is_none workday.rescheduled_from_workday_id
          || not (assigned_in db revision.id p))
        replacement_not_found _ r2 in
    (workday, revision, require-eq-ok _ replacement_not_found workday found, ok-injective done)

pub respond_to_reschedule-SameRoster :
    (db : Store) (w p actor : ℕ) (response : ReplacementResponse) (now : DateTime) (after : Store)
    → respond_to_reschedule db w p response actor now ≡ ok after
    → SameRoster db after
respond_to_reschedule-SameRoster db w p actor response now after h =
    let (workday, revision, _, done) =
      respond_to_reschedule-eq-ok db w p actor now response after h in
    let answering = answer workday.id p response now db in
    subst (SameRoster db) done (
      SameRoster-trans (answer-SameRoster workday.id p response now db)
        (notify-SameRoster (response_notices response workday.id revision.id actor) answering))

-- What a response leaves, from the store before to the store after.
abbrev pub IsResponded : Store → Store → ℕ → ℕ → ReplacementResponse → Type 0
IsResponded db after w p response =
    (any (own_entry w p) after.entries ≡ true)
    × ((e : PersonalWorkdayEntry)
        → Has e after.entries
        → own_entry w p e ≡ true
        → e.replacement_response ≡ some response)
    × ((e : PersonalWorkdayEntry)
        → Has e db.entries
        → own_entry w p e ≡ false
        → Has e after.entries)
    × (after.workdays ≡ db.workdays)
    × (after.revisions ≡ db.revisions)
    × (after.assignments ≡ db.assignments)

-- A response that succeeds stands in the person's entry for the workday, which is made if there was
-- none; the entries of others, and every workday, revision and assignment, stay as they were.
pub respond_to_reschedule-answers :
    (db : Store) (w p actor : ℕ) (now : DateTime) (response : ReplacementResponse) (after : Store)
    → respond_to_reschedule db w p response actor now ≡ ok after
    → IsResponded db after w p response
respond_to_reschedule-answers db w p actor now response after h =
    let (workday, revision, found, done) =
      respond_to_reschedule-eq-ok db w p actor now response after h in
    let (own, each, kept) = answer-IsAnswered workday.id p response now db in
    let (days, revisions, rows) = answer-frame workday.id p response now db in
    subst (λ (x : Store). IsResponded db x w p response) done
      (subst
        (λ n.
          IsResponded db
            (notify (response_notices response workday.id revision.id actor)
              (answer workday.id p response now db))
            n p response)
        (get_workday-id db w workday found)
        (unfold notify in (own, each, kept, days, revisions, rows)))
