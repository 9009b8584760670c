-- ===== src/Rostering/Publication/Kept.antt =====
-- What the publication or the cancellation of a generated Travel keeps, in `_publish` of
-- app/rostering/service.py.
use on_track_rostering.Prelude.{
  ℕ, true, false, Option, none, some, ◌≡◌, ◌≢◌, inl, inr, refl, subst, sym, ◌∙◌, arith, ap, Has,
  find?-some, opt_eq, ◌==◌, ==_iff, Bool-cases,
}
use on_track_rostering.Clock.{DateTime}
use on_track_rostering.Rostering.Models.{Workday, WorkdayRevision}
use on_track_rostering.Rostering.Store.{
  Store, get_workday, get_revision, assignments_of, put_workday, put_revision, get_optional,
}
use on_track_rostering.Rostering.Store.Frames.{get_workday-put, get_revision-id}
use on_track_rostering.Rostering.Conflicts.{generated_travel, travel_draft}
use on_track_rostering.Rostering.Drafts.Fresh.{IsFresh}
use on_track_rostering.Rostering.Drafts.Immutable.{KeepsPublished}
use on_track_rostering.Rostering.Drafts.Pointers.{
  IsPointed, put_workday-IsPointed, SameRoster-IsPointed,
}
use on_track_rostering.Rostering.Drafts.Same.{
  notify-SameRoster, SameRoster-workday, SameRoster-KeepsPublished, SameRoster-IsFresh,
  KeepsPublished-trans,
}
use on_track_rostering.Rostering.Publication.Checks.{published_revision, published_workday}
use on_track_rostering.Rostering.Publication.Sent.{TravelOutcome, left, cancels, sends}
use on_track_rostering.Rostering.Publication.Travel.{
  cancelled, cancelled_notices, scheduled, reinstated_notices,
}
use on_track_rostering.Rostering.Publication.Promotion.{
  promoted, promoted-IsFresh, promoted-KeepsPublished, promoted-IsPointed,
}

pub generated_travel-Has :
    (db : Store) (id : ℕ) (travel : Workday)
    → generated_travel db id ≡ some travel
    → Has travel db.workdays × (travel.generated_from_workday_id ≡ some id)
unfolding generated_travel
generated_travel-Has db id travel h =
    let (m, t) =
      find?-some (λ (w : Workday). opt_eq w.generated_from_workday_id (some id)) db.workdays travel
        h in
    (m, names travel.generated_from_workday_id t)
  where
    names : (o : Option ℕ) → opt_eq o (some id) ≡ true → o ≡ some id
    names none e = cc
    names (some n) e = ground arith

-- The draft of a Travel is the revision of its own identifier.
pub travel_draft-found :
    (db : Store) (travel : Workday) (draft : WorkdayRevision)
    → travel_draft db travel ≡ some draft
    → (get_revision db draft.id ≡ some draft) × (travel.current_draft_revision_id ≡ some draft.id)
travel_draft-found db travel draft h = go travel.current_draft_revision_id h
  where
    go :
        (o : Option ℕ)
        → get_optional (get_revision db) o ≡ some draft
        → (get_revision db draft.id ≡ some draft) × (o ≡ some draft.id)
    go none e = cc
    go (some id) e =
        let same = get_revision-id db id draft e in
        (subst (λ i. get_revision db i ≡ some draft) (sym same) e, ap some (sym same))

-- A workday that is written leaves the revisions and their rows.
put_workday-KeepsPublished : (w : Workday) (db : Store) → KeepsPublished db (put_workday w db)
unfolding put_workday get_revision assignments_of
put_workday-KeepsPublished w db id r h s = (h, refl)

put_workday-IsFresh : (w : Workday) (db : Store) → IsFresh db → IsFresh (put_workday w db)
unfolding put_workday
put_workday-IsFresh w db f = record { revisions = f.revisions; rows = f.rows }

pub sent-KeepsPublished :
    {workday actor : ℕ} {now : DateTime} {db sent : Store}
    → TravelOutcome workday actor now db sent
    → KeepsPublished db sent
sent-KeepsPublished left = λ id r h s. (h, refl)
sent-KeepsPublished {workday} {actor} {now} {db} {sent} (cancels travel h) =
    KeepsPublished-trans db (put_workday (cancelled travel) db) sent
      (put_workday-KeepsPublished (cancelled travel) db)
      (SameRoster-KeepsPublished
        (notify-SameRoster (cancelled_notices travel actor) (put_workday (cancelled travel) db)))
sent-KeepsPublished {workday} {actor} {now} {db} {sent} (sends travel draft h hd is_draft) =
    KeepsPublished-trans db (promoted (scheduled travel) draft actor now db) sent
      (promoted-KeepsPublished (scheduled travel) draft actor now db
        (travel_draft-found db travel draft hd).0 is_draft)
      (SameRoster-KeepsPublished (
        notify-SameRoster (reinstated_notices travel actor)
          (promoted (scheduled travel) draft actor now db)))

pub sent-IsFresh :
    {workday actor : ℕ} {now : DateTime} {db sent : Store}
    → TravelOutcome workday actor now db sent
    → IsFresh db
    → IsFresh sent
sent-IsFresh left f = f
sent-IsFresh {workday} {actor} {now} {db} {sent} (cancels travel h) f =
    SameRoster-IsFresh
      (notify-SameRoster (cancelled_notices travel actor) (put_workday (cancelled travel) db))
      (put_workday-IsFresh (cancelled travel) db f)
sent-IsFresh {workday} {actor} {now} {db} {sent} (sends travel draft h hd is_draft) f =
    SameRoster-IsFresh
      (notify-SameRoster (reinstated_notices travel actor)
        (promoted (scheduled travel) draft actor now db))
      (promoted-IsFresh (scheduled travel) draft actor now db
        (travel_draft-found db travel draft hd).0 f)

pub sent-IsPointed :
    {workday actor : ℕ} {now : DateTime} {db sent : Store}
    → TravelOutcome workday actor now db sent
    → IsPointed db
    → IsPointed sent
sent-IsPointed left p = p
sent-IsPointed {workday} {actor} {now} {db} {sent} (cancels travel h) p =
    let own = p travel (generated_travel-Has db workday travel h).0 in
    SameRoster-IsPointed
      (notify-SameRoster (cancelled_notices travel actor) (put_workday (cancelled travel) db))
      (put_workday-IsPointed (cancelled travel) db p
        (record { published = own.published; draft = own.draft }))
sent-IsPointed {workday} {actor} {now} {db} {sent} (sends travel draft h hd is_draft) p =
    let own = p travel (generated_travel-Has db workday travel h).0 in
    let (found, current) = travel_draft-found db travel draft hd in
    let (r, hr, _, owner) = own.draft draft.id current in
    let is_it : r ≡ draft = cc (hr, found) in
    SameRoster-IsPointed
      (notify-SameRoster (reinstated_notices travel actor)
        (promoted (scheduled travel) draft actor now db))
      (promoted-IsPointed (scheduled travel) draft actor now db found is_draft (cc (is_it, owner))
        p)

-- Only a Travel that is generated from the workday is written.
pub sent-workday :
    {workday actor : ℕ} {now : DateTime} {db sent : Store}
    → TravelOutcome workday actor now db sent
    → ((travel : Workday) → generated_travel db workday ≡ some travel → travel.id ≢ workday)
    → get_workday sent workday ≡ get_workday db workday
sent-workday left other = refl
sent-workday {workday} {actor} {now} {db} {sent} (cancels travel h) other =
    let e : (travel.id == workday) ≡ false = elim (Bool-cases (travel.id == workday)) [
      | inl t ↦ absurd (other travel h ((==_iff travel.id workday).0 t))
      | inr n ↦ n
    ] in
    SameRoster-workday
      (notify-SameRoster (cancelled_notices travel actor) (put_workday (cancelled travel) db))
      workday
    ∙ get_workday-put (cancelled travel) db workday
    ∙ rw e refl
sent-workday {workday} {actor} {now} {db} {sent} (sends travel draft h hd is_draft) other =
    let e : (travel.id == workday) ≡ false = elim (Bool-cases (travel.id == workday)) [
      | inl t ↦ absurd (other travel h ((==_iff travel.id workday).0 t))
      | inr n ↦ n
    ] in
    SameRoster-workday
      (notify-SameRoster (reinstated_notices travel actor)
        (promoted (scheduled travel) draft actor now db))
      workday
    ∙ get_workday-put (published_workday (scheduled travel) draft.id)
        (put_revision (published_revision draft actor now) db) workday
    ∙ (unfold put_revision get_workday in rw e refl)
