-- ===== src/Rostering/Publication/Outcome.antt =====
-- What a successful `_publish` of app/rostering/service.py has checked, and what it leaves.
use on_track_rostering.Prelude.{
  ℕ, Bool, String, filter, true, false, not, ◌&&◌, Option, none, some, List, [], ◌∷◌, ◌≡◌, ◌⊎◌, ◌↔◌,
  inl, inr, refl, subst, sym, arith, ap, opt_eq, ◌==◌, ==_iff,
}
use on_track_rostering.Enums.{RevisionState, is_draft}
use on_track_rostering.Errors.{ok, reject_if-eq-ok, ok-injective, >>=-eq-ok}
use on_track_rostering.Clock.{DateTime}
use on_track_rostering.ContractorAccess.{Zone}
use on_track_rostering.Rostering.Models.{Workday, WorkdayRevision}
use on_track_rostering.Rostering.Store.{
  Store, SameRoster, SameRoster-trans, get_workday, get_revision, assignments_of,
}
use on_track_rostering.Rostering.Conflicts.{RosterConflict}
use on_track_rostering.Rostering.Diff.{PublicationChange}
use on_track_rostering.Rostering.Drafts.Copy.{require, require-eq-ok}
use on_track_rostering.Rostering.Drafts.Immutable.{IsLocked}
use on_track_rostering.Rostering.Drafts.Same.{notify-SameRoster}
use on_track_rostering.Rostering.Publication.{decide_applications, after_publication, publish}
use on_track_rostering.Rostering.Publication.Checks.{
  PublishInput, publish_checks, publish_conflicts, is_empty, state_differs, published_revision,
  published_workday, changed_before_publishing, no_longer_current, already_published, base_changed,
  unresolved_conflicts, destination_conflicts_changed,
}
use on_track_rostering.Rostering.Publication.Crew.{record_all_worked, refresh_crew, is_on}
use on_track_rostering.Rostering.Publication.Sent.{
  TravelOutcome, publish_travel-TravelOutcome, record_all_worked-SameRoster,
  refresh_users-SameRoster,
}
use on_track_rostering.Rostering.Publication.Travel.{publish_travel}
use on_track_rostering.Rostering.Publication.Promotion.{promoted}

decide-SameRoster :
    (draft : WorkdayRevision) (now : DateTime) (db : Store)
    → SameRoster db (decide_applications draft now db)
unfolding decide_applications
decide-SameRoster draft now db = record {
  workdays = refl;
  revisions = refl;
  assignments = refl;
  next_id = omega arith;
}

refresh_crew-SameRoster :
    (zone : Zone) (draft actor : ℕ) (now : DateTime) (db : Store)
    → SameRoster db (refresh_crew zone draft actor now db)
unfolding refresh_crew
refresh_crew-SameRoster zone draft actor now db =
    refresh_users-SameRoster zone actor now
      (filter (is_on (assignments_of db draft) db.links) db.users) db

pub after_publication-SameRoster :
    (zone : Zone) (workday : Workday) (draft : WorkdayRevision)
    (travel : Option (Workday × WorkdayRevision)) (changes : List PublicationChange) (actor : ℕ)
    (now : DateTime) (db : Store)
    → SameRoster db (after_publication zone workday draft travel changes actor now db)
unfolding after_publication
after_publication-SameRoster zone workday draft travel changes actor now db =
    let worked = record_all_worked draft.id actor (assignments_of db draft.id) db in
    let decided_all = decide_applications draft now worked in
    SameRoster-trans (record_all_worked-SameRoster draft.id actor (assignments_of db draft.id) db) (
      SameRoster-trans (decide-SameRoster draft now worked) (
        SameRoster-trans (notify-SameRoster _ decided_all)
          (refresh_crew-SameRoster zone draft.id actor now _)))

-- What the checks of a publication have found.
pub record IsPublishable (state_of : List RosterConflict → String) (t : PublishInput) (db : Store)
    (workday : Workday) (draft : WorkdayRevision) : Type 0 where
  pub locked : IsLocked db t.workday_id t.draft_id t.expected_version workday draft
  pub same_base : draft.based_on_revision_id ≡ workday.current_published_revision_id
  pub agreed :
      (publish_conflicts db workday draft t.actor_user_id ≡ []) ⊎ (t.confirm_conflicts ≡ true)
  pub stable :
      (publish_conflicts db workday draft t.actor_user_id ≡ [])
      ⊎ ((t.require_stable_conflict_state ≡ false)
          ⊎ (state_differs t.reviewed_conflict_state
                (state_of (publish_conflicts db workday draft t.actor_user_id))
              ≡ false))

opt_eq-true : (a b : Option ℕ) → not (opt_eq a b) ≡ false → a ≡ b
opt_eq-true none none h = refl
opt_eq-true none (some y) h = cc
opt_eq-true (some x) none h = cc
opt_eq-true (some x) (some y) h = ground arith

no_conflict :
    (cs : List RosterConflict) (b : Bool)
    → (not (is_empty cs) && not b) ≡ false
    → (cs ≡ []) ⊎ (b ≡ true)
no_conflict [] b h = inl refl
no_conflict (c ∷ cs) true h = inr refl
no_conflict (c ∷ cs) false h = cc

no_change :
    (cs : List RosterConflict) (b c : Bool)
    → (not (is_empty cs) && b && c) ≡ false
    → (cs ≡ []) ⊎ ((b ≡ false) ⊎ (c ≡ false))
no_change [] b c h = inl refl
no_change (x ∷ cs) false c h = inr (inl refl)
no_change (x ∷ cs) true c h = inr (inr h)

opt_eq_refl : (o : Option ℕ) → opt_eq o o ≡ true
opt_eq_refl none = refl
opt_eq_refl (some n) = (==_iff n n).1 refl

no_conflict_back :
    (cs : List RosterConflict) (b : Bool)
    → (cs ≡ []) ⊎ (b ≡ true)
    → (not (is_empty cs) && not b) ≡ false
no_conflict_back [] b h = refl
no_conflict_back (c ∷ cs) true h = refl
no_conflict_back (c ∷ cs) false (inl h) = cc
no_conflict_back (c ∷ cs) false (inr h) = cc

no_change_back :
    (cs : List RosterConflict) (b c : Bool)
    → (cs ≡ []) ⊎ ((b ≡ false) ⊎ (c ≡ false))
    → (not (is_empty cs) && b && c) ≡ false
no_change_back [] b c h = refl
no_change_back (x ∷ cs) false c h = refl
no_change_back (x ∷ cs) true c (inl h) = cc
no_change_back (x ∷ cs) true c (inr (inl h)) = cc
no_change_back (x ∷ cs) true c (inr (inr h)) = h

draft_state : (s : RevisionState) → not (is_draft s) ≡ false → s ≡ RevisionState.draft
draft_state RevisionState.draft h = refl
draft_state RevisionState.published h = cc

pub publish_checks-IsPublishable :
    (state_of : List RosterConflict → String) (t : PublishInput) (db : Store) (workday : Workday)
    (draft : WorkdayRevision)
    → publish_checks state_of t db ≡ ok (workday, draft)
    → IsPublishable state_of t db workday draft
unfolding publish_checks
publish_checks-IsPublishable state_of t db workday draft h =
    let (w, found, r1) =
      >>=-eq-ok (require (get_workday db t.workday_id) changed_before_publishing) _ h in
    let (version, r2) =
      reject_if-eq-ok (not (w.lock_version == t.expected_version)) changed_before_publishing _ r1 in
    let (d, known, r3) = >>=-eq-ok (require (get_revision db t.draft_id) no_longer_current) _ r2 in
    let (current, r4) =
      reject_if-eq-ok (not (opt_eq w.current_draft_revision_id (some d.id))) no_longer_current _
        r3 in
    let (state, r5) = reject_if-eq-ok (not (is_draft d.state)) already_published _ r4 in
    let (base, r6) =
      reject_if-eq-ok (not (opt_eq d.based_on_revision_id w.current_published_revision_id))
        base_changed _ r5 in
    let conflicts = publish_conflicts db w d t.actor_user_id in
    let (confirmed, r7) =
      reject_if-eq-ok (not (is_empty conflicts) && not t.confirm_conflicts) unresolved_conflicts _
        r6 in
    let (reviewed, done) =
      reject_if-eq-ok
        (not (is_empty conflicts)
          && t.require_stable_conflict_state
          && state_differs t.reviewed_conflict_state (state_of conflicts))
        destination_conflicts_changed _ r7 in
    subst (λ (p : Workday × WorkdayRevision). IsPublishable state_of t db p.0 p.1)
      (ok-injective done)
      (record {
        locked = record {
          workday_found = require-eq-ok _ changed_before_publishing w found;
          same_version = ground arith;
          draft_found = require-eq-ok _ no_longer_current d known;
          is_current = opt_eq-true _ (some d.id) current;
          is_draft = draft_state d.state state;
        };
        same_base = opt_eq-true _ _ base;
        agreed = no_conflict conflicts t.confirm_conflicts confirmed;
        stable =
            no_change conflicts t.require_stable_conflict_state
              (state_differs t.reviewed_conflict_state (state_of conflicts)) reviewed;
      })

publish_checks_pass :
    (state_of : List RosterConflict → String) (t : PublishInput) (db : Store) (workday : Workday)
    (draft : WorkdayRevision)
    → IsPublishable state_of t db workday draft
    → publish_checks state_of t db ≡ ok (workday, draft)
unfolding publish_checks
publish_checks_pass state_of t db workday draft p =
    let l = p.locked in
    let version : (workday.lock_version == t.expected_version) ≡ true =
      (==_iff workday.lock_version t.expected_version).1 l.same_version in
    let confirmed =
      no_conflict_back (publish_conflicts db workday draft t.actor_user_id) t.confirm_conflicts
        p.agreed in
    let reviewed =
      no_change_back (publish_conflicts db workday draft t.actor_user_id)
        t.require_stable_conflict_state
        (state_differs t.reviewed_conflict_state
          (state_of (publish_conflicts db workday draft t.actor_user_id)))
        p.stable in
    let current : opt_eq workday.current_draft_revision_id (some draft.id) ≡ true =
      subst (λ o. opt_eq o (some draft.id) ≡ true) (sym l.is_current)
        (opt_eq_refl (some draft.id)) in
    let state : is_draft draft.state ≡ true =
      subst (λ o. is_draft o ≡ true) (sym l.is_draft) refl in
    let base : opt_eq draft.based_on_revision_id workday.current_published_revision_id ≡ true =
      subst (λ o. opt_eq o workday.current_published_revision_id ≡ true) (sym p.same_base)
        (opt_eq_refl workday.current_published_revision_id) in
    rw (l.workday_found, version, l.draft_found, current, state, base, confirmed, reviewed) refl

-- The checks of a publication pass exactly when the draft is the current draft of the workday at the
-- expected version, is based on the current publication, and either has no conflict, or its conflicts
-- are confirmed and, where the caller asks for it, are in the state that was reviewed.
pub publish_checks-ok_iff :
    (state_of : List RosterConflict → String) (t : PublishInput) (db : Store) (workday : Workday)
    (draft : WorkdayRevision)
    → (publish_checks state_of t db ≡ ok (workday, draft))
      ↔ IsPublishable state_of t db workday draft
publish_checks-ok_iff state_of t db workday draft = (
  publish_checks-IsPublishable state_of t db workday draft,
  publish_checks_pass state_of t db workday draft,
)

-- The parts of a successful publication.
pub record IsPublication (state_of : List RosterConflict → String) (t : PublishInput)
    (now : DateTime) (db after : Store) (revision : WorkdayRevision) : Type 0 where
  pub workday : Workday
  pub draft : WorkdayRevision
  pub checked : IsPublishable state_of t db workday draft
  pub sent : Store
  pub travels :
      TravelOutcome workday.id t.actor_user_id now
        (promoted workday draft t.actor_user_id now db)
        sent
  pub follows : SameRoster sent after
  pub result : revision ≡ published_revision draft t.actor_user_id now

pub publish-IsPublication :
    (zone : Zone) (state_of : List RosterConflict → String) (t : PublishInput) (now : DateTime)
    (db after : Store) (revision : WorkdayRevision)
    → publish zone state_of t now db ≡ ok (after, revision)
    → IsPublication state_of t now db after revision
unfolding publish
publish-IsPublication zone state_of t now db after revision h =
    let (checked, found, r1) = >>=-eq-ok (publish_checks state_of t db) _ h in
    let workday = checked.0 in
    let draft = checked.1 in
    let published = published_revision draft t.actor_user_id now in
    let current = published_workday workday draft.id in
    let (p, travelled, done) =
      >>=-eq-ok
        (publish_travel current published t.actor_user_id now
          (promoted workday draft t.actor_user_id now db))
        _ r1 in
    let same = ok-injective done in
    record {
      workday = workday;
      draft = draft;
      checked = publish_checks-IsPublishable state_of t db workday draft found;
      sent = p.0;
      travels =
          publish_travel-TravelOutcome current published t.actor_user_id now
            (promoted workday draft t.actor_user_id now db) p.0 p.1 travelled;
      follows =
          subst (λ (q : Store × WorkdayRevision). SameRoster p.0 q.0) same
            (after_publication-SameRoster zone current published p.1 _ t.actor_user_id now p.0);
      result = sym (ap (λ (q : Store × WorkdayRevision). q.1) same);
    }
