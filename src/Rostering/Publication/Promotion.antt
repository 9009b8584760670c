-- ===== src/Rostering/Publication/Promotion.antt =====
-- A draft that becomes a publication, and the workday that is pointed to it: the write that
-- `_publish` of app/rostering/service.py makes for the workday and for its generated Travel.
use on_track_rostering.Prelude.{ℕ, some, ◌≡◌, inl, inr, refl, sym, ◌∙◌, subst, ==_iff}
use on_track_rostering.Enums.{RevisionState}
use on_track_rostering.Clock.{DateTime}
use on_track_rostering.Rostering.Models.{Workday, WorkdayRevision}
use on_track_rostering.Rostering.Store.{
  Store, get_revision, assignments_of, put_workday, put_revision,
}
use on_track_rostering.Rostering.Store.Frames.{get_revision-put}
use on_track_rostering.Rostering.Drafts.Fresh.{IsFresh, get_revision-fresh, put_revision-IsFresh}
use on_track_rostering.Rostering.Drafts.Immutable.{KeepsPublished, put_revision-KeepsPublished}
use on_track_rostering.Rostering.Drafts.Pointers.{
  Refers, PointsOf, IsPointed, PointsOf-map, set_workday-Has, put_revision-other,
}
use on_track_rostering.Rostering.Publication.Checks.{published_revision, published_workday}

abbrev pub promoted : Workday → WorkdayRevision → ℕ → DateTime → Store → Store
promoted workday draft actor now db =
    put_workday (published_workday workday draft.id)
      (put_revision (published_revision draft actor now) db)

get_revision-put_workday :
    (w : Workday) (db : Store) (id : ℕ) → get_revision (put_workday w db) id ≡ get_revision db id
unfolding put_workday get_revision
get_revision-put_workday w db id = refl

Refers-put_workday :
    (w : Workday) (db : Store) (id n : ℕ) (s : RevisionState)
    → Refers db id n s
    → Refers (put_workday w db) id n s
Refers-put_workday w db id n s (r, h, hs, hw) = (r, get_revision-put_workday w db id ∙ h, hs, hw)

module _ (workday : Workday) (draft : WorkdayRevision) (actor : ℕ) (now : DateTime) (db : Store)
    (found : get_revision db draft.id ≡ some draft) where
  pub promoted-revision :
      get_revision (promoted workday draft actor now db) draft.id
      ≡ some (published_revision draft actor now)
  promoted-revision =
      get_revision-put_workday (published_workday workday draft.id)
        (put_revision (published_revision draft actor now) db) draft.id
      ∙ get_revision-put (published_revision draft actor now) db draft.id
      ∙ rw ((==_iff draft.id draft.id).1 refl, found) refl

  pub promoted-IsFresh : IsFresh db → IsFresh (promoted workday draft actor now db)
  promoted-IsFresh f =
      let inner =
        put_revision-IsFresh (published_revision draft actor now) db f
          (get_revision-fresh db draft.id draft f found) in
      unfold put_workday in record { revisions = inner.revisions; rows = inner.rows }

  pub promoted-KeepsPublished :
      draft.state ≡ RevisionState.draft → KeepsPublished db (promoted workday draft actor now db)
  promoted-KeepsPublished is_draft =
      unfold put_workday get_revision assignments_of in
      put_revision-KeepsPublished db draft.id draft (published_revision draft actor now) found
        is_draft refl

  -- The other workdays have their own revisions.
  pub promoted-IsPointed :
      draft.state ≡ RevisionState.draft
      → draft.workday_id ≡ workday.id
      → IsPointed db
      → IsPointed (promoted workday draft actor now db)
  promoted-IsPointed is_draft own pointed x m =
      elim (set_workday-Has (published_workday workday draft.id) x db.workdays
        (unfold put_workday put_revision in m)) [
          | inl e ↦ subst (PointsOf (promoted workday draft actor now db)) (sym e) (record {
            published = λ id h. (
              published_revision draft actor now,
              subst
                  (λ i.
                    get_revision (promoted workday draft actor now db) i
                    ≡ some (published_revision draft actor now))
                  (cc h) promoted-revision,
              refl,
              own,
            );
            draft = λ id h. cc h;
          })
          | inr (held, n) ↦
              PointsOf-map
                (λ id s r.
                  Refers-put_workday (published_workday workday draft.id)
                    (put_revision (published_revision draft actor now) db) id x.id s
                    (put_revision-other (published_revision draft actor now) db id x.id s
                      (λ same. n (elsewhere id s x.id same r)) r))
                (pointed x held)
        ]
    where
      elsewhere :
          (id : ℕ) (s : RevisionState) (n : ℕ) → draft.id ≡ id → Refers db id n s → n ≡ workday.id
      elsewhere id s n same (r, h, hs, hw) =
          let is_it : r ≡ draft = cc (h, found, same) in cc (is_it, hw, own)
