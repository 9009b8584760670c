-- ===== src/Rostering/Drafts/Pointers.antt =====
-- The pointers of a workday of app/rostering/models.py: the published one leads to a publication of
-- the workday, the draft one to a draft of it.
use on_track_rostering.Prelude.{
  ℕ, ◌<◌, some, List, [], ◌∷◌, ◌++◌, ◌≡◌, ◌≢◌, ◌⊎◌, inl, inr, refl, sym, ◌∙◌, subst, arith, ap, Has,
  ◌==◌, ==_iff, find?, Bool-cases, false,
}
use on_track_rostering.Enums.{RevisionState}
use on_track_rostering.Rostering.Models.{Workday, WorkdayRevision}
use on_track_rostering.Rostering.Store.{
  Store, get_revision, set_workday, put_workday, put_revision, add_revision, SameRoster,
}
use on_track_rostering.Rostering.Store.Frames.{get_revision-put, get_revision-add}
use on_track_rostering.Rostering.Drafts.Fresh.{IsFresh, RevisionsBelow}

-- The revision of an identifier is one of the workday, in a state.
abbrev pub Refers : Store → ℕ → ℕ → RevisionState → Type 0
Refers db id workday state =
    (r : WorkdayRevision) × (get_revision db id ≡ some r)
    × (r.state ≡ state)
    × (r.workday_id ≡ workday)

pub record PointsOf (db : Store) (w : Workday) : Type 0 where
  pub published :
      (id : ℕ)
      → w.current_published_revision_id ≡ some id
      → Refers db id w.id RevisionState.published
  pub draft :
      (id : ℕ) → w.current_draft_revision_id ≡ some id → Refers db id w.id RevisionState.draft

abbrev pub IsPointed : Store → Type 0
IsPointed db = (w : Workday) → Has w db.workdays → PointsOf db w

-- References that stay valid keep the pointers.
pub PointsOf-map :
    {db after : Store} {w : Workday}
    → ((id : ℕ) (s : RevisionState) → Refers db id w.id s → Refers after id w.id s)
    → PointsOf db w
    → PointsOf after w
PointsOf-map f p = record {
  published = λ id h. f id RevisionState.published (p.published id h);
  draft = λ id h. f id RevisionState.draft (p.draft id h);
}

pub set_workday-Has :
    (w x : Workday) (ws : List Workday)
    → Has x (set_workday w ws)
    → (x ≡ w) ⊎ (Has x ws × (x.id ≢ w.id))
set_workday-Has w x (y ∷ ys) (inl e) = elim (Bool-cases (y.id == w.id)) [
  | inl h ↦ inl (ground arith)
  | inr h ↦ inr (inl (ground arith), λ p. ground arith)
]
set_workday-Has w x (y ∷ ys) (inr m) = elim (set_workday-Has w x ys m) [
  | inl e ↦ inl e
  | inr (h, n) ↦ inr (inr h, n)
]
set_workday-Has w x [] m = absurd m

-- A workday that is written with valid pointers.
pub put_workday-IsPointed :
    (w : Workday) (db : Store) → IsPointed db → PointsOf db w → IsPointed (put_workday w db)
unfolding put_workday get_revision
put_workday-IsPointed w db pointed own x m =
    let keep : (y : Workday) → PointsOf db y → PointsOf (put_workday w db) y =
      λ y p. PointsOf-map (λ id s r. r) p in
    elim (set_workday-Has w x db.workdays m) [
      | inl e ↦ subst (PointsOf (put_workday w db)) (sym e) (keep w own)
      | inr (h, _) ↦ keep x (pointed x h)
    ]

pub put_revision-Refers :
    (x draft : WorkdayRevision) (db : Store)
    → get_revision db x.id ≡ some draft
    → x.state ≡ draft.state
    → x.workday_id ≡ draft.workday_id
    → (id workday : ℕ) (s : RevisionState) → Refers db id workday s
    → Refers (put_revision x db) id workday s
put_revision-Refers x draft db found same_state same_workday id workday s (r, h, hs, hw) =
    elim (Bool-cases (x.id == id)) [
      | inl e ↦
          let same : x.id ≡ id = (==_iff x.id id).0 e in
          let is_it : r ≡ draft = cc (same, found, h) in
          (
            x,
            get_revision-put x db id ∙ rw (e, h) refl,
            same_state ∙ (cc (is_it, hs)),
            same_workday ∙ (cc (is_it, hw)),
          )
      | inr e ↦ (r, get_revision-put x db id ∙ rw e h, hs, hw)
    ]

-- A revision that is written over another one does not disturb what refers to other revisions.
pub put_revision-other :
    (x : WorkdayRevision) (db : Store) (id workday : ℕ) (s : RevisionState)
    → x.id ≢ id
    → Refers db id workday s
    → Refers (put_revision x db) id workday s
put_revision-other x db id workday s n (r, h, hs, hw) =
    let e : (x.id == id) ≡ false = ground arith in (r, get_revision-put x db id ∙ rw e h, hs, hw)

pub add_revision-Refers :
    (x : WorkdayRevision) (db : Store) (id workday : ℕ) (s : RevisionState)
    → Refers db id workday s
    → Refers (add_revision x db) id workday s
add_revision-Refers x db id workday s (r, h, hs, hw) = (r, get_revision-add x db id r h, hs, hw)

find?-new :
    (n : ℕ) (x : WorkdayRevision) (rs : List WorkdayRevision)
    → RevisionsBelow n rs
    → x.id ≡ n
    → find? (λ r. r.id == n) (rs ++ x ∷ []) ≡ some x
find?-new n x [] h e = ground arith
find?-new n x (r ∷ rs) h e = let below : r.id < n = h.0 in ground (arith, find?-new n x rs h.1 e)

-- A revision that is added under the next identifier is found there.
pub get_revision-new :
    (x : WorkdayRevision) (db : Store)
    → IsFresh db
    → x.id ≡ db.next_id
    → get_revision (add_revision x db) x.id ≡ some x
unfolding get_revision add_revision
get_revision-new x db fresh e =
    subst (λ n. find? (λ (r : WorkdayRevision). r.id == n) (db.revisions ++ x ∷ []) ≡ some x)
      (sym e) (find?-new db.next_id x db.revisions fresh.revisions e)

pub SameRoster-IsPointed : {db after : Store} → SameRoster db after → IsPointed db → IsPointed after
unfolding get_revision
SameRoster-IsPointed {db} {after} same pointed w m =
    PointsOf-map
      (λ id s (r, h, hs, hw).
        (r, ap (find? (λ (x : WorkdayRevision). x.id == id)) same.revisions ∙ h, hs, hw))
      (pointed w (subst (Has w) same.workdays m))

-- A revision that is appended under the next identifier, in any store that has it last.
module _ (db after : Store) (x : WorkdayRevision)
    (last : after.revisions ≡ db.revisions ++ x ∷ []) where
  pub Refers-appended :
      (id workday : ℕ) (s : RevisionState) → Refers db id workday s → Refers after id workday s
  unfolding get_revision
  Refers-appended id workday s (r, h, hs, hw) = (
    r,
    ap (find? (λ (y : WorkdayRevision). y.id == id)) last
        ∙ (unfold get_revision add_revision in get_revision-add x db id r h),
    hs,
    hw,
  )

  pub Refers-new : IsFresh db → x.id ≡ db.next_id → Refers after x.id x.workday_id x.state
  unfolding get_revision
  Refers-new fresh e = (
    x,
    ap (find? (λ (y : WorkdayRevision). y.id == x.id)) last
        ∙ (unfold get_revision add_revision in get_revision-new x db fresh e),
    refl,
    refl,
  )

  -- With it, one workday is written.
  pub appended-IsPointed :
      (w : Workday)
      → after.workdays ≡ set_workday w db.workdays
      → PointsOf after w
      → IsPointed db
      → IsPointed after
  appended-IsPointed w days own pointed y m =
      elim (set_workday-Has w y db.workdays (subst (Has y) days m)) [
        | inl e ↦ subst (PointsOf after) (sym e) own
        | inr (h, _) ↦ PointsOf-map (λ id s r. Refers-appended id y.id s r) (pointed y h)
      ]
