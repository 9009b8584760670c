-- ===== src/Participation/Active.antt =====
-- Which assignments still count as published participation.
use on_track_rostering.Prelude.{
  ℕ, true, false, Option, none, some, List, [], ◌≡◌, ◌↔◌, refl, sym, ap, subst, ◌⊎◌, inl, inr, Has,
  opt_eq, Bool-cases, Option-cases, filter-Has, Has-filter, is_none,
}
use on_track_rostering.Enums.{WorkdayStatus, is_scheduled}
use on_track_rostering.Rostering.Models.{Workday, WorkdayRevision, Assignment}
use on_track_rostering.Rostering.Store.{Store, get_workday, get_optional}
use on_track_rostering.Participation.Travellers.{
  IsCandidate, IsTraveller, IsWithoutOptOut, is_scheduled-status, opt_eq-some, opt_eq_refl,
  is_travel_candidate-IsCandidate, IsCandidate-is_travel_candidate, is_participant-IsTraveller,
  IsTraveller-is_participant, is_opted_out-IsWithoutOptOut, IsWithoutOptOut-is_opted_out,
}
use on_track_rostering.Participation.{
  is_travel_candidate, is_participant, is_opted_out, travels_with, active_under, active_of,
  active_published_assignments,
}

-- The parent of a generated Travel is scheduled and published, and the row has a person with an
-- assigned row among those given and, in the parent's publication, an assigned row that uses the
-- standard travel, and without an entry that opts out of the parent's travel.
pub record TravelsWith (db : Store) (rows : List Assignment) (parent_id : ℕ) (row : Assignment)
    : Type 0 where
  pub parent : Workday
  pub revision : ℕ
  pub person : ℕ
  pub parent_found : get_workday db parent_id ≡ some parent
  pub parent_scheduled : parent.status ≡ WorkdayStatus.scheduled
  pub parent_published : parent.current_published_revision_id ≡ some revision
  pub held : row.person_id ≡ some person
  pub candidate : IsCandidate rows person
  pub participant : IsTraveller db revision person
  pub stays : IsWithoutOptOut db parent.id person

-- An assignment counts if its revision is the current publication of the workday and, on a
-- generated Travel, the workday is scheduled and the person travels with its parent.
abbrev pub IsActive : Store → Workday → WorkdayRevision → List Assignment → Assignment → Type 0
IsActive db workday revision rows row =
    Has row rows
    × (workday.current_published_revision_id ≡ some revision.id)
    × ((workday.generated_from_workday_id ≡ none)
        ⊎ ((parent : ℕ) × (workday.generated_from_workday_id ≡ some parent)
            × (workday.status ≡ WorkdayStatus.scheduled)
            × TravelsWith db rows parent row))

travels_with-true :
    (db : Store) (rows : List Assignment) (parent revision : ℕ) (o : Option ℕ)
    → travels_with db rows parent revision o ≡ true
    → (person : ℕ) × (o ≡ some person)
      × (is_travel_candidate rows person ≡ true)
      × (is_participant db revision person ≡ true)
      × (is_opted_out db parent person ≡ false)
travels_with-true db rows parent revision none h = cc
travels_with-true db rows parent revision (some person) h =
    elim (Bool-cases (is_travel_candidate rows person)) [
      | inr c ↦ cc (rw c at h)
      | inl c ↦ elim (Bool-cases (is_participant db revision person)) [
        | inr p ↦ cc (rw (c, p) at h)
        | inl p ↦ elim (Bool-cases (is_opted_out db parent person)) [
          | inl o ↦ cc (rw (c, p, o) at h)
          | inr o ↦ (person, refl, c, p, o)
        ]
      ]
    ]

active_under-Has :
    (db : Store) (rows : List Assignment) (parent : Workday) (o : Option ℕ) (row : Assignment)
    → Has row (active_under db rows parent o)
    → Has row rows
      × (is_scheduled parent.status ≡ true)
      × ((revision : ℕ) × (o ≡ some revision)
          × (travels_with db rows parent.id revision row.person_id ≡ true))
active_under-Has db rows parent none row m = absurd m
active_under-Has db rows parent (some revision) row m =
    elim (Bool-cases (is_scheduled parent.status)) [
      | inr e ↦ absurd (rw e at m)
      | inl e ↦
          let (held, test) =
            filter-Has (λ (a : Assignment). travels_with db rows parent.id revision a.person_id) row
              rows (rw e at m) in
          (held, e, (revision, refl, test))
    ]

active_of-Has :
    (db : Store) (rows : List Assignment) (id : ℕ) (o : Option Workday) (row : Assignment)
    → get_workday db id ≡ o
    → Has row (active_of db rows o)
    → Has row rows × TravelsWith db rows id row
active_of-Has db rows id none row h m = absurd m
active_of-Has db rows id (some parent) row h m =
    let (held, scheduled, (revision, published, test)) =
      active_under-Has db rows parent parent.current_published_revision_id row m in
    let (person, of_row, candidate, participant, stays) =
      travels_with-true db rows parent.id revision row.person_id test in
    (
      held,
      record {
        parent = parent;
        revision = revision;
        person = person;
        parent_found = h;
        parent_scheduled = is_scheduled-status parent.status scheduled;
        parent_published = published;
        held = of_row;
        candidate = is_travel_candidate-IsCandidate rows person candidate;
        participant = is_participant-IsTraveller db revision person participant;
        stays = is_opted_out-IsWithoutOptOut db parent.id person stays;
      },
    )

Has-active_of :
    (db : Store) (rows : List Assignment) (id : ℕ) (row : Assignment)
    → Has row rows
    → TravelsWith db rows id row
    → Has row (active_of db rows (get_workday db id))
Has-active_of db rows id row m t =
    let candidate = IsCandidate-is_travel_candidate rows t.person t.candidate in
    let participant = IsTraveller-is_participant db t.revision t.person t.participant in
    let stays = IsWithoutOptOut-is_opted_out db t.parent.id t.person t.stays in
    let scheduled : is_scheduled t.parent.status ≡ true = ap is_scheduled t.parent_scheduled in
    rw (t.parent_found) (
      subst (λ o. Has row (active_under db rows t.parent o)) (sym t.parent_published)
        (rw scheduled (
          Has-filter (λ (a : Assignment). travels_with db rows t.parent.id t.revision a.person_id)
            row rows m
            (subst (λ o. travels_with db rows t.parent.id t.revision o ≡ true) (sym t.held)
              (rw (candidate, participant, stays) refl)))))

module _ (db : Store) (workday : Workday) (revision : WorkdayRevision) (rows : List Assignment)
    (row : Assignment) where
  own_rows :
      opt_eq workday.current_published_revision_id (some revision.id) ≡ true
      → workday.generated_from_workday_id ≡ none
      → active_published_assignments db workday revision rows ≡ rows
  unfolding active_published_assignments
  own_rows e n =
      let test : is_none workday.generated_from_workday_id ≡ true =
        subst (λ o. is_none o ≡ true) (sym n) refl in
      rw (e, test) refl

  no_rows :
      opt_eq workday.current_published_revision_id (some revision.id) ≡ true
      → (parent : ℕ) → workday.generated_from_workday_id ≡ some parent
      → is_scheduled workday.status ≡ false
      → active_published_assignments db workday revision rows ≡ []
  unfolding active_published_assignments
  no_rows e parent n s =
      let test : is_none workday.generated_from_workday_id ≡ false =
        subst (λ o. is_none o ≡ false) (sym n) refl in
      rw (e, test, s) refl

  travel_rows :
      opt_eq workday.current_published_revision_id (some revision.id) ≡ true
      → (parent : ℕ) → workday.generated_from_workday_id ≡ some parent
      → is_scheduled workday.status ≡ true
      → active_published_assignments db workday revision rows
        ≡ active_of db rows (get_workday db parent)
  unfolding active_published_assignments
  travel_rows e parent n s =
      let test : is_none workday.generated_from_workday_id ≡ false =
        subst (λ o. is_none o ≡ false) (sym n) refl in
      rw (e, test, s) (ap (λ o. active_of db rows (get_optional (get_workday db) o)) n)

  sound :
      Has row (active_published_assignments db workday revision rows)
      → IsActive db workday revision rows row
  unfolding active_published_assignments
  sound m = elim (Bool-cases (opt_eq workday.current_published_revision_id (some revision.id))) [
    | inr e ↦ absurd (rw e at m)
    | inl e ↦
        let current = opt_eq-some workday.current_published_revision_id revision.id e in
        elim (Option-cases workday.generated_from_workday_id) [
          | inl n ↦ (subst (Has row) (own_rows e n) m, current, inl n)
          | inr (parent, n) ↦ elim (Bool-cases (is_scheduled workday.status)) [
            | inr s ↦ absurd (subst (Has row) (no_rows e parent n s) m)
            | inl s ↦
                let (held, travels) =
                  active_of-Has db rows parent (get_workday db parent) row refl
                    (subst (Has row) (travel_rows e parent n s) m) in
                (held, current, inr (parent, n, is_scheduled-status workday.status s, travels))
          ]
        ]
  ]

  complete :
      IsActive db workday revision rows row
      → Has row (active_published_assignments db workday revision rows)
  complete (m, current, inl n) =
      subst (Has row)
        (sym (own_rows (opt_eq_refl workday.current_published_revision_id revision.id current) n)) m
  complete (m, current, inr (parent, n, s, travels)) =
      subst (Has row)
        (sym (
          travel_rows (opt_eq_refl workday.current_published_revision_id revision.id current) parent
            n (ap is_scheduled s)))
        (Has-active_of db rows parent row m travels)

-- An assignment is among the active ones of a workday exactly when it is one of the given rows, the
-- revision is the current publication of the workday, and, on a generated Travel, the workday and
-- its parent are scheduled, the parent is published, and the row's person holds an assigned row
-- among those given and, in the parent's publication, an assigned row that uses the standard travel,
-- and has no entry that opts out of the parent's travel.
pub active_published_assignments_iff :
    (db : Store) (workday : Workday) (revision : WorkdayRevision) (rows : List Assignment)
    (row : Assignment)
    → Has row (active_published_assignments db workday revision rows)
      ↔ IsActive db workday revision rows row
active_published_assignments_iff db workday revision rows row =
    (sound db workday revision rows row, complete db workday revision rows row)
