-- ===== src/Rostering/Diff/Unchanged.antt =====
-- A draft that has just been started shows no change.
use on_track_rostering.Prelude.{
  ℕ, suc, true, Option, none, some, List, [], ◌∷◌, String, ◌≡◌, refl, All, flat_map, ◌==◌, ==_iff,
  Bool-cases, ◌⊎◌, inl, inr, opt_eq,
}
use text.Mathlib.TextPositions.{eq_refl}
use on_track_rostering.Rostering.Models.{WorkdayRevision, Assignment, WorkdayEquipmentItem}
use on_track_rostering.Rostering.Store.{Store, assignments_of, numbered}
use on_track_rostering.Rostering.Drafts.Copy.{draft_from, copy_assignment, copy_equipment}
use on_track_rostering.Rostering.Diff.Fields.{
  Value, value_eq_refl, workday_fields, assignment_fields,
}
use on_track_rostering.Rostering.Diff.{
  revision_changes, row_changes, row_at, item_at, slot_changes, item_changes, assignment_changes,
  equipment_changes, publication_diff, equipment_of,
}

-- Attributes that agree on two revisions show no change, and so do those of two rows.
revision_changes-unchanged :
    (fields : List (String × (WorkdayRevision → Value))) (old new : WorkdayRevision)
    → All (λ (label, get). get old ≡ get new) fields
    → revision_changes fields old new ≡ []
revision_changes-unchanged [] old new same = refl
revision_changes-unchanged ((label, get) ∷ fields) old new (e, same) =
    rw (e, value_eq_refl (get new)) (revision_changes-unchanged fields old new same)

row_changes-unchanged :
    (fields : List (String × (Assignment → Value))) (key : ℕ) (old new : Assignment)
    → All (λ (label, get). get old ≡ get new) fields
    → row_changes fields key old new ≡ []
row_changes-unchanged [] key old new same = refl
row_changes-unchanged ((label, get) ∷ fields) key old new (e, same) =
    rw (e, value_eq_refl (get new)) (row_changes-unchanged fields key old new same)

opt_eq_refl : (o : Option ℕ) → opt_eq o o ≡ true
opt_eq_refl none = refl
opt_eq_refl (some n) = (==_iff n n).1 refl

slot_changes-copy :
    (key target n : ℕ) (a : Assignment)
    → slot_changes key (some a) (some (copy_assignment target n a)) ≡ []
unfolding slot_changes
slot_changes-copy key target n a =
    rw (opt_eq_refl a.base_position_id, eq_refl a.display_name_snapshot)
      (row_changes-unchanged assignment_fields key a (copy_assignment target n a) (
        refl,
        (
          refl,
          (
            refl,
            (
              refl,
              (
                refl,
                (refl, (refl, (refl, (refl, (refl, (refl, (refl, (refl, (refl, (refl, tt)))))))))),
              ),
            ),
          ),
        ),
      ))

-- A dictionary of copies holds the copy of what the dictionary of the rows holds.
row_at-numbered :
    (key target n : ℕ) (rows : List Assignment)
    → (row_at key rows ≡ none) × (row_at key (numbered (copy_assignment target) n rows) ≡ none)
      ⊎ ((a : Assignment) × (m : ℕ) × (row_at key rows ≡ some a)
          × (row_at key (numbered (copy_assignment target) n rows)
              ≡ some (copy_assignment target m a)))
row_at-numbered key target n [] = inl (refl, refl)
row_at-numbered key target n (x ∷ xs) = elim (row_at-numbered key target (suc n) xs) [
  | inr (a, m, e, f) ↦ inr (a, m, rw e refl, rw f refl)
  | inl (e, f) ↦ elim (Bool-cases (x.slot_key == key)) [
    | inl k ↦ inr (x, n, rw (e, k) refl, rw (f, k) refl)
    | inr k ↦ inl (rw (e, k) refl, rw (f, k) refl)
  ]
]

item_at-numbered :
    (key target n : ℕ) (rows : List WorkdayEquipmentItem)
    → (item_at key rows ≡ none) × (item_at key (numbered (copy_equipment target) n rows) ≡ none)
      ⊎ ((a : WorkdayEquipmentItem) × (m : ℕ) × (item_at key rows ≡ some a)
          × (item_at key (numbered (copy_equipment target) n rows)
              ≡ some (copy_equipment target m a)))
item_at-numbered key target n [] = inl (refl, refl)
item_at-numbered key target n (x ∷ xs) = elim (item_at-numbered key target (suc n) xs) [
  | inr (a, m, e, f) ↦ inr (a, m, rw e refl, rw f refl)
  | inl (e, f) ↦ elim (Bool-cases (x.item_key == key)) [
    | inl k ↦ inr (x, n, rw (e, k) refl, rw (f, k) refl)
    | inr k ↦ inl (rw (e, k) refl, rw (f, k) refl)
  ]
]

flat_map-nothing :
    {B : Type 0} (f : ℕ → List B) (keys : List ℕ) → ((k : ℕ) → f k ≡ []) → flat_map f keys ≡ []
flat_map-nothing f [] h = refl
flat_map-nothing f (k ∷ ks) h = rw (h k) (flat_map-nothing f ks h)

assignment_changes-copy :
    (target n : ℕ) (rows : List Assignment)
    → assignment_changes rows (numbered (copy_assignment target) n rows) ≡ []
unfolding assignment_changes
assignment_changes-copy target n rows =
    flat_map-nothing
      (λ x. slot_changes x (row_at x rows) (row_at x (numbered (copy_assignment target) n rows))) _
      λ key. elim (row_at-numbered key target n rows) [
        | inl (e, f) ↦ rw (e, f) (unfold slot_changes in refl)
        | inr (a, m, e, f) ↦ rw (e, f) (slot_changes-copy key target m a)
      ]

equipment_changes-copy :
    (target n : ℕ) (items : List WorkdayEquipmentItem)
    → equipment_changes items (numbered (copy_equipment target) n items) ≡ []
unfolding equipment_changes item_changes
equipment_changes-copy target n items =
    flat_map-nothing
      (λ x. item_changes (item_at x items) (item_at x (numbered (copy_equipment target) n items))) _
      λ key. elim (item_at-numbered key target n items) [
        | inl (e, f) ↦ rw (e, f) refl
        | inr (a, m, e, f) ↦
            rw (e, f, eq_refl a.name, eq_refl a.notes, (==_iff a.quantity a.quantity).1 refl) refl
      ]

-- A draft that has the values of its publication, with a copy of each of its assignments and
-- equipment items, shows no change.
pub publication_diff-unchanged :
    (db : Store) (workday : ℕ) (previous : WorkdayRevision) (id actor n m : ℕ)
    → assignments_of db id ≡ numbered (copy_assignment id) n (assignments_of db previous.id)
    → equipment_of db id ≡ numbered (copy_equipment id) m (equipment_of db previous.id)
    → publication_diff db (some previous) (draft_from workday previous id actor) ≡ []
unfolding publication_diff
publication_diff-unchanged db workday previous id actor n m rows items =
    rw
      (
        rows,
        items,
        revision_changes-unchanged workday_fields previous (draft_from workday previous id actor) (
          refl,
          (
            refl,
            (
              refl,
              (
                refl,
                (
                  refl,
                  (
                    refl,
                    (
                      refl,
                      (
                        refl,
                        (
                          refl,
                          (
                            refl,
                            (
                              refl,
                              (
                                refl,
                                (
                                  refl,
                                  (
                                    refl,
                                    (
                                      refl,
                                      (
                                        refl,
                                        (refl, (refl, (refl, (refl, (refl, (refl, (refl, tt))))))),
                                      ),
                                    ),
                                  ),
                                ),
                              ),
                            ),
                          ),
                        ),
                      ),
                    ),
                  ),
                ),
              ),
            ),
          ),
        ),
        assignment_changes-copy id n (assignments_of db previous.id),
        equipment_changes-copy id m (equipment_of db previous.id),
      )
      refl
