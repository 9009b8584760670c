-- ===== src/Rostering/Diff/Reported.antt =====
-- No change of a slot is left out.
use on_track_rostering.Prelude.{
  ℕ, true, false, Option, none, some, List, [], ◌∷◌, ◌++◌, String, ◌≡◌, ◌⊎◌, inl, inr, refl, arith,
  Has, any, map, ◌==◌, ==_iff, leb, Bool-cases, Option-cases, Has-append_left, Has-append_right,
  Has-flat_map, Has-sort_by, any→Has,
}
use on_track_rostering.Rostering.Models.{WorkdayRevision, Assignment}
use on_track_rostering.Rostering.Store.{Store, assignments_of}
use on_track_rostering.Rostering.Diff.Fields.{Value, value_eq, workday_fields, assignment_fields}
use on_track_rostering.Rostering.Diff.{
  PublicationChange, assignment, assignment_change, attribute_label, attribute_sensitive, role_of,
  distinct, ordered_keys, row_at, row_changes, position_changed, position_change, slot_changes,
  assignment_changes, equipment_changes, equipment_of, revision_changes, publication_diff,
}

-- A slot that differs: it is added or removed, or its position or a compared attribute changes.
abbrev pub IsChangedSlot : Option Assignment → Option Assignment → Type 0
IsChangedSlot none none = ⊥
IsChangedSlot none (some b) = Unit
IsChangedSlot (some a) none = Unit
IsChangedSlot (some a) (some b) =
    (position_changed a b ≡ true)
    ⊎ ((f : String × (Assignment → Value)) × Has f assignment_fields
        × (value_eq (f.1 a) (f.1 b) ≡ false))

-- Some change of the list is of the slot.
abbrev pub IsReportedSlot : ℕ → List PublicationChange → Type 0
IsReportedSlot key cs =
    (c : PublicationChange) × Has c cs × (c.category ≡ assignment) × (c.slot_key ≡ some key)

row_changes-reports :
    (fields : List (String × (Assignment → Value))) (key : ℕ) (a b : Assignment)
    (f : String × (Assignment → Value))
    → Has f fields
    → value_eq (f.1 a) (f.1 b) ≡ false
    → IsReportedSlot key (row_changes fields key a b)
row_changes-reports ((l, g) ∷ fields) key a b f (inl e) h =
    let same : value_eq (g a) (g b) ≡ false = rw e at h in
    rw same (
      assignment_change (attribute_label (role_of a b) l) (g a) (g b) key
          (attribute_sensitive l a b),
      inl refl,
      refl,
      refl,
    )
row_changes-reports ((l, g) ∷ fields) key a b f (inr m) h =
    let (c, held, cat, slot) = row_changes-reports fields key a b f m h in
    elim (Bool-cases (value_eq (g a) (g b))) [
      | inl e ↦ rw e (c, held, cat, slot)
      | inr e ↦ rw e (c, inr held, cat, slot)
    ]
row_changes-reports [] key a b f m h = absurd m

slot_changes-reports :
    (key : ℕ) (old new : Option Assignment)
    → IsChangedSlot old new
    → IsReportedSlot key (slot_changes key old new)
unfolding slot_changes
slot_changes-reports key none none h = absurd h
slot_changes-reports key none (some b) h = (_, inl refl, refl, refl)
slot_changes-reports key (some a) none h = (_, inl refl, refl, refl)
slot_changes-reports key (some a) (some b) (inl p) = rw p (_, inl refl, refl, refl)
slot_changes-reports key (some a) (some b) (inr (f, m, h)) =
    let (c, held, cat, slot) = row_changes-reports assignment_fields key a b f m h in
    (
      c,
      Has-append_right c (position_change key a b) (row_changes assignment_fields key a b) held,
      cat,
      slot,
    )

Has-distinct : (k : ℕ) (keys : List ℕ) → Has k keys → Has k (distinct keys)
Has-distinct k (x ∷ xs) (inl e) = elim (Bool-cases (any (λ j. j == x) xs)) [
  | inl h ↦
      let (a, m, t) = any→Has (λ j. j == x) xs h in
      rw h (Has-distinct k xs (rw (e, ← (==_iff a x).0 t) m))
  | inr h ↦ rw h (inl e)
]
Has-distinct k (x ∷ xs) (inr m) = elim (Bool-cases (any (λ j. j == x) xs)) [
  | inl h ↦ rw h (Has-distinct k xs m)
  | inr h ↦ rw h (inr (Has-distinct k xs m))
]
Has-distinct k [] m = absurd m

row_at-Has :
    (key : ℕ) (rows : List Assignment) (a : Assignment)
    → row_at key rows ≡ some a
    → Has key (map (λ (x : Assignment). x.slot_key) rows)
row_at-Has key (x ∷ xs) a h = elim (Option-cases (row_at key xs)) [
  | inr (b, e) ↦ inr (row_at-Has key xs b e)
  | inl e ↦ elim (Bool-cases (x.slot_key == key)) [
    | inl k ↦ inl (ground arith)
    | inr k ↦ ground arith
  ]
]
row_at-Has key [] a h = cc

-- The keys of the two lists hold the key of a slot that differs.
changed-Has :
    (key : ℕ) (old new : List Assignment)
    → IsChangedSlot (row_at key old) (row_at key new)
    → Has key (map (λ (x : Assignment). x.slot_key) old ++ map (λ (x : Assignment). x.slot_key) new)
changed-Has key old new h = elim (Option-cases (row_at key old)) [
  | inr (a, e) ↦ Has-append_left key _ _ (row_at-Has key old a e)
  | inl e ↦ elim (Option-cases (row_at key new)) [
    | inr (b, f) ↦ Has-append_right key _ _ (row_at-Has key new b f)
    | inl f ↦ absurd (rw (e, f) at h)
  ]
]

-- A slot of a draft whose assignment is added, removed, or differs from the publication's in its
-- position or in a compared attribute, has a change among those of the publication.
pub publication_diff-reports :
    (db : Store) (previous draft : WorkdayRevision) (key : ℕ)
    → IsChangedSlot
        (row_at key (assignments_of db previous.id))
        (row_at key (assignments_of db draft.id))
    → IsReportedSlot key (publication_diff db (some previous) draft)
unfolding publication_diff assignment_changes
publication_diff-reports db previous draft key h =
    let old = assignments_of db previous.id in
    let new = assignments_of db draft.id in
    let keys =
      map (λ (x : Assignment). x.slot_key) old ++ map (λ (x : Assignment). x.slot_key) new in
    let (c, held, cat, slot) = slot_changes-reports key (row_at key old) (row_at key new) h in
    (
      c,
      Has-append_right c (revision_changes workday_fields previous draft) _ (
          Has-append_left c (assignment_changes old new)
            (equipment_changes (equipment_of db previous.id) (equipment_of db draft.id))
            (Has-flat_map (λ k. slot_changes k (row_at k old) (row_at k new)) key c
              (ordered_keys keys)
              (Has-sort_by leb key (distinct keys)
                (Has-distinct key keys (changed-Has key old new h)))
              held)),
      cat,
      slot,
    )
