-- ===== src/Rostering/Diff.antt =====
-- app/rostering/diff.py: the changes that a publication would make visible. A change is kept as its
-- category, its label, the two values and its slot; the summary text follows from these.
pub mod Fields
pub mod Unchanged
pub mod Reported
use on_track_rostering.Prelude.{
  ℕ, Bool, true, false, ◌&&◌, ◌||◌, not, Option, none, some, List, [], ◌∷◌, ◌++◌, String, ◌==◌, leb,
  any, filter, map, flat_map, sort_by, get_or, is_some, opt_eq, if◌then◌else◌,
}
use text.Mathlib.Text.{◌==◌ as str_eq}
use on_track_rostering.Rostering.Models.{WorkdayRevision, Assignment, WorkdayEquipmentItem}
use on_track_rostering.Rostering.Store.{Store, assignments_of}
use on_track_rostering.Rostering.Diff.Fields.{
  Value, value_eq, absent, number, words, workday_fields, assignment_fields, status_value,
}

pub data Category : Type 0 where
  publication workday assignment equipment : Category

-- What a change is called: a plain label, or a role with a label.
pub data Label : Type 0 where
  plain : String → Label
  role : String → Label
  of_role : (role label : String) → Label

pub record PublicationChange : Type 0 where
  pub category : Category
  pub label : Label
  pub before : Value
  pub after : Value
  pub slot_key : Option ℕ
  pub sensitive : Bool

-- `_field_change`.
abbrev pub field_change : String → Value → Value → PublicationChange
field_change label before after = record {
  category = workday;
  label = plain label;
  before = before;
  after = after;
  slot_key = none;
  sensitive = str_eq label "Normal day notes";
}

abbrev pub first_publication : WorkdayRevision → PublicationChange
first_publication draft = record {
  category = publication;
  label = plain "First publication";
  before = absent;
  after = number draft.revision_number;
  slot_key = none;
  sensitive = false;
}

-- The loop over the attributes of the two revisions.
abbrev pub revision_changes :
    List (String × (WorkdayRevision → Value))
    → WorkdayRevision
    → WorkdayRevision
    → List PublicationChange
revision_changes [] old new = []
revision_changes ((label, get) ∷ fields) old new =
    let rest = revision_changes fields old new in
    if value_eq (get old) (get new) then rest else field_change label (get old) (get new) ∷ rest

-- `{row.slot_key: row for row in rows}.get(key)`: of rows with one key the last counts.
abbrev pub row_at : ℕ → List Assignment → Option Assignment
row_at key [] = none
row_at key (a ∷ rows) =
    let later = row_at key rows in
    elim later [ some b ↦ some b | none ↦ if a.slot_key == key then some a else none ]

abbrev pub item_at : ℕ → List WorkdayEquipmentItem → Option WorkdayEquipmentItem
item_at key [] = none
item_at key (a ∷ rows) =
    let later = item_at key rows in
    elim later [ some b ↦ some b | none ↦ if a.item_key == key then some a else none ]

-- The keys of two dictionaries in one order, each once.
abbrev pub distinct : List ℕ → List ℕ
distinct [] = []
distinct (k ∷ ks) = let rest = distinct ks in if any (λ j. j == k) ks then rest else k ∷ rest

abbrev pub ordered_keys : List ℕ → List ℕ
ordered_keys keys = sort_by leb (distinct keys)

-- `row.person_name_snapshot or row.status`.
abbrev pub shown_as : Assignment → Value
shown_as a = elim a.person_name_snapshot [
  | none ↦ status_value a.status
  | some name ↦ if str_eq name "" then status_value a.status else words name
]

abbrev pub assignment_change : Label → Value → Value → ℕ → Bool → PublicationChange
assignment_change label before after slot_key sensitive = record {
  category = assignment;
  label = label;
  before = before;
  after = after;
  slot_key = some slot_key;
  sensitive = sensitive;
}

-- `new.display_name_snapshot or old.display_name_snapshot`.
abbrev pub role_of : Assignment → Assignment → String
role_of old new =
    if str_eq new.display_name_snapshot ""
    then old.display_name_snapshot
    else new.display_name_snapshot

-- The label of a changed attribute, and whether its values are private.
abbrev pub attribute_label : String → String → Label
attribute_label name label =
    if str_eq label "Person" || str_eq label "Status"
    then role name
    else if str_eq label "Assignment note"
    then of_role name "note"
    else if str_eq label "Note visibility"
    then of_role name "note visibility"
    else of_role name label

abbrev pub attribute_sensitive : String → Assignment → Assignment → Bool
attribute_sensitive label old new =
    str_eq label "Assignment note" && (old.note_private || new.note_private)

-- The loop over the attributes of two rows of one slot.
abbrev pub row_changes :
    List (String × (Assignment → Value)) → ℕ → Assignment → Assignment → List PublicationChange
row_changes [] key old new = []
row_changes ((label, get) ∷ fields) key old new =
    let rest = row_changes fields key old new in
    if value_eq (get old) (get new)
    then rest
    else assignment_change (attribute_label (role_of old new) label) (get old) (get new) key
        (attribute_sensitive label old new)
      ∷ rest

abbrev pub position_changed : Assignment → Assignment → Bool
position_changed old new =
    not (opt_eq old.base_position_id new.base_position_id)
    || not (str_eq old.display_name_snapshot new.display_name_snapshot)

abbrev pub position_change : ℕ → Assignment → Assignment → List PublicationChange
position_change key old new =
    if position_changed old new
    then assignment_change (plain "Position") (words old.display_name_snapshot)
        (words new.display_name_snapshot) key false
      ∷ []
    else []

-- The changes of one slot.
unfoldable pub slot_changes : ℕ → Option Assignment → Option Assignment → List PublicationChange
slot_changes key none none = []
slot_changes key none (some new) =
    assignment_change (role new.display_name_snapshot) absent (shown_as new) key false ∷ []
slot_changes key (some old) none =
    assignment_change (role old.display_name_snapshot) (shown_as old) absent key false ∷ []
slot_changes key (some old) (some new) =
    position_change key old new ++ row_changes assignment_fields key old new

abbrev pub equipment_change : Value → Value → PublicationChange
equipment_change before after = record {
  category = equipment;
  label = plain "IV equipment";
  before = before;
  after = after;
  slot_key = none;
  sensitive = false;
}

abbrev pub item_eq : WorkdayEquipmentItem → WorkdayEquipmentItem → Bool
item_eq a b = str_eq a.name b.name && a.quantity == b.quantity && str_eq a.notes b.notes

unfoldable pub item_changes :
    Option WorkdayEquipmentItem → Option WorkdayEquipmentItem → List PublicationChange
item_changes none none = []
item_changes none (some new) = equipment_change absent (words new.name) ∷ []
item_changes (some old) none = equipment_change (words old.name) absent ∷ []
item_changes (some old) (some new) =
    if item_eq old new then [] else equipment_change (words old.name) (words new.name) ∷ []

abbrev pub equipment_of : Store → ℕ → List WorkdayEquipmentItem
equipment_of db id = filter (λ (r : WorkdayEquipmentItem). r.revision_id == id) db.equipment

unfoldable pub assignment_changes : List Assignment → List Assignment → List PublicationChange
assignment_changes old_rows new_rows =
    flat_map (λ key. slot_changes key (row_at key old_rows) (row_at key new_rows))
      (ordered_keys (map (λ a. a.slot_key) old_rows ++ map (λ a. a.slot_key) new_rows))

unfoldable pub equipment_changes :
    List WorkdayEquipmentItem → List WorkdayEquipmentItem → List PublicationChange
equipment_changes old_items new_items =
    flat_map (λ key. item_changes (item_at key old_items) (item_at key new_items))
      (ordered_keys (map (λ a. a.item_key) old_items ++ map (λ a. a.item_key) new_items))

unfoldable pub publication_diff :
    Store → Option WorkdayRevision → WorkdayRevision → List PublicationChange
publication_diff db none draft =
    first_publication draft
    ∷ (assignment_changes [] (assignments_of db draft.id)
        ++ equipment_changes [] (equipment_of db draft.id))
publication_diff db (some previous) draft =
    revision_changes workday_fields previous draft
    ++ (assignment_changes (assignments_of db previous.id) (assignments_of db draft.id)
        ++ equipment_changes (equipment_of db previous.id) (equipment_of db draft.id))
