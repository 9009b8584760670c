-- ===== src/Rostering/Diff/Fields.antt =====
-- The attributes that `publication_diff` compares, each with its label.
use on_track_rostering.Prelude.{
  ℕ, Bool, true, false, Option, none, some, List, [], ◌∷◌, String, ◌==◌, ◌≡◌, refl, ==_iff,
}
use text.Mathlib.Text.{◌==◌ as str_eq}
use text.Mathlib.TextPositions.{eq_refl}
use on_track_rostering.Enums.{AssignmentStatus, TransportMode}
use on_track_rostering.Clock.{Date, Time}
use on_track_rostering.Rostering.Models.{WorkdayRevision, Assignment}

-- A value of an attribute. `None` is `absent`.
pub data Value : Type 0 where
  absent : Value
  words : String → Value
  number : ℕ → Value
  at_time : Time → Value
  on_date : Date → Value
  flag : Bool → Value
  status : AssignmentStatus → Value
  mode : TransportMode → Value

abbrev bool_eq : Bool → Bool → Bool
bool_eq true true = true
bool_eq false false = true
bool_eq _ _ = false

abbrev pub status_code : AssignmentStatus → ℕ
status_code AssignmentStatus.assigned = 0
status_code AssignmentStatus.open_slot = 1
status_code AssignmentStatus.tbc = 2
status_code AssignmentStatus.manager_action_required = 3

abbrev mode_code : TransportMode → ℕ
mode_code TransportMode.unassigned = 0
mode_code TransportMode.vehicle = 1
mode_code TransportMode.self_travel = 2
mode_code TransportMode.not_required = 3
mode_code TransportMode.custom = 4

-- `before == after`.
unfoldable pub value_eq : Value → Value → Bool
value_eq absent absent = true
value_eq (words a) (words b) = str_eq a b
value_eq (number a) (number b) = a == b
value_eq (at_time a) (at_time b) = a == b
value_eq (on_date a) (on_date b) = a == b
value_eq (flag a) (flag b) = bool_eq a b
value_eq (status a) (status b) = status_code a == status_code b
value_eq (mode a) (mode b) = mode_code a == mode_code b
value_eq _ _ = false

bool_eq_refl : (b : Bool) → bool_eq b b ≡ true
bool_eq_refl true = refl
bool_eq_refl false = refl

-- A value is equal to itself.
pub value_eq_refl : (v : Value) → value_eq v v ≡ true
unfolding value_eq
value_eq_refl absent = refl
value_eq_refl (words a) = eq_refl a
value_eq_refl (number a) = (==_iff a a).1 refl
value_eq_refl (at_time a) = (==_iff a a).1 refl
value_eq_refl (on_date a) = (==_iff a a).1 refl
value_eq_refl (flag a) = bool_eq_refl a
value_eq_refl (status a) = (==_iff (status_code a) (status_code a)).1 refl
value_eq_refl (mode a) = (==_iff (mode_code a) (mode_code a)).1 refl

abbrev pub status_value : AssignmentStatus → Value
status_value s = status s

abbrev opt_text : Option String → Value
opt_text none = absent
opt_text (some t) = words t

abbrev opt_number : Option ℕ → Value
opt_number none = absent
opt_number (some n) = number n

abbrev opt_time : Option Time → Value
opt_time none = absent
opt_time (some t) = at_time t

abbrev pub workday_fields : List (String × (WorkdayRevision → Value))
workday_fields =
    ("Date", λ r. on_date r.work_date)
    ∷ ("Title", λ r. words r.title)
    ∷ ("Track", λ r. words r.track_name_snapshot)
    ∷ ("Start", λ r. opt_time r.start_time)
    ∷ ("On-track time", λ r. opt_time r.on_track_time)
    ∷ ("Track travel", λ r. opt_number r.track_travel_minutes)
    ∷ ("First trial", λ r. opt_time r.first_trial_time)
    ∷ ("Last trial", λ r. opt_time r.last_trial_time)
    ∷ ("First race", λ r. opt_time r.first_race_time)
    ∷ ("Last race", λ r. opt_time r.last_race_time)
    ∷ ("Race count", λ r. opt_number r.race_count)
    ∷ ("Finish", λ r. opt_time r.end_time)
    ∷ ("Start origin", λ r. words r.start_origin)
    ∷ ("Finish destination", λ r. words r.finish_destination)
    ∷ ("Standard travel", λ r. flag r.standard_travel_enabled)
    ∷ ("Travel departure", λ r. opt_time r.travel_departure_time)
    ∷ ("Travel to hotel minutes", λ r. opt_number r.travel_to_hotel_minutes)
    ∷ ("Default hotel", λ r. words r.default_hotel)
    ∷ ("Default hotel address", λ r. words r.default_hotel_address_snapshot)
    ∷ ("Hotel to track minutes", λ r. opt_number r.hotel_to_track_minutes)
    ∷ ("Return travel minutes", λ r. opt_number r.return_travel_minutes)
    ∷ ("Pack-up minutes", λ r. number r.pack_up_minutes)
    ∷ ("Normal day notes", λ r. words r.day_note)
    ∷ []

abbrev pub assignment_fields : List (String × (Assignment → Value))
assignment_fields =
    ("Slot number", λ a. opt_number a.slot_index)
    ∷ ("Person", λ a. opt_text a.person_name_snapshot)
    ∷ ("Status", λ a. status a.status)
    ∷ ("Start", λ a. opt_time a.start_time)
    ∷ ("Finish", λ a. opt_time a.end_time)
    ∷ ("Assignment note", λ a. words a.note)
    ∷ ("Note visibility", λ a. flag a.note_private)
    ∷ ("Vehicle", λ a. opt_text a.vehicle_name_snapshot)
    ∷ ("Transport", λ a. mode a.transport_mode)
    ∷ ("Custom transport", λ a. words a.custom_transport_text)
    ∷ ("Accommodation", λ a. opt_text a.accommodation_name)
    ∷ ("Standard travel", λ a. flag a.uses_standard_travel)
    ∷ ("Hotel to track override", λ a. opt_number a.hotel_to_track_minutes_override)
    ∷ ("Finish destination override", λ a. opt_text a.finish_destination_override)
    ∷ ("Return travel override", λ a. opt_number a.return_travel_minutes_override)
    ∷ []
