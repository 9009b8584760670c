-- ===== src/Examples/Openings.antt =====
-- An application for an open slot, and the eligibility of its applicant.
use on_track_rostering.Prelude.{
  ℕ, true, false, ◌≡◌, refl, none, some, [], ◌∷◌, Has, inl, String, is_none,
}
use on_track_rostering.Enums.{Role, Lifecycle, CapabilitySignal, is_scheduled, is_open_slot}
use on_track_rostering.Errors.{ok}
use on_track_rostering.Auth.Policy.{Actor, can_apply_for_open_position, roles_for}
use on_track_rostering.Positions.{allowed, eligibility_from_signals}
use on_track_rostering.Positions.Signals.{new_capability}
use on_track_rostering.Positions.Bulk.{Answer, answer_from, bulk_eligibility, eligibility}
use on_track_rostering.Positions.Bulk.Single.{bulk_eligibility-eligibility}
use on_track_rostering.OpenPositions.Apply.{
  applicant, open_slot, existing_application, new_application, add_application, apply_for_position,
}
use on_track_rostering.OpenPositions.Apply.Applied.{IsApplied, apply_for_position_applies}
use on_track_rostering.Rostering.Models.{Workday, Assignment, OpenPositionApplication, BasePosition}
use on_track_rostering.Rostering.Store.{Store, get_workday, get_position}
use on_track_rostering.Examples.Applications.{vacant, vacancy}

abbrev same_name : String → String
same_name name = name

abbrev side : BasePosition
side = record { id = 40; name = "Side"; lifecycle = Lifecycle.active }

abbrev employee : Actor
employee = record {
  user_id = 9;
  person_id = some 7;
  global_roles = [];
  regional_roles = (5, Role.employee ∷ []) ∷ [];
}

-- Person 7 is allowed on position 40, which is open on workday 11.
abbrev opening : Store
opening = record vacancy {
  applications = [];
  positions = side ∷ [];
  capabilities = new_capability 50 7 40 CapabilitySignal.manager_allow 90 none ∷ [];
}

abbrev first_application : OpenPositionApplication
first_application = new_application 100 (vacant 21 1) 7

abbrev applied : Store
applied = add_application first_application opening

applies : apply_for_position same_name opening employee 11 70 ≡ ok (applied, first_application)
unfolding apply_for_position get_workday can_apply_for_open_position roles_for open_slot
    existing_application eligibility answer_from eligibility_from_signals get_position
applies = refl

apply_for_position_applies_example :
    (w : Workday) × (slot : Assignment) × (person : ℕ) × (position : ℕ) × (get_workday opening 11
      ≡ some w)
    × (is_scheduled w.status ≡ true)
    × (applicant employee w.region_id ≡ some person)
    × (Has slot opening.assignments
        × (w.current_published_revision_id ≡ some slot.revision_id)
        × (slot.slot_key ≡ 70)
        × (is_open_slot slot.status ≡ true))
    × (slot.base_position_id ≡ some position)
    × ((eligibility same_name opening person position).0 ≡ true)
    × IsApplied opening applied slot person first_application
apply_for_position_applies_example =
    apply_for_position_applies same_name opening employee 11 70 applied first_application applies

abbrev own_answer : Answer
own_answer = record { person_id = 7; base_position_id = 40; answer = (true, allowed) }

asked : Has own_answer (bulk_eligibility same_name opening (7 ∷ 8 ∷ []) (40 ∷ []))
unfolding bulk_eligibility answer_from eligibility_from_signals get_position
asked = inl refl

bulk_eligibility-eligibility_example :
    Has own_answer.person_id (7 ∷ 8 ∷ [])
    × Has own_answer.base_position_id (40 ∷ [])
    × (is_none (get_position opening 40) ≡ false)
    × ((true, allowed) ≡ eligibility same_name opening 7 40)
bulk_eligibility-eligibility_example =
    bulk_eligibility-eligibility same_name opening (7 ∷ 8 ∷ []) (40 ∷ []) own_answer asked
