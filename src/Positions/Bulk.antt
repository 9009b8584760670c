-- ===== src/Positions/Bulk.antt =====
-- app/positions/service.py: `bulk_eligibility`, which evaluates many pairs of a person and a position
-- from one query, and `eligibility`. The canonical key of a position's name (`canonical_position_identity`
-- of app/positions/canonical.py, over Unicode normalisation) is a parameter.
pub mod Single
use text.Mathlib.Text.{◌==◌ as str_eq}
use on_track_rostering.Prelude.{
  ℕ, Bool, true, false, ◌&&◌, ◌||◌, not, Option, none, some, List, [], ◌∷◌, ◌++◌, String, ◌==◌,
  opt_eq, ltb, any, filter, map, flat_map, is_none, length, if◌then◌else◌,
}
use on_track_rostering.Enums.{CapabilitySignal, is_assigned, is_scheduled}
use on_track_rostering.Positions.{Reason, signal_code, eligibility_from_signals}
use on_track_rostering.Rostering.Models.{Workday, Assignment, PositionCapability, BasePosition}
use on_track_rostering.Rostering.Store.{Store, get_position}

abbrev pub key_of : (String → String) → Store → ℕ → Option String
key_of canonical db position = elim (get_position db position) [
  | none ↦ none
  | some p ↦ some (canonical p.name)
]

abbrev pub same_identity : Option String → Option String → Bool
same_identity none b = false
same_identity (some a) none = false
same_identity (some a) (some b) = str_eq a b

abbrev pub is_worked : PositionCapability → Bool
is_worked c = signal_code c.signal == signal_code CapabilitySignal.worked

-- `requested_keys`: the position has the key of one that is asked for.
abbrev pub is_relevant : (String → String) → Store → List ℕ → ℕ → Bool
is_relevant canonical db positions position =
    any (λ q. same_identity (key_of canonical db position) (key_of canonical db q)) positions

abbrev pub is_among : List ℕ → ℕ → Bool
is_among ids id = any (λ i. i == id) ids

-- The rows of the one query for signals.
abbrev pub requested_rows : (String → String) → Store → List ℕ → List ℕ → List PositionCapability
requested_rows canonical db people positions =
    filter
      (λ c. is_among people c.person_id && is_relevant canonical db positions c.base_position_id)
      db.capabilities

-- The rows of one person and one key among them.
abbrev pub rows_for :
    (String → String) → Store → ℕ → ℕ → List PositionCapability → List PositionCapability
rows_for canonical db person position rows =
    filter
      (λ c.
        c.person_id == person
        && same_identity (key_of canonical db c.base_position_id) (key_of canonical db position))
      rows

-- Whether a workday counts for a person and a key: it is scheduled, and the person holds an assigned
-- row of a position of that key in its publication.
abbrev pub is_worked_day : (String → String) → Store → ℕ → ℕ → Workday → Bool
is_worked_day canonical db person position w =
    is_scheduled w.status
    && any
        (λ a.
          opt_eq w.current_published_revision_id (some a.revision_id)
          && opt_eq a.person_id (some person)
          && is_assigned a.status
          && (elim a.base_position_id [
            | none ↦ false
            | some own ↦ same_identity (key_of canonical db own) (key_of canonical db position)
          ]))
        db.assignments

abbrev pub worked_days : (String → String) → Store → ℕ → ℕ → ℕ
worked_days canonical db person position =
    length (filter (is_worked_day canonical db person position) db.workdays)

abbrev pub is_sourced : PositionCapability → Bool
is_sourced c = is_worked c && not (is_none c.source_revision_id)

abbrev pub is_legacy : PositionCapability → Bool
is_legacy c = is_worked c && is_none c.source_revision_id

-- The answer for one pair from the rows of the query. The worked days are counted only where some row
-- of the query is sourced.
unfoldable pub answer_from :
    (String → String) → Store → List PositionCapability → ℕ → ℕ → Bool × Reason
answer_from canonical db rows person position =
    let own = rows_for canonical db person position rows in
    eligibility_from_signals (map (λ c. c.signal) own)
      (any is_legacy own || any is_sourced rows && ltb 1 (worked_days canonical db person position))

-- A pair that is asked for, with its answer.
pub record Answer : Type 0 where
  pub person_id : ℕ
  pub base_position_id : ℕ
  pub answer : Bool × Reason

-- `bulk_eligibility`. A position that is not stored has no answer.
unfoldable pub bulk_eligibility : (String → String) → Store → List ℕ → List ℕ → List Answer
unfolding answer_from
bulk_eligibility canonical db people positions =
    let rows = requested_rows canonical db people positions in
    flat_map
      (λ p.
        map
          (λ q. record {
            person_id = p;
            base_position_id = q;
            answer = answer_from canonical db rows p q;
          })
          (filter (λ q. not (is_none (get_position db q))) positions))
      people

-- `eligibility`: the answer of the one pair, of a stored position.
unfoldable pub eligibility : (String → String) → Store → ℕ → ℕ → Bool × Reason
unfolding answer_from
eligibility canonical db person position =
    answer_from canonical db (requested_rows canonical db (person ∷ []) (position ∷ [])) person
      position
