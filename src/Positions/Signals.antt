-- ===== src/Positions/Signals.antt =====
-- app/positions/service.py: the writes of capability signals. Of `infer_worked_capability` this is
-- what it records; its answer, by canonical position names, is not used by a publication.
use on_track_rostering.Prelude.{
  ℕ, suc, Bool, ◌&&◌, not, Option, none, some, List, [], ◌∷◌, ◌++◌, ◌==◌, any, filter, is_none,
  if◌then◌else◌,
}
use on_track_rostering.Enums.{CapabilitySignal}
use on_track_rostering.Errors.{Error, Result, ok, value_error, ◌>>◌, reject_if}
use on_track_rostering.Rostering.Models.{PositionCapability}
use on_track_rostering.Rostering.Store.{Store, get_position}
use on_track_rostering.Positions.{signal_code, has_signal}

abbrev pub signal_eq : CapabilitySignal → CapabilitySignal → Bool
signal_eq a b = signal_code a == signal_code b

-- The row of a person, a position and a signal, of which the table holds one at most.
abbrev pub is_row : ℕ → ℕ → CapabilitySignal → PositionCapability → Bool
is_row person position signal c =
    c.person_id == person && c.base_position_id == position && signal_eq c.signal signal

abbrev pub new_capability : ℕ → ℕ → ℕ → CapabilitySignal → ℕ → Option ℕ → PositionCapability
new_capability id person position signal actor source = record {
  id = id;
  person_id = person;
  base_position_id = position;
  signal = signal;
  source_revision_id = source;
  changed_by_user_id = some actor;
}

-- `set_signal`, with the source that its caller gives to a new row.
unfoldable pub set_signal : ℕ → ℕ → CapabilitySignal → ℕ → Option ℕ → Store → Store
set_signal person position signal actor source db =
    if any (is_row person position signal) db.capabilities then db else record db {
      capabilities =
          db.capabilities ++ new_capability db.next_id person position signal actor source ∷ [];
      next_id = suc db.next_id;
    }

unfoldable pub record_worked : ℕ → ℕ → ℕ → ℕ → Store → Store
record_worked person position actor revision db =
    if is_none (get_position db position)
    then db
    else set_signal person position CapabilitySignal.worked actor (some revision) db

pub data Family : Type 0 where
  employee manager : Family

-- The two signals of a family.
abbrev pub family_signals : Family → List CapabilitySignal
family_signals employee = CapabilitySignal.employee_allow ∷ CapabilitySignal.employee_opt_out ∷ []
family_signals manager = CapabilitySignal.manager_allow ∷ CapabilitySignal.manager_block ∷ []

-- A preference: one of the signals, or CLEAR.
pub data Preference : Type 0 where
  clear : Preference
  signal : CapabilitySignal → Preference

abbrev pub in_family : ℕ → ℕ → Family → PositionCapability → Bool
in_family person position family c =
    c.person_id == person
    && c.base_position_id == position
    && has_signal c.signal (family_signals family)

abbrev pub without_family : ℕ → ℕ → Family → Store → Store
without_family person position family db = record db {
  capabilities = filter (λ c. not (in_family person position family c)) db.capabilities;
}

abbrev pub invalid_signal : Error
invalid_signal = value_error "Invalid capability preference signal."

-- The family is one of the two here, so the test for another is void.
unfoldable pub set_preference_signal : ℕ → ℕ → Preference → ℕ → Family → Store → Result Store
set_preference_signal person position clear actor family db =
    ok (without_family person position family db)
set_preference_signal person position (signal s) actor family db = do
  reject_if (not (has_signal s (family_signals family))) invalid_signal
  ok (set_signal person position s actor none (without_family person position family db))
