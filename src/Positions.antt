-- ===== src/Positions.antt =====
-- app/positions/service.py: whether a person's capability signals make them eligible for a position.
pub mod Eligibility
pub mod Bulk
pub mod Signals
pub mod Preferences
use on_track_rostering.Prelude.{Bool, true, false, ◌&&◌, ◌||◌, ◌==◌, ℕ, List, any, if◌then◌else◌}
use on_track_rostering.Enums.{CapabilitySignal}

-- The reason that is shown with the answer.
pub data Reason : Type 0 where
  manager_restricted employee_opted_out allowed worked_before no_signal : Reason

abbrev pub signal_code : CapabilitySignal → ℕ
signal_code CapabilitySignal.worked = 0
signal_code CapabilitySignal.employee_allow = 1
signal_code CapabilitySignal.employee_opt_out = 2
signal_code CapabilitySignal.manager_allow = 3
signal_code CapabilitySignal.manager_block = 4

-- `signal in signals`.
abbrev pub has_signal : CapabilitySignal → List CapabilitySignal → Bool
has_signal signal signals = any (λ s. signal_code signal == signal_code s) signals

-- `_eligibility_from_signals`.
unfoldable pub eligibility_from_signals : List CapabilitySignal → Bool → Bool × Reason
eligibility_from_signals signals worked_qualified =
    if has_signal CapabilitySignal.manager_block signals
    then (false, manager_restricted)
    else if has_signal CapabilitySignal.employee_opt_out signals
    then (false, employee_opted_out)
    else if has_signal CapabilitySignal.employee_allow signals
        || has_signal CapabilitySignal.manager_allow signals
    then (true, allowed)
    else if has_signal CapabilitySignal.worked signals && worked_qualified
    then (true, worked_before)
    else (false, no_signal)
