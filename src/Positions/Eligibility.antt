-- ===== src/Positions/Eligibility.antt =====
-- Which signals make a person eligible, whatever their order.
use on_track_rostering.Prelude.{Bool, true, false, List, ◌≡◌, ◌↔◌, ◌⊎◌, arith}
use on_track_rostering.Enums.{CapabilitySignal}
use on_track_rostering.Positions.{has_signal, eligibility_from_signals}

-- A person is eligible exactly when no manager blocks it and they have not opted out, and either of
-- the two allows it or they have worked it and qualify by that.
pub eligibility_from_signals-true_iff :
    (signals : List CapabilitySignal) (qualified : Bool)
    → ((eligibility_from_signals signals qualified).0 ≡ true) ↔ (
        (has_signal CapabilitySignal.manager_block signals ≡ false)
        × (has_signal CapabilitySignal.employee_opt_out signals ≡ false)
        × ((has_signal CapabilitySignal.employee_allow signals ≡ true)
            ⊎ ((has_signal CapabilitySignal.manager_allow signals ≡ true)
                ⊎ ((has_signal CapabilitySignal.worked signals ≡ true) × (qualified ≡ true)))))
unfolding eligibility_from_signals
eligibility_from_signals-true_iff signals qualified = (λ h. ground arith, λ h. ground arith)
