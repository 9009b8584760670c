-- ===== src/Errors.antt =====
-- The exceptions that the services raise, each with its message, and a result that may be one.
use on_track_rostering.Prelude.{Bool, true, false, String, ◌≡◌, refl, if◌then◌else◌}

pub data Error : Type 0 where
  value_error : String → Error
  permission_error : String → Error
  draft_conflict : String → Error
  publish_conflict : String → Error

-- What a service gives: an exception, or its value.
pub data Result {ℓ} (Value : Type ℓ) : Type ℓ where
  err : Error → Result Value
  ok : Value → Result Value

-- `if test: raise e`.
abbrev pub reject_if : Bool → Error → Result (Unit {0})
reject_if test e = if test then err e else ok tt

infixl 5 ◌>>=◌ ◌>>◌
-- The rest of a service runs on the value, and an exception ends it.
abbrev pub ◌>>=◌ {ℓ κ} : {V : Type ℓ} {W : Type κ} → Result V → (V → Result W) → Result W
err raised >>= rest = err raised
ok value >>= rest = rest value

abbrev pub ◌>>◌ {κ} : {W : Type κ} → Result (Unit {0}) → Result W → Result W
err raised >> rest = err raised
ok done >> rest = rest

pub ok-injective {ℓ} : {V : Type ℓ} {v w : V} → ok v ≡ ok w → v ≡ w
ok-injective same = cc

-- A test that did not reject let the rest run.
pub reject_if-eq-ok {ℓ} :
    {V : Type ℓ} (test : Bool) (e : Error) (rest : Result V) {v : V}
    → (reject_if test e >> rest) ≡ ok v
    → (test ≡ false) × (rest ≡ ok v)
reject_if-eq-ok true e rest ran = cc
reject_if-eq-ok false e rest ran = (refl, ran)

-- A service that gave a value gave one at its first step, and the rest ran on that.
pub >>=-eq-ok {ℓ κ} :
    {V : Type ℓ} {W : Type κ} (first : Result V) (rest : V → Result W) {w : W}
    → (first >>= rest) ≡ ok w
    → (v : V) × (first ≡ ok v) × (rest v ≡ ok w)
>>=-eq-ok (err raised) rest ran = cc
>>=-eq-ok (ok value) rest ran = (value, refl, ran)
