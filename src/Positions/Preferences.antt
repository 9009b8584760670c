-- ===== src/Positions/Preferences.antt =====
-- A preference leaves one answer of its family, and touches no other.
use on_track_rostering.Prelude.{
  ℕ, Bool, true, false, not, Option, none, some, [], ◌∷◌, ◌++◌, ◌≡◌, subst, ◌⊎◌, inl, inr, refl,
  arith, any, Has, append-Has, filter-Has, Has-filter, Has-append_left, Has-append_right, Has→any,
  Bool-cases, is_none,
}
use on_track_rostering.Enums.{CapabilitySignal}
use on_track_rostering.Errors.{ok, ok-injective, reject_if-eq-ok}
use on_track_rostering.Rostering.Models.{PositionCapability}
use on_track_rostering.Rostering.Store.{
  Store, SameRoster, SameRoster-refl, SameRoster-trans, get_position,
}
use on_track_rostering.Positions.{has_signal}
use on_track_rostering.Positions.Signals.{
  Family, Preference, clear, signal, in_family, without_family, is_row, signal_eq, new_capability,
  set_signal, record_worked, set_preference_signal, family_signals, invalid_signal,
}

-- The rows after `set_signal`, by whether there is one already.
set_signal-rows :
    (person position : ℕ) (s : CapabilitySignal) (actor : ℕ) (source : Option ℕ) (db : Store)
    (c : PositionCapability)
    → Has c (set_signal person position s actor source db).capabilities
    → Has c db.capabilities ⊎ (is_row person position s c ≡ true)
unfolding set_signal
set_signal-rows person position s actor source db c m =
    elim (Bool-cases (any (is_row person position s) db.capabilities)) [
      | inl e ↦ inl (rw e at m)
      | inr e ↦ elim (append-Has c db.capabilities _ (rw e at m)) [
        | inl n ↦ inl n
        | inr n ↦ elim n [ inl h ↦ inr (ground arith) | inr h ↦ absurd h ]
      ]
    ]

pub set_signal-SameRoster :
    (person position : ℕ) (s : CapabilitySignal) (actor : ℕ) (source : Option ℕ) (db : Store)
    → SameRoster db (set_signal person position s actor source db)
unfolding set_signal
set_signal-SameRoster person position s actor source db =
    elim (Bool-cases (any (is_row person position s) db.capabilities)) [
      | inl e ↦ rw e (SameRoster-refl db)
      | inr e ↦
          rw e (record {
            workdays = refl;
            revisions = refl;
            assignments = refl;
            next_id = omega arith;
          })
    ]

pub record_worked-SameRoster :
    (person position actor revision : ℕ) (db : Store)
    → SameRoster db (record_worked person position actor revision db)
unfolding record_worked
record_worked-SameRoster person position actor revision db =
    elim (Bool-cases (is_none (get_position db position))) [
      | inl e ↦ rw e (SameRoster-refl db)
      | inr e ↦
          rw e
            (set_signal-SameRoster person position CapabilitySignal.worked actor (some revision) db)
    ]

set_signal-any :
    (person position : ℕ) (s : CapabilitySignal) (actor : ℕ) (source : Option ℕ) (db : Store)
    → any (is_row person position s) (set_signal person position s actor source db).capabilities
      ≡ true
unfolding set_signal
set_signal-any person position s actor source db =
    elim (Bool-cases (any (is_row person position s) db.capabilities)) [
      | inl e ↦ rw e e
      | inr e ↦
          let row = new_capability db.next_id person position s actor source in
          rw e (
            Has→any (is_row person position s) row (db.capabilities ++ row ∷ [])
              (Has-append_right row db.capabilities (row ∷ []) (inl refl)) (ground arith))
    ]

set_signal-keeps :
    (person position : ℕ) (s : CapabilitySignal) (actor : ℕ) (source : Option ℕ) (db : Store)
    (c : PositionCapability)
    → Has c db.capabilities
    → Has c (set_signal person position s actor source db).capabilities
unfolding set_signal
set_signal-keeps person position s actor source db c m =
    elim (Bool-cases (any (is_row person position s) db.capabilities)) [
      | inl e ↦ rw e m
      | inr e ↦ rw e (
          Has-append_left c db.capabilities
            (new_capability db.next_id person position s actor source ∷ []) m)
    ]

apart : {b : Bool} → b ≡ true → not b ≡ true → ⊥
apart {b} h k = cc (h, k)

-- A preference for a signal of its family leaves that signal and none of the opposite one, and the
-- signals of other people, positions and families stay.
pub set_preference_signal-exclusive :
    (person position actor : ℕ) (s : CapabilitySignal) (family : Family) (db after : Store)
    → set_preference_signal person position (signal s) actor family db ≡ ok after
    → (any (is_row person position s) after.capabilities ≡ true)
      × ((c : PositionCapability)
          → Has c after.capabilities
          → in_family person position family c ≡ true
          → signal_eq c.signal s ≡ true)
      × ((c : PositionCapability)
          → Has c db.capabilities
          → in_family person position family c ≡ false
          → Has c after.capabilities)
unfolding set_preference_signal
set_preference_signal-exclusive person position actor s family db after h =
    let rest = without_family person position family db in
    let (valid, done) =
      reject_if-eq-ok (not (has_signal s (family_signals family))) invalid_signal _ h in
    subst
      (λ (x : Store).
        (any (is_row person position s) x.capabilities ≡ true)
        × ((c : PositionCapability)
            → Has c x.capabilities
            → in_family person position family c ≡ true
            → signal_eq c.signal s ≡ true)
        × ((c : PositionCapability)
            → Has c db.capabilities
            → in_family person position family c ≡ false
            → Has c x.capabilities))
      (ok-injective done)
      (
        set_signal-any person position s actor none rest,
        λ c m own. elim (set_signal-rows person position s actor none rest c m) [
          | inr h ↦ ground arith
          | inl n ↦
              let (_, out) =
                filter-Has (λ (x : PositionCapability). not (in_family person position family x)) c
                  db.capabilities n in
              absurd (apart own out)
        ],
        λ c m other. set_signal-keeps person position s actor none rest c (
            Has-filter (λ (x : PositionCapability). not (in_family person position family x)) c
              db.capabilities m (rw other refl)),
      )

pub set_preference_signal-SameRoster :
    (person position actor : ℕ) (preference : Preference) (family : Family) (db after : Store)
    → set_preference_signal person position preference actor family db ≡ ok after
    → SameRoster db after
unfolding set_preference_signal
set_preference_signal-SameRoster person position actor clear family db after h =
    subst (SameRoster db) (ok-injective h)
      (record { workdays = refl; revisions = refl; assignments = refl; next_id = omega arith })
set_preference_signal-SameRoster person position actor (signal s) family db after h =
    let rest = without_family person position family db in
    let (_, done) =
      reject_if-eq-ok (not (has_signal s (family_signals family))) invalid_signal _ h in
    subst (SameRoster db) (ok-injective done) (
      SameRoster-trans
        (record { workdays = refl; revisions = refl; assignments = refl; next_id = omega arith })
        (set_signal-SameRoster person position s actor none rest))
