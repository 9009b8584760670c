-- ===== src/ContractorAccess/Expiry.antt =====
-- How late the effective expiry of a contractor's account is, and that a refresh leaves the roster
-- alone.
use on_track_rostering.Prelude.{
  ℕ, ◌+◌, ◌*◌, ◌≤◌, ◌≡◌, inl, inr, refl, arith, Option, none, some, List, [], ◌∷◌, ◌++◌, Has,
  Has-append_left, Has-append_right, Option-cases, Bool-cases, if◌then◌else◌, ltb,
}
use on_track_rostering.Clock.{Date, DateTime, day}
use on_track_rostering.Identity.{User}
use on_track_rostering.Rostering.Store.{
  Store, SameRoster, SameRoster-refl, SameRoster-trans, get_user,
}
use on_track_rostering.ContractorAccess.{
  AccessCounts, contractor_ids, refresh_found, refresh_each, refresh_all_contractor_access, Zone,
  maximum, given, effective_expiry, rostered_until, extended_until,
  latest_future_participation_date, refresh_contractor_access, is_contractor_user,
}

pub maximum-ge : (x : ℕ) (xs : List ℕ) → Has x xs → (m : ℕ) × (maximum xs ≡ some m) × (x ≤ m)
maximum-ge x (y ∷ ys) (inl e) = elim (Option-cases (maximum ys)) [
  | inl n ↦ (y, ground arith, ground arith)
  | inr (m, n) ↦ (if ltb m y then y else m, rw n refl, ground arith)
]
maximum-ge x (y ∷ ys) (inr h) =
    let (m, n, le) = maximum-ge x ys h in (if ltb m y then y else m, rw n refl, ground arith)
maximum-ge x [] h = absurd h

-- The effective expiry is no earlier than the stored one, than the end of the inactivity period after
-- the last rostered day, and than the end of that period after a manual extension.
module _ (db : Store) (zone : Zone) (user : User) (manual : Option DateTime) (now : DateTime) where
  abbrev by_hand : List DateTime
  by_hand = extended_until db user manual

  abbrev existing : List DateTime
  existing = given user.contractor_access_expires_at

  pub effective_expiry-existing :
      (t : DateTime)
      → user.contractor_access_expires_at ≡ some t
      → (e : DateTime) × (effective_expiry db zone user manual now ≡ some e) × (t ≤ e)
  unfolding effective_expiry
  effective_expiry-existing t h =
      maximum-ge t (rostered_until db zone user.id now ++ (by_hand ++ existing)) (
        Has-append_right t (rostered_until db zone user.id now) (by_hand ++ existing)
          (Has-append_right t by_hand existing (rw h (inl refl))))

  pub effective_expiry-rostered :
      (d : Date)
      → latest_future_participation_date db user.id (zone.local_date now) ≡ some d
      → (e : DateTime) × (effective_expiry db zone user manual now ≡ some e)
        × (zone.day_end d + db.contractor_inactivity_days * day ≤ e)
  unfolding effective_expiry
  effective_expiry-rostered d h =
      let until = zone.day_end d + db.contractor_inactivity_days * day in
      maximum-ge until (rostered_until db zone user.id now ++ (by_hand ++ existing)) (
        Has-append_left until (rostered_until db zone user.id now) (by_hand ++ existing)
          (rw h (inl refl)))

pub refresh-SameRoster :
    (zone : Zone) (manual : Option DateTime) (actor : Option ℕ) (now : DateTime) (user : User)
    (db : Store)
    → SameRoster db (refresh_contractor_access zone manual actor now user db)
unfolding refresh_contractor_access
refresh-SameRoster zone manual actor now user db =
    elim (Bool-cases (is_contractor_user db user.id)) [
      | inl e ↦
          rw e (record {
            workdays = refl;
            revisions = refl;
            assignments = refl;
            next_id = omega arith;
          })
      | inr e ↦ rw e (SameRoster-refl db)
    ]

refresh_found-SameRoster :
    (zone : Zone) (now : DateTime) (user : Option User) (state : Store × AccessCounts)
    → SameRoster state.0 (refresh_found zone now user state).0
refresh_found-SameRoster zone now none (db, counts) = SameRoster-refl db
refresh_found-SameRoster zone now (some user) (db, counts) =
    refresh-SameRoster zone none none now user db

refresh_each-SameRoster :
    (zone : Zone) (now : DateTime) (ids : List ℕ) (state : Store × AccessCounts)
    → SameRoster state.0 (refresh_each zone now ids state).0
refresh_each-SameRoster zone now [] (db, counts) = SameRoster-refl db
refresh_each-SameRoster zone now (id ∷ ids) state =
    SameRoster-trans (refresh_found-SameRoster zone now (get_user state.0 id) state)
      (refresh_each-SameRoster zone now ids (refresh_found zone now (get_user state.0 id) state))

pub refresh_all-SameRoster :
    (zone : Zone) (now : DateTime) (db : Store)
    → SameRoster db (refresh_all_contractor_access zone now db).0
unfolding refresh_all_contractor_access
refresh_all-SameRoster zone now db =
    refresh_each-SameRoster zone now (contractor_ids db.grants)
      (db, record { checked = 0; changed = 0; expired = 0 })
