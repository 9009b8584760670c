-- ===== src/Positions/Bulk/Single.antt =====
-- A bulk evaluation gives each pair the answer that it has alone.
use on_track_rostering.Prelude.{
  ℕ, Bool, true, false, ◌&&◌, ◌||◌, not, List, [], ◌∷◌, ◌≡◌, refl, sym, ap, subst, ◌∙◌, arith, inl,
  inr, Has, any, filter, map, String, is_none, Bool-cases, Has→any, any→Has, filter-Has,
  flat_map-Has, ltb, ◌==◌,
}
use on_track_rostering.Enums.{CapabilitySignal}
use on_track_rostering.Positions.{Reason, has_signal, eligibility_from_signals}
use on_track_rostering.Rostering.Models.{PositionCapability}
use on_track_rostering.Rostering.Store.{Store, get_position}
use on_track_rostering.Positions.Bulk.{
  key_of, same_identity, is_relevant, is_among, requested_rows, rows_for, worked_days, is_sourced,
  is_legacy, answer_from, Answer, bulk_eligibility, eligibility,
}

map-Has :
    {A B : Type 0} (f : A → B) (b : B) (xs : List A)
    → Has b (map f xs)
    → (a : A) × Has a xs × (f a ≡ b)
map-Has f b (x ∷ xs) (inl e) = (x, inl refl, sym e)
map-Has f b (x ∷ xs) (inr m) = let (a, h, e) = map-Has f b xs m in (a, inr h, e)
map-Has f b [] m = absurd m

-- A filter does not need an earlier one that is implied by it.
filter-filter :
    {A : Type 0} (test before : A → Bool) (xs : List A)
    → ((x : A) → test x ≡ true → before x ≡ true)
    → filter test (filter before xs) ≡ filter test xs
filter-filter test before [] h = refl
filter-filter test before (x ∷ xs) h = elim (Bool-cases (test x)) [
  | inl e ↦ rw (h x e, e) (ap (λ more. x ∷ more) (filter-filter test before xs h))
  | inr e ↦ elim (Bool-cases (before x)) [
    | inl b ↦ rw (b, e) (filter-filter test before xs h)
    | inr b ↦ rw (b, e) (filter-filter test before xs h)
  ]
]

module _ (canonical : String → String) (db : Store) (p q : ℕ) where
  abbrev is_own : PositionCapability → Bool
  is_own c =
      c.person_id == p
      && same_identity (key_of canonical db c.base_position_id) (key_of canonical db q)

  own_requested :
      (people positions : List ℕ) (c : PositionCapability)
      → Has p people
      → Has q positions
      → is_own c ≡ true
      → (is_among people c.person_id && is_relevant canonical db positions c.base_position_id)
        ≡ true
  own_requested people positions c m n h =
      let who : (p == c.person_id) ≡ true = ground arith in
      let what : same_identity (key_of canonical db c.base_position_id) (key_of canonical db q)
          ≡ true =
        ground arith in
      let among = Has→any (λ i. i == c.person_id) p people m who in
      let relevant =
        Has→any
          (λ j. same_identity (key_of canonical db c.base_position_id) (key_of canonical db j)) q
          positions n what in
      rw (among, relevant) refl

  -- The rows of a pair that is asked for are all its rows.
  rows_for-requested :
      (people positions : List ℕ)
      → Has p people
      → Has q positions
      → rows_for canonical db p q (requested_rows canonical db people positions)
        ≡ filter is_own db.capabilities
  rows_for-requested people positions m n =
      filter-filter is_own
        (λ (c : PositionCapability).
          is_among people c.person_id && is_relevant canonical db positions c.base_position_id)
        db.capabilities (λ c h. own_requested people positions c m n h)

any-filter :
    {A : Type 0} (test before : A → Bool) (xs : List A)
    → any test (filter before xs) ≡ true
    → any test xs ≡ true
any-filter test before xs h =
    let (x, m, t) = any→Has test (filter before xs) h in
    Has→any test x xs (filter-Has before x xs m).0 t

no_worked :
    (rows : List PositionCapability)
    → any is_legacy rows ≡ false
    → any is_sourced rows ≡ false
    → has_signal CapabilitySignal.worked (map (λ (c : PositionCapability). c.signal) rows) ≡ false
no_worked [] h k = refl
no_worked (c ∷ rows) h k = ground (arith, no_worked rows (ground arith) (ground arith))

-- Without that signal it does not matter whether the work qualifies.
unqualified :
    (signals : List CapabilitySignal) (b c : Bool)
    → has_signal CapabilitySignal.worked signals ≡ false
    → eligibility_from_signals signals b ≡ eligibility_from_signals signals c
unfolding eligibility_from_signals
unqualified signals b c h = rw h refl

module _ (canonical : String → String) (db : Store) (people positions : List ℕ) (p q : ℕ)
    (m : Has p people) (n : Has q positions) where
  abbrev own : List PositionCapability
  own = filter (is_own canonical db p q) db.capabilities

  -- The answer by the pair's own rows, and by whether some row of the query is sourced.
  abbrev by : Bool → Bool × Reason
  by sourced =
      eligibility_from_signals (map (λ (c : PositionCapability). c.signal) own)
        (any is_legacy own || sourced && ltb 1 (worked_days canonical db p q))

  answer_from-by :
      answer_from canonical db (requested_rows canonical db people positions) p q
      ≡ by (any is_sourced (requested_rows canonical db people positions))
  unfolding answer_from
  answer_from-by =
      ap
        (λ (rows : List PositionCapability).
          eligibility_from_signals (map (λ (c : PositionCapability). c.signal) rows) (
            any is_legacy rows
            || any is_sourced (requested_rows canonical db people positions)
              && ltb 1 (worked_days canonical db p q)))
        (rows_for-requested canonical db p q people positions m n)

  -- Sourced rows of other pairs make no difference.
  by-same :
      by (any is_sourced (requested_rows canonical db people positions)) ≡ by (any is_sourced own)
  by-same = elim (Bool-cases (any is_sourced own)) [
    | inl e ↦
        let all_rows : any is_sourced (requested_rows canonical db people positions) ≡ true =
          any-filter is_sourced (is_own canonical db p q)
            (requested_rows canonical db people positions)
            (subst (λ (rows : List PositionCapability). any is_sourced rows ≡ true)
              (sym (rows_for-requested canonical db p q people positions m n)) e) in
        ap by (all_rows ∙ sym e)
    | inr e ↦ elim (Bool-cases (any is_legacy own)) [
      | inl l ↦ rw l refl
      | inr l ↦ unqualified (map (λ (c : PositionCapability). c.signal) own) _ _ (no_worked own l e)
    ]
  ]

-- A bulk evaluation gives a pair that is asked for the answer that it has alone, whatever other
-- people and positions are asked for with it.
pub answer_from-eligibility :
    (canonical : String → String) (db : Store) (people positions : List ℕ) (p q : ℕ)
    → Has p people
    → Has q positions
    → answer_from canonical db (requested_rows canonical db people positions) p q
      ≡ eligibility canonical db p q
unfolding eligibility
answer_from-eligibility canonical db people positions p q m n =
    (answer_from-by canonical db people positions p q m n
      ∙ by-same canonical db people positions p q m n)
    ∙ sym (
        answer_from-by canonical db (p ∷ []) (q ∷ []) p q (inl refl) (inl refl)
        ∙ by-same canonical db (p ∷ []) (q ∷ []) p q (inl refl) (inl refl))

-- Every answer of a bulk evaluation is of a pair that is asked for, with a stored position, and is
-- the answer that `eligibility` gives for the pair alone.
pub bulk_eligibility-eligibility :
    (canonical : String → String) (db : Store) (people positions : List ℕ) (a : Answer)
    → Has a (bulk_eligibility canonical db people positions)
    → Has a.person_id people
      × Has a.base_position_id positions
      × (is_none (get_position db a.base_position_id) ≡ false)
      × (a.answer ≡ eligibility canonical db a.person_id a.base_position_id)
unfolding bulk_eligibility
bulk_eligibility-eligibility canonical db people positions a h =
    let rows = requested_rows canonical db people positions in
    let make : ℕ → ℕ → Answer = λ p q. record {
      person_id = p;
      base_position_id = q;
      answer = answer_from canonical db rows p q;
    } in
    let stored = filter (λ q. not (is_none (get_position db q))) positions in
    let (p, m, k) = flat_map-Has (λ p. map (make p) stored) a people h in
    let (q, n, e) = map-Has (make p) a stored k in
    let (asked, found) = filter-Has (λ q. not (is_none (get_position db q))) q positions n in
    subst
      (λ (x : Answer).
        Has x.person_id people
        × Has x.base_position_id positions
        × (is_none (get_position db x.base_position_id) ≡ false)
        × (x.answer ≡ eligibility canonical db x.person_id x.base_position_id))
      e (m, asked, ground arith, answer_from-eligibility canonical db people positions p q m asked)
