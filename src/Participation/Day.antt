-- ===== src/Participation/Day.antt =====
-- The day of a person covers each of the person's rows, and no more.
use on_track_rostering.Prelude.{
  ◌-◌, ◌/◌, ◌≤◌, ◌≡◌, Bool, Option, none, some, List, [], ◌∷◌, refl, sym, ap, subst, ◌∙◌, arith,
  ◌⊎◌, inl, inr, Has, Has-sort_by, sort_by-Has, sort_by, Bool-cases, if◌then◌else◌, ltb, String,
}
use on_track_rostering.Enums.{AssignmentStatus}
use on_track_rostering.Clock.{Time, DateTime, time_of, minute}
use on_track_rostering.Rostering.Models.{WorkdayRevision, Assignment}
use on_track_rostering.Participation.{
  PersonDayParticipation, span, with_span, spans, first_start, last_finish, over_spans,
  person_day_participation,
}

abbrev Span : Type 0
Span = DateTime × DateTime

first_start-le :
    (least : DateTime) (xs : List Span)
    → (first_start least xs ≤ least) × ((x : Span) → Has x xs → first_start least xs ≤ x.0)
first_start-le least [] = (omega arith, λ x m. absurd m)
first_start-le least ((s, f) ∷ rest) =
    let (le, each) = first_start-le (if ltb s least then s else least) rest in
    (
      ground arith,
      λ x m. elim m [
        | inl e ↦ let same : x.0 ≡ s = ap (λ (y : Span). y.0) e in ground arith
        | inr n ↦ each x n
      ],
    )

last_finish-ge :
    (most : DateTime) (xs : List Span)
    → (most ≤ last_finish most xs) × ((x : Span) → Has x xs → x.1 ≤ last_finish most xs)
last_finish-ge most [] = (omega arith, λ x m. absurd m)
last_finish-ge most ((s, f) ∷ rest) =
    let (le, each) = last_finish-ge (if ltb most f then f else most) rest in
    (
      ground arith,
      λ x m. elim m [
        | inl e ↦ let same : x.1 ≡ f = ap (λ (y : Span). y.1) e in ground arith
        | inr n ↦ each x n
      ],
    )

first_start-Has :
    (least : DateTime) (xs : List Span)
    → (first_start least xs ≡ least) ⊎ ((x : Span) × Has x xs × (x.0 ≡ first_start least xs))
first_start-Has least [] = inl refl
first_start-Has least ((s, f) ∷ rest) = elim (Bool-cases (ltb s least)) [
  | inl t ↦ rw t (elim (first_start-Has s rest) [
    | inl e ↦ inr ((s, f), inl refl, sym e)
    | inr (x, m, e) ↦ inr (x, inr m, e)
  ])
  | inr t ↦
      rw t (elim (first_start-Has least rest) [ inl e ↦ inl e | inr (x, m, e) ↦ inr (x, inr m, e) ])
]

last_finish-Has :
    (most : DateTime) (xs : List Span)
    → (last_finish most xs ≡ most) ⊎ ((x : Span) × Has x xs × (x.1 ≡ last_finish most xs))
last_finish-Has most [] = inl refl
last_finish-Has most ((s, f) ∷ rest) = elim (Bool-cases (ltb most f)) [
  | inl t ↦ rw t (elim (last_finish-Has f rest) [
    | inl e ↦ inr ((s, f), inl refl, sym e)
    | inr (x, m, e) ↦ inr (x, inr m, e)
  ])
  | inr t ↦
      rw t (elim (last_finish-Has most rest) [ inl e ↦ inl e | inr (x, m, e) ↦ inr (x, inr m, e) ])
]

Has-spans :
    (revision : WorkdayRevision) (a : Assignment) (x : Span) (rows : List Assignment)
    → Has a rows
    → span revision a ≡ some x
    → Has x (spans revision rows)
Has-spans revision a x (r ∷ rows) (inl e) h = rw (ap (span revision) (sym e) ∙ h) (inl refl)
Has-spans revision a x (r ∷ rows) (inr m) h =
    below (span revision r) (Has-spans revision a x rows m h)
  where
    below :
        (o : Option Span) → Has x (spans revision rows) → Has x (with_span o (spans revision rows))
    below none n = n
    below (some s) n = inr n
Has-spans revision a x [] m h = absurd m

spans-Has :
    (revision : WorkdayRevision) (x : Span) (rows : List Assignment)
    → Has x (spans revision rows)
    → (a : Assignment) × Has a rows × (span revision a ≡ some x)
spans-Has revision x (r ∷ rows) m = go (spans-Has revision x rows) (span revision r) refl m
  where
    go :
        (Has x (spans revision rows) → (a : Assignment) × Has a rows × (span revision a ≡ some x))
        → (o : Option Span) → span revision r ≡ o
        → Has x (with_span o (spans revision rows))
        → (a : Assignment) × Has a (r ∷ rows) × (span revision a ≡ some x)
    go more none e n = let (a, held, k) = more n in (a, inr held, k)
    go more (some s) e (inl same) = (r, inl refl, e ∙ ap some (sym same))
    go more (some s) e (inr n) = let (a, held, k) = more n in (a, inr held, k)
spans-Has revision x [] m = absurd m

-- The day runs from the first start to the last finish of the rows that have both.
pub record IsDay (revision : WorkdayRevision) (rows : List Assignment) (p : PersonDayParticipation)
    (lo hi : DateTime) : Type 0 where
  pub start : p.start ≡ some (time_of lo)
  pub end : p.end ≡ some (time_of hi)
  pub minutes : p.minutes ≡ (hi - lo) / minute
  pub covers :
      (a : Assignment) (x : DateTime × DateTime)
      → Has a rows
      → span revision a ≡ some x
      → (lo ≤ x.0) × (x.1 ≤ hi)
  pub first :
      (a : Assignment) × (x : DateTime × DateTime) × Has a rows
      × (span revision a ≡ some x)
      × (x.0 ≡ lo)
  pub last :
      (a : Assignment) × (x : DateTime × DateTime) × Has a rows
      × (span revision a ≡ some x)
      × (x.1 ≡ hi)

module _ (revision : WorkdayRevision) (rows : List Assignment) where
  over_spans-IsDay :
      (xs : List Span) (fs fe : Option Time) (roles : String) (ss : List AssignmentStatus)
      → ((a : Assignment) (x : Span) → Has a rows → span revision a ≡ some x → Has x xs)
      → ((x : Span) → Has x xs → (a : Assignment) × Has a rows × (span revision a ≡ some x))
      → (y : Span) → Has y xs
      → (lo : DateTime) × (hi : DateTime) × IsDay revision rows (over_spans xs fs fe roles ss) lo hi
  over_spans-IsDay [] fs fe roles ss into from y m = absurd m
  over_spans-IsDay ((s, f) ∷ rest) fs fe roles ss into from y m =
      let (le, below) = first_start-le s rest in
      let (ge, above) = last_finish-ge f rest in
      let whole : List Span = (s, f) ∷ rest in
      let head : Span = (s, f) in
      let held : Has head whole = inl refl in
      (
        first_start s rest,
        last_finish f rest,
        record {
          start = refl;
          end = refl;
          minutes = refl;
          covers = λ a x h e. elim (into a x h e) [
            | inl same ↦ (
              subst (λ (z : Span). first_start s rest ≤ z.0) (sym same) le,
              subst (λ (z : Span). z.1 ≤ last_finish f rest) (sym same) ge,
            )
            | inr n ↦ (below x n, above x n)
          ];
          first = elim (first_start-Has s rest) [
            | inl e ↦ let (a, h, k) = from head held in (a, head, h, k, sym e)
            | inr (x, n, e) ↦ let (a, h, k) = from x (inr n) in (a, x, h, k, e)
          ];
          last = elim (last_finish-Has f rest) [
            | inl e ↦ let (a, h, k) = from head held in (a, head, h, k, sym e)
            | inr (x, n, e) ↦ let (a, h, k) = from x (inr n) in (a, x, h, k, e)
          ];
        },
      )

-- Where some row of a person has a start and a finish, the person's day runs from the first start to
-- the last finish of such rows, whatever the order of positions: it covers each of them, one of them
-- starts when it starts, one ends when it ends, and its minutes are those between the two.
pub person_day_participation-IsDay :
    (before : Assignment → Assignment → Bool) (revision : WorkdayRevision) (rows : List Assignment)
    (a : Assignment) (x : DateTime × DateTime)
    → Has a rows
    → span revision a ≡ some x
    → (lo : DateTime) × (hi : DateTime) × IsDay revision rows
        (person_day_participation before revision rows)
        lo
        hi
unfolding person_day_participation
person_day_participation-IsDay before revision rows a x m h =
    let ordered = sort_by before rows in
    over_spans-IsDay revision rows (spans revision ordered) _ _ _ _
      (λ b y n e. Has-spans revision b y ordered (Has-sort_by before b rows n) e)
      (λ y n.
        let (b, held, e) = spans-Has revision y ordered n in (b, sort_by-Has before b rows held, e))
      x (Has-spans revision a x ordered (Has-sort_by before a rows m) h)
