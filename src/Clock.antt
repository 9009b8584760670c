-- ===== src/Clock.antt =====
-- app/core/time.py, and the part of Python's `datetime` that the program computes with.
-- A time of day is a number of microseconds after midnight, a date the number of a day, and a
-- datetime the number of microseconds from day zero, so `datetime.combine` and `.date()`, `.time()`
-- are arithmetic. The ends of Python's calendar, where it raises OverflowError, are not modelled.
pub mod Days
pub mod Civil
pub mod Display
use on_track_rostering.Prelude.{
  ℕ, ◌+◌, ◌-◌, ◌*◌, ◌/◌, ◌%◌, ◌<◌, Bool, Option, none, some, ltb, if◌then◌else◌,
}

abbrev pub Date : Type 0
Date = ℕ

abbrev pub Time : Type 0
Time = ℕ

abbrev pub DateTime : Type 0
DateTime = ℕ

abbrev pub second : ℕ
second = 1000000

abbrev pub minute : ℕ
minute = 60000000

abbrev pub hour : ℕ
hour = 3600000000

abbrev pub day : ℕ
day = 86400000000

-- `datetime.combine(date, time)`.
abbrev pub combine : Date → Time → DateTime
combine d t = d * day + t

-- A clock time, where one is given.
abbrev pub IsClock : Option Time → Type 0
IsClock none = Unit
IsClock (some t) = t < day

-- `value.date()`.
abbrev pub date_of : DateTime → Date
date_of v = v / day

-- `value.time()`.
abbrev pub time_of : DateTime → Time
time_of v = v % day

-- `value.minute`, `value.second`, `value.microsecond`.
abbrev pub minute_of : DateTime → ℕ
minute_of v = v / minute % 60

abbrev pub second_of : DateTime → ℕ
second_of v = v / second % 60

abbrev pub microsecond_of : DateTime → ℕ
microsecond_of v = v % second

-- `value.replace(minute=m, second=0, microsecond=0)`.
abbrev pub replace_minute : DateTime → ℕ → DateTime
replace_minute v m = v / hour * hour + m * minute

-- `value.replace(second=0, microsecond=0)`.
abbrev pub replace_second : DateTime → DateTime
replace_second v = v / minute * minute

-- `value + timedelta(minutes=m)` and `value - timedelta(minutes=m)`.
abbrev pub plus_minutes : DateTime → ℕ → DateTime
plus_minutes v m = v + m * minute

abbrev pub minus_minutes : DateTime → ℕ → DateTime
minus_minutes v m = v - m * minute

span_minutes : Date → Time → Time → ℕ
span_minutes d start end =
    let start_at = combine d start in
    let end_at = combine d end in
    ((if ltb end_at start_at then end_at + day else end_at) - start_at) / minute

unfoldable pub worked_minutes : Date → Option Time → Option Time → ℕ
unfolding span_minutes
worked_minutes d (some start) (some end) = span_minutes d start end
worked_minutes d none _ = 0
worked_minutes d (some start) none = 0
