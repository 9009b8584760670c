-- ===== src/Clock/Display.antt =====
-- app/core/time.py: `display_time` and `parse_time`.
pub mod RoundTrip
use Prim.Native.String.{◌++◌}
use on_track_rostering.Prelude.{
  ℕ, ◌+◌, ◌-◌, ◌*◌, ◌/◌, ◌%◌, Bool, true, false, ◌&&◌, Option, none, some, List, [], ◌∷◌, String,
  ◌==◌, leb, ltb, all, if◌then◌else◌,
}
use on_track_rostering.Text.{strip, digit, codes}
use on_track_rostering.Errors.{Error, Result, ok, err, value_error, ◌>>=◌, ◌>>◌, reject_if}
use on_track_rostering.Clock.{Time, minute, hour}

-- Two digits of a number below 100.
abbrev pub two_digits : ℕ → String
two_digits n = digit (n / 10) ++ digit (n % 10)

-- `value.strftime("%H:%M") if value else ""`.
unfoldable pub display_time : Option Time → String
display_time none = ""
display_time (some t) = two_digits (t / hour) ++ (":" ++ two_digits (t / minute % 60))

-- `\d` with `re.ASCII`, and its value.
abbrev pub is_digit : ℕ → Bool
is_digit c = leb 48 c && leb c 57

abbrev pub value_of : ℕ → ℕ
value_of c = c - 48

-- A tens digit and a units digit.
abbrev pub number_of : ℕ → ℕ → ℕ
number_of a b = value_of a * 10 + value_of b

abbrev pub colon : ℕ
colon = 58

-- The hour and the minute of a text that one of the two patterns matches: three or four digits, whose
-- last two are the minute, or one or two digits, a colon and two digits.
abbrev pub clock_parts : List ℕ → Option (ℕ × ℕ)
clock_parts (a ∷ b ∷ c ∷ []) =
    if is_digit a && is_digit b && is_digit c then some (value_of a, number_of b c) else none
clock_parts (a ∷ b ∷ c ∷ d ∷ []) =
    if is_digit a && is_digit b && is_digit c && is_digit d
    then some (number_of a b, number_of c d)
    else if is_digit a && b == colon && is_digit c && is_digit d
    then some (value_of a, number_of c d)
    else none
clock_parts (a ∷ b ∷ c ∷ d ∷ e ∷ []) =
    if is_digit a && is_digit b && c == colon && is_digit d && is_digit e
    then some (number_of a b, number_of d e)
    else none
clock_parts _ = none

abbrev pub not_a_time : Error
not_a_time = value_error "Enter a time such as 930 or 09:30"

abbrev pub out_of_day : Error
out_of_day = value_error "Enter a valid time between 00:00 and 23:59"

-- `time(hour, minute)`.
abbrev pub clock_of : Option (ℕ × ℕ) → Result (Option Time)
clock_of none = err not_a_time
clock_of (some (h, m)) =
    if ltb h 24 && ltb m 60 then ok (some (h * hour + m * minute)) else err out_of_day

abbrev pub parse_codes : List ℕ → Result (Option Time)
parse_codes [] = ok none
parse_codes (c ∷ cs) = clock_of (clock_parts (c ∷ cs))

unfoldable pub parse_time : String → Result (Option Time)
unfolding strip codes
parse_time value = parse_codes (codes (strip value))
