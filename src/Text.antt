-- ===== src/Text.antt =====
-- The parts of Python's `str` that the services compute with.
use Prim.Native.Char.{code}
use Prim.Native.String.{◌++◌}
use text.Mathlib.Text.{◌==◌ as str_eq}
use on_track_rostering.Prelude.{
  ℕ, zero, suc, ◌/◌, ◌%◌, Bool, List, [], ◌∷◌, ◌&&◌, ◌||◌, String, leb, ◌==◌, if◌then◌else◌,
}

-- `str.isspace` of one character.
abbrev is_space : ℕ → Bool
is_space c =
    leb 9 c && leb c 13
    || leb 28 c && leb c 32
    || c == 133
    || c == 160
    || c == 5760
    || leb 8192 c && leb c 8202
    || c == 8232
    || c == 8233
    || c == 8239
    || c == 8287
    || c == 12288

lstrip : String → String
lstrip String.[] = String.[]
lstrip (String.◌∷◌ c s) = let rest = lstrip s in if is_space (code c) then rest else String.◌∷◌ c s

rstrip : String → String
rstrip String.[] = String.[]
rstrip (String.◌∷◌ c s) =
    let rest = rstrip s in
    if is_space (code c) && str_eq rest "" then String.[] else String.◌∷◌ c rest

-- `text.strip()`.
unfoldable pub strip : String → String
unfolding lstrip rstrip
strip s = rstrip (lstrip s)

-- `a or b` on texts.
abbrev pub text_or : String → String → String
text_or a b = if str_eq a "" then b else a

-- The digit of a number below 10.
abbrev pub digit : ℕ → String
digit d =
    if d == 0
    then "0"
    else if d == 1
    then "1"
    else if d == 2
    then "2"
    else if d == 3
    then "3"
    else if d == 4
    then "4"
    else if d == 5
    then "5"
    else if d == 6
    then "6"
    else if d == 7
    then "7"
    else if d == 8
    then "8"
    else "9"

decimal_onto : ℕ → ℕ → String → String
decimal_onto zero n text = text
decimal_onto (suc fuel) n text =
    let longer = digit (n % 10) ++ text in
    let rest = decimal_onto fuel (n / 10) longer in if n / 10 == 0 then longer else rest

-- `str(n)`: a number has at most as many digits as its successor counts.
unfoldable pub decimal : ℕ → String
unfolding decimal_onto
decimal n = decimal_onto (suc n) n ""

-- The code points of a text.
unfoldable pub codes : String → List ℕ
codes String.[] = []
codes (String.◌∷◌ c s) = code c ∷ codes s
