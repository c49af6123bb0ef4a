-- ===== src/Options/RelativeTime.antt =====
-- get_approximate_relative_time_string (src/options_helper.cpp). An int64_t stands as its value
-- plus 2 ^ 63. The unsigned sums behind the seconds are too small to wrap.
use barbacoa_server_lib.Prelude.{
  ℕ, ◌+◌, ◌-◌, ◌*◌, ◌/◌, ◌%◌, ◌^◌, ◌≤◌, ◌<◌, ◌≡◌, List, [], ◌++◌, Result, ok, err, logic_error,
  undefined, ltb, leb, ◌&&◌, ◌==◌, if◌then◌else◌, to_string, codes, arith,
}

-- What the ladder of units picks.
pub data Span : Type 0 where
  seconds minutes hours days weeks months : ℕ → Span
  years : ℕ → ℕ → Span

-- The years, with the months left over for less than 60 months.
unfoldable pub years_of : ℕ → ℕ → Span
years_of days_ago months_ago =
    let years_ago = days_ago / 365 in
    let leftover_days = days_ago - years_ago * 365 in
    years years_ago (if ltb months_ago 60 then (leftover_days + 15) / 30 else 0)

unfoldable pub span_of_days : ℕ → Span
unfolding years_of
span_of_days days_ago =
    let weeks_ago = (days_ago + 3) / 7 in
    let months_ago = (days_ago + 15) / 30 in
    if ltb weeks_ago 70
    then weeks weeks_ago
    else (if ltb months_ago 12 then months months_ago else years_of days_ago months_ago)

unfoldable pub span_of : ℕ → Span
unfolding span_of_days
span_of seconds_ago =
    let minutes_ago = (seconds_ago + 30) / 60 in
    let hours_ago = (minutes_ago + 30) / 60 in
    let days_ago = (hours_ago + 12) / 24 in
    if ltb seconds_ago 90
    then seconds seconds_ago
    else (if ltb minutes_ago 90
        then minutes minutes_ago
        else (if ltb hours_ago 90
            then hours hours_ago
            else (if ltb days_ago 90 then days days_ago else span_of_days days_ago)))

abbrev pub plural : ℕ → List ℕ
plural n = if ltb 1 n then codes "s" else []

-- The text of a span. `months_ago`, which decides on the plural of years and months, is above 1
-- wherever years are printed.
unfoldable pub print_span : Span → List ℕ → List ℕ
print_span (seconds n) ago = to_string n ++ (codes " second" ++ (plural n ++ ago))
print_span (minutes n) ago = to_string n ++ (codes " minute" ++ (plural n ++ ago))
print_span (hours n) ago = to_string n ++ (codes " hour" ++ (plural n ++ ago))
print_span (days n) ago = to_string n ++ (codes " day" ++ (plural n ++ ago))
print_span (weeks n) ago = to_string n ++ (codes " week" ++ (plural n ++ ago))
print_span (months n) ago = to_string n ++ (codes " month" ++ (plural n ++ ago))
print_span (years n m) ago =
    to_string n
    ++ (codes " years" ++ ((if m == 0 then [] else to_string m ++ codes " months") ++ ago))

-- The text for `seconds_ago`, where `seconds_ago + 30` is an int32_t.
unfoldable pub relative_text : ℕ → List ℕ → Result (List ℕ)
unfolding span_of print_span
relative_text seconds_ago ago =
    if ltb (seconds_ago + 30) (2 ^ 31)
    then ok (print_span (span_of seconds_ago) ago)
    else err undefined

-- `static_cast<int32_t>`, and the branch on its sign.
unfoldable pub narrowed : ℕ → List ℕ → Result (List ℕ)
unfolding relative_text
narrowed difference ago =
    let bits = difference % 2 ^ 32 in
    if ltb bits (2 ^ 31)
    then relative_text bits ago
    else relative_text (2 ^ 32 - bits) (codes " in the future")

-- The assertion; a difference beyond an int64_t overflows.
unfoldable pub get_approximate_relative_time_string : ℕ → ℕ → List ℕ → Result (List ℕ)
unfolding narrowed
get_approximate_relative_time_string event_time relative_to_time ago =
    if leb event_time relative_to_time
    then (if ltb (relative_to_time - event_time) (2 ^ 63)
        then narrowed (relative_to_time - event_time) ago
        else err undefined)
    else err logic_error

-- The seconds that a span stands for, with a month of 30 days and a year of 365.
abbrev pub span_seconds : Span → ℕ
span_seconds (seconds n) = n
span_seconds (minutes n) = n * 60
span_seconds (hours n) = n * 3600
span_seconds (days n) = n * 86400
span_seconds (weeks n) = n * 604800
span_seconds (months n) = n * 2592000
span_seconds (years n m) = n * 31536000 + m * 2592000

-- The unit never shows up as one, but for a second, and never as months.
abbrev pub IsPlural : Span → Type 0
IsPlural (seconds n) = Unit {0}
IsPlural (minutes n) = 1 < n
IsPlural (hours n) = 1 < n
IsPlural (days n) = 1 < n
IsPlural (weeks n) = 1 < n
IsPlural (months n) = ⊥
IsPlural (years n m) = 0 < n

-- For any number of seconds, a span beyond seconds has a count above 1, or years above 0, and is never
-- one of months alone.
pub span_of-IsPlural : (n : ℕ) → IsPlural (span_of n)
unfolding span_of
span_of-IsPlural n = ground arith

-- How far a span may be from the time that it stands for: half of its unit, and what the roundings to the
-- units below it add up to; with four years or more and no months up to a year more.
abbrev pub rounding : Span → ℕ
rounding (seconds n) = 0
rounding (minutes n) = 30
rounding (hours n) = 1830
rounding (days n) = 45030
rounding (weeks n) = 304230
rounding (months n) = 1341030
rounding (years n m) = if m == 0 && leb 4 n then 31581030 else 1341030

-- The least number of seconds that is told in a unit: 90 of the unit below it, rounded, and for years 70 weeks.
abbrev pub least : Span → ℕ
least (seconds n) = 0
least (minutes n) = 90
least (hours n) = 5370
least (days n) = 322170
least (weeks n) = 7730970
least (months n) = 0
least (years n m) = 42031770

-- Any number of seconds is told by a span that is within its rounding of them: seconds exactly, minutes to 30
-- seconds, hours to 1830, days to 45030, weeks to 304230, years to 1341030, and four years or more without
-- months to 31581030. No time below the least of its unit is told in it. A span beyond seconds has a count above 1,
-- or years above 0, and is never one of months alone.
pub span_of-close :
    (n : ℕ)
    → (span_seconds (span_of n) ≤ n + rounding (span_of n))
      × (n ≤ span_seconds (span_of n) + rounding (span_of n))
      × (least (span_of n) ≤ n)
      × IsPlural (span_of n)
unfolding span_of
span_of-close n = (ground arith, ground arith, ground arith, ground arith)

-- An event of more than 2 ^ 31 + 30 and less than 2 ^ 32 seconds ago is told as one in the future, at
-- the distance that remains to 2 ^ 32.
pub long_ago_is_future :
    (event_time relative_to_time : ℕ) (ago : List ℕ)
    → event_time + 2 ^ 31 + 30 < relative_to_time
    → relative_to_time < event_time + 2 ^ 32
    → get_approximate_relative_time_string event_time relative_to_time ago
      ≡ ok
          (print_span (span_of (2 ^ 32 - (relative_to_time - event_time))) (codes " in the future"))
unfolding get_approximate_relative_time_string
long_ago_is_future event_time relative_to_time ago h k = ground arith
