-- ===== src/Duration.antt =====
-- src/utils/duration.rs: durations, retention schedules and weekdays, parsed from the
-- configuration.
pub mod Ascii
use bbkar.Common.{
  ℕ, ◌+◌, ◌-◌, ◌*◌, ◌%◌, ◌^◌, ◌==◌, leb, Bool, true, false, ◌&&◌, ◌||◌, Option, none, some,
}
use bbkar.Common.{List, [], ◌∷◌, ◌++◌, map, reverse, if◌then◌else◌, get_last?}
use bbkar.Common.Br.{Br, ok, panic, ◌>>=◌, unwrap}
use bbkar.Common.Text.{Text, text, text_eq, split_at, len, parse_u32}

-- Days; a week is 7 of them, a month 30 and a year 365.
pub record CalendarDuration : Type 0 where
  pub days : ℕ

-- `char::is_whitespace`
unfoldable pub is_whitespace : ℕ → Bool
is_whitespace c =
    (leb 9 c && leb c 13)
    || c == 32
    || c == 0x85
    || c == 0xA0
    || c == 0x1680
    || (leb 0x2000 c && leb c 0x200A)
    || c == 0x2028
    || c == 0x2029
    || c == 0x202F
    || c == 0x205F
    || c == 0x3000

unfoldable pub trim_start : Text → Text
unfolding is_whitespace
trim_start [] = []
trim_start (c ∷ s) = let rest = trim_start s in if is_whitespace c then rest else c ∷ s

-- `str::trim`
unfoldable pub trim : Text → Text
unfolding trim_start
trim s = reverse (trim_start (reverse (trim_start s)))

-- `s.split_at(s.len() - 1)`, which panics if the last character has more than one byte, and on the
-- empty text, where the subtraction underflows
unfoldable pub split_last : Text → Br (Text × Text)
unfolding split_at len
split_last [] = panic
split_last (c ∷ s) = unwrap (split_at (len (c ∷ s) - 1) (c ∷ s))

pub data TimeUnit : Type 0 where
  day : TimeUnit
  week : TimeUnit
  month : TimeUnit
  year : TimeUnit

pub data PreserveCount : Type 0 where
  finite : ℕ → PreserveCount
  all : PreserveCount

pub record PreserveBucket : Type 0 where
  pub count : PreserveCount
  pub unit : TimeUnit

pub record PreserveSchedule : Type 0 where
  pub buckets : List PreserveBucket

-- The `match` on the unit's character, of both parsers
abbrev pub unit_of : Text → Option TimeUnit
unit_of [] = none
unit_of (c ∷ d ∷ s) = none
unit_of (c ∷ []) =
    if c == b'd'
    then some day
    else if c == b'w'
    then some week
    else if c == b'm'
    then some month
    else if c == b'y'
    then some year
    else none

abbrev pub days_of : TimeUnit → ℕ
days_of day = 1
days_of week = 7
days_of month = 30
days_of year = 365

-- `count * multiplier` wraps in a release build.
abbrev pub duration_of : ℕ → TimeUnit → CalendarDuration
duration_of count unit = record { days = count * days_of unit % 2 ^ 32 }

abbrev pub parse_count : Option ℕ → Option TimeUnit → Option CalendarDuration
parse_count none unit = none
parse_count (some count) none = none
parse_count (some count) (some unit) = some (duration_of count unit)

abbrev pub parse_trimmed : Text → Br (Option CalendarDuration)
parse_trimmed [] = ok none
parse_trimmed (c ∷ s) = do
  (num_str, unit_char) ← split_last (c ∷ s)
  ok (parse_count (parse_u32 num_str) (unit_of unit_char))

-- `CalendarDuration::parse`
unfoldable pub parse_duration : Text → Br (Option CalendarDuration)
unfolding trim split_last parse_u32
parse_duration s = parse_trimmed (trim s)

abbrev pub push_word : Text → List Text → List Text
push_word [] ws = ws
push_word (c ∷ word) ws = reverse (c ∷ word) ∷ ws

-- `split_whitespace`: the words, of which none is empty
unfoldable pub words : Text → Text → List Text
unfolding is_whitespace
words word [] = push_word word []
words word (c ∷ s) =
    let next = words [] s in
    let more = words (c ∷ word) s in if is_whitespace c then push_word word next else more

abbrev pub count_of : Text → Option PreserveCount
count_of count_str =
    if text_eq count_str (b'*' ∷ [])
    then some all
    else elim (parse_u32 count_str) [ none ↦ none | some n ↦ some (finite n) ]

abbrev pub bucket_of : Option PreserveCount → Option TimeUnit → Option PreserveBucket
bucket_of count none = none
bucket_of none (some unit) = none
bucket_of (some count) (some unit) = some (record { count = count; unit = unit })

-- The loop over the tokens, which returns at the first that is wrong
unfoldable pub parse_buckets : List Text → Br (Option (List PreserveBucket))
unfolding split_last text_eq parse_u32
parse_buckets [] = ok (some [])
parse_buckets (token ∷ tokens) =
    let others = parse_buckets tokens in
    do
      (count_str, unit_char) ← split_last token
      elim (bucket_of (count_of count_str) (unit_of unit_char)) [
        | none ↦ ok none
        | some bucket ↦ others >>= λ rest.
            ok (elim rest [ none ↦ none | some buckets ↦ some (bucket ∷ buckets) ])
      ]

abbrev pub schedule_of : Option (List PreserveBucket) → Option PreserveSchedule
schedule_of none = none
schedule_of (some []) = none
schedule_of (some (b ∷ buckets)) = some (record { buckets = b ∷ buckets })

-- `PreserveSchedule::parse`; an empty text has no token.
unfoldable pub parse_schedule : Text → Br (Option PreserveSchedule)
unfolding trim words parse_buckets
parse_schedule s = do buckets ← parse_buckets (words [] (trim s)); ok (schedule_of buckets)

unfoldable pub coarsest_duration : PreserveSchedule → Option CalendarDuration
coarsest_duration s = elim (get_last? s.buckets) [
  | none ↦ none
  | some b ↦ some (record { days = days_of b.unit })
]

pub data Weekday : Type 0 where
  monday : Weekday
  tuesday : Weekday
  wednesday : Weekday
  thursday : Weekday
  friday : Weekday
  saturday : Weekday
  sunday : Weekday

-- `to_lowercase`, which makes a letter of the names below from no character outside ASCII
abbrev pub lowercase : ℕ → ℕ
lowercase c = if leb b'A' c && leb c b'Z' then c + 32 else c

weekday_of : Text → Option Weekday
unfolding text text_eq
weekday_of s =
    if text_eq s (text "monday")
    then some monday
    else if text_eq s (text "tuesday")
    then some tuesday
    else if text_eq s (text "wednesday")
    then some wednesday
    else if text_eq s (text "thursday")
    then some thursday
    else if text_eq s (text "friday")
    then some friday
    else if text_eq s (text "saturday")
    then some saturday
    else if text_eq s (text "sunday")
    then some sunday
    else none

unfoldable pub parse_weekday : Text → Option Weekday
unfolding trim weekday_of
parse_weekday s = weekday_of (map lowercase (trim s))
