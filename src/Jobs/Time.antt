-- ===== src/Jobs/Time.antt =====
-- frontend/lib/jobs.ts: `protoTimestampToDate`, `formatTimestamp` and `formatRelativeTime`.
-- Times are taken from 1970 on. `toLocaleString` depends on the locale data and the time zone of
-- the browser and is a parameter.
use yt_trending_pipeline.Prelude.{
  ℕ, ◌+◌, ◌-◌, ◌*◌, ◌/◌, ◌≤◌, ◌≡◌, Option, none, some, ◌++◌, Str, text, JsNum, leb, ltb,
  if◌then◌else◌, ℤ, pos, negsuc, int_text, decimal, arith,
}
use yt_trending_pipeline.Types.{ProtoTimestamp}

-- A `Date` by its time value in milliseconds; `none` is an invalid date, whose time is `NaN`.
pub record JsDate : Type 0 where
  pub time : JsNum

-- `new Date(ms)`: a time value past the last representable one is `NaN`
abbrev new_date : JsNum → JsDate
new_date none = record { time = none }
new_date (some ms) = record { time = if leb ms 8640000000000000 then some ms else none }

-- `undefined * 1000` and `Math.floor(undefined / 1_000_000)` are `NaN`
abbrev milliseconds : JsNum → JsNum → JsNum
milliseconds (some seconds) (some nanos) = some (seconds * 1000 + nanos / 1000000)
milliseconds _ _ = none

unfoldable pub proto_timestamp_to_date : Option ProtoTimestamp → Option JsDate
proto_timestamp_to_date none = none
proto_timestamp_to_date (some ts) = some (new_date (milliseconds ts.seconds ts.nanos))

-- `Math.floor((now - time) / 1000)`, which is negative for a time in the future
abbrev pub elapsed : ℕ → ℕ → ℤ
elapsed now time =
    if leb time now then pos ((now - time) / 1000) else negsuc ((time - now - 1) / 1000)

-- the branches of `formatRelativeTime` from `seconds < 60` on
relative : ℤ → Str → Str
relative (negsuc n) absolute = int_text (negsuc n) ++ text "s ago"
relative (pos seconds) absolute =
    let minutes = seconds / 60 in
    let hours = minutes / 60 in
    if ltb seconds 60
    then decimal seconds ++ text "s ago"
    else if ltb minutes 60
    then decimal minutes ++ text "m ago"
    else if ltb hours 24
    then decimal hours ++ text "h ago"
    else absolute

module _ (to_locale_string : JsDate → Str) where
  unfoldable pub format_timestamp : Option ProtoTimestamp → Str
  unfolding proto_timestamp_to_date
  format_timestamp ts = elim (proto_timestamp_to_date ts) [
    | none ↦ text "—"
    | some date ↦ to_locale_string date
  ]

  -- every comparison with `NaN` fails, so an invalid date falls through to the last line
  unfoldable pub format_relative_time : ℕ → Option ProtoTimestamp → Str
  unfolding proto_timestamp_to_date relative format_timestamp
  format_relative_time now ts = elim (proto_timestamp_to_date ts) [
    | none ↦ text "—"
    | some date ↦ elim date.time [
      | none ↦ format_timestamp ts
      | some time ↦ relative (elapsed now time) (format_timestamp ts)
    ]
  ]

-- An age in milliseconds, read off directly: whole seconds, minutes, hours, or the date itself.
abbrev pub age_text : ℕ → Str → Str
age_text age absolute =
    if ltb age 60000
    then decimal (age / 1000) ++ text "s ago"
    else if ltb age 3600000
    then decimal (age / 60000) ++ text "m ago"
    else if ltb age 86400000
    then decimal (age / 3600000) ++ text "h ago"
    else absolute

relative-age_text :
    (age : ℕ) (absolute : Str) → relative (pos (age / 1000)) absolute ≡ age_text age absolute
unfolding relative
relative-age_text age absolute =
    let minutes : age / 1000 / 60 ≡ age / 60000 = omega arith in
    let hours : age / 60000 / 60 ≡ age / 3600000 = omega arith in rw (minutes, hours) (ground arith)

-- For a valid timestamp that is not in the future, at `time` milliseconds, the text is read off
-- the age `now - time`: below a minute its seconds, below an hour its minutes, below a day its
-- hours, and from a day on the date.
pub format_relative_time_lem :
    (to_locale_string : JsDate → Str) (now time : ℕ) (ts : ProtoTimestamp)
    → proto_timestamp_to_date (some ts) ≡ some (record { time = some time })
    → time ≤ now
    → format_relative_time to_locale_string now (some ts)
      ≡ age_text (now - time) (format_timestamp to_locale_string (some ts))
unfolding format_relative_time
format_relative_time_lem to_locale_string now time ts valid past =
    ground (arith, relative-age_text (now - time) (format_timestamp to_locale_string (some ts)))
