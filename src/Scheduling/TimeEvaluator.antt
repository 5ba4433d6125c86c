-- ===== src/Scheduling/TimeEvaluator.antt =====
-- core/scheduling_authority/src/timeEvaluator.ts, in milliseconds since the epoch, which was a Thursday.
-- A moment later than `max_date` is no valid `Date`: its text cannot be read, and `toISOString` throws.
-- `Date.UTC` of a day and a time is the start of the day and the time; `setUTCDate` adds whole days.
pub mod Occurrence
use imip.Base.{
  ℕ, ◌+◌, ◌-◌, ◌*◌, ◌/◌, ◌%◌, Bool, true, false, ◌&&◌, Option, none, some, ltb, leb, ◌==◌,
  if◌then◌else◌, Result, ok, err,
}
use imip.Scheduling.Types.{TimeOfDay, TimeOfWeek, TimeTrigger, SchedulingError, invalid_time}

abbrev pub max_date : ℕ
max_date = 8640000000000000

unfoldable pub to_iso_string : ℕ → Result SchedulingError ℕ
to_iso_string at = if leb at max_date then ok at else err invalid_time

abbrev pub day_ms : ℕ
day_ms = 86400000

abbrev pub time_ms : ℕ → ℕ → ℕ
time_ms hour minute = hour * 3600000 + minute * 60000

-- `getUTCDay`: 0 is a Sunday.
abbrev pub day_of : ℕ → ℕ
day_of at = (at / day_ms + 4) % 7

abbrev pub on_day_of : ℕ → ℕ → ℕ → ℕ
on_day_of from hour minute = from / day_ms * day_ms + time_ms hour minute

unfoldable pub next_daily_occurrence : TimeOfDay → ℕ → ℕ
next_daily_occurrence daily_at from =
    let candidate = on_day_of from daily_at.hour daily_at.minute in
    if leb candidate from then candidate + day_ms else candidate

unfoldable pub next_weekly_occurrence : TimeOfWeek → ℕ → ℕ
next_weekly_occurrence weekly_at from =
    let candidate = on_day_of from weekly_at.hour weekly_at.minute in
    let day_delta = (weekly_at.day_of_week + 7 - day_of candidate) % 7 in
    candidate + (if day_delta == 0 && leb candidate from then 7 else day_delta) * day_ms

abbrev weekly_next : Option TimeOfWeek → ℕ → Option ℕ
weekly_next none from = none
weekly_next (some weekly_at) from = some (next_weekly_occurrence weekly_at from)

abbrev daily_next : Option TimeOfDay → Option TimeOfWeek → ℕ → Option ℕ
daily_next none weekly_at from = weekly_next weekly_at from
daily_next (some daily_at) weekly_at from = some (next_daily_occurrence daily_at from)

abbrev recurring_next : Option ℕ → TimeTrigger → ℕ → Option ℕ
recurring_next none trigger from = daily_next trigger.daily_at trigger.weekly_at from
recurring_next (some interval_ms) trigger from = some (from + interval_ms)

abbrev trigger_next : Option ℕ → TimeTrigger → ℕ → Option ℕ
trigger_next none trigger from = recurring_next trigger.interval_ms trigger from
trigger_next (some at) trigger from = if leb at max_date && ltb from at then some at else none

unfoldable pub compute_next_execution : TimeTrigger → ℕ → Option ℕ
unfolding next_daily_occurrence next_weekly_occurrence
compute_next_execution trigger from = trigger_next trigger.at trigger from
