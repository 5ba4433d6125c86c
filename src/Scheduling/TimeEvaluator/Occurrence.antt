-- ===== src/Scheduling/TimeEvaluator/Occurrence.antt =====
-- When a daily or weekly trigger is due next.
use imip.Base.{ℕ, ◌+◌, ◌-◌, ◌*◌, ◌/◌, ◌%◌, ◌≤◌, ◌<◌, ◌≡◌, ◌&&◌, leb, ◌==◌, if◌then◌else◌, arith}
use imip.Scheduling.Types.{TimeOfDay, TimeOfWeek}
use imip.Scheduling.TimeEvaluator.{
  day_ms, time_ms, day_of, next_daily_occurrence, next_weekly_occurrence,
}

-- The moment `at` is the first after `from` of those that `P` names.
pub record IsFirstAfter (from : ℕ) (P : ℕ → Type 0) (at : ℕ) : Type 0 where
  pub later : from < at
  pub named : P at
  pub first : (other : ℕ) → from < other → P other → at ≤ other

abbrev pub AtTime : ℕ → ℕ → ℕ → Type 0
AtTime hour minute at = at % day_ms ≡ time_ms hour minute

pub next_daily-IsFirstAfter :
    (d : TimeOfDay) (from : ℕ)
    → d.hour < 24
    → d.minute < 60
    → IsFirstAfter from (AtTime d.hour d.minute) (next_daily_occurrence d from)
unfolding next_daily_occurrence
next_daily-IsFirstAfter d from h m = record {
  later = ground arith;
  named = ground arith;
  first = λ other after named. ground arith;
}

-- How many days ahead the day of the week is: from the day `x` on, none at least and six at most.
ahead : ℕ → ℕ → ℕ
ahead day x = (day + 7 - x % 7) % 7

ahead_lem : (day x : ℕ) → day < 7 → (ahead day x < 7) × ((x + ahead day x) % 7 ≡ day)
unfolding ahead
ahead_lem day x h = (omega arith, omega arith)

ahead_first :
    (day x y : ℕ)
    → day < 7
    → x ≤ y
    → y % 7 ≡ day
    → (x + ahead day x ≤ y) × (x < y → ahead day x ≡ 0 → x + 7 ≤ y)
unfolding ahead
ahead_first day x y h le e = (omega arith, omega arith)

module _ (w : TimeOfWeek) (from : ℕ) (d : w.day_of_week < 7) (h : w.hour < 24)
    (m : w.minute < 60) where
  abbrev today : ℕ
  today = from / day_ms

  abbrev due : ℕ
  due = time_ms w.hour w.minute

  abbrev delta : ℕ
  delta = ahead w.day_of_week (today + 4)

  abbrev shift : ℕ
  shift = if delta == 0 && leb (today * day_ms + due) from then 7 else delta

  next_weekly_lem : next_weekly_occurrence w from ≡ today * day_ms + due + shift * day_ms
  unfolding next_weekly_occurrence ahead
  next_weekly_lem = let e : (today * day_ms + due) / day_ms ≡ today = omega arith in rw e

  shift_later : from < today * day_ms + due + shift * day_ms
  shift_later = ground arith

  shift_named :
      ((today * day_ms + due + shift * day_ms) % day_ms ≡ due)
      × (day_of (today * day_ms + due + shift * day_ms) ≡ w.day_of_week)
  shift_named = (omega arith, ground (arith, ahead_lem w.day_of_week (today + 4) d))

  shift_first :
      (other : ℕ)
      → from < other
      → other % day_ms ≡ due
      → day_of other ≡ w.day_of_week
      → today * day_ms + due + shift * day_ms ≤ other
  shift_first other after at day =
      ground (arith, ahead_first w.day_of_week (today + 4) (other / day_ms + 4) d (omega arith) day)

-- The next occurrence of a weekly trigger is the first moment after the present one that has its day of
-- the week and its time of the day.
pub next_weekly-IsFirstAfter :
    (w : TimeOfWeek) (from : ℕ)
    → w.day_of_week < 7
    → w.hour < 24
    → w.minute < 60
    → IsFirstAfter from
        (λ at. AtTime w.hour w.minute at × (day_of at ≡ w.day_of_week))
        (next_weekly_occurrence w from)
next_weekly-IsFirstAfter w from d h m = rw (next_weekly_lem w from d h m) (record {
  later = shift_later w from d h m;
  named = shift_named w from d h m;
  first = λ other after named. shift_first w from d h m other after named.0 named.1;
})
