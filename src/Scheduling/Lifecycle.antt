-- ===== src/Scheduling/Lifecycle.antt =====
-- core/scheduling_authority/src/lifecycle.ts.
use imip.Base.{Bool, List, [], ◌∷◌, any, Result, ok, err, if◌then◌else◌, decided}
use imip.Scheduling.Types.{
  ScheduleStatus, created, validated, registered, eligible, scheduled, executing, completed, failed,
  rescheduled, paused, cancelled, retired, SchedulingError, invalid_transition,
}

unfoldable pub ScheduleStatus-discrete : Discrete ScheduleStatus
ScheduleStatus-discrete = hlevel

unfoldable pub transitions : ScheduleStatus → List ScheduleStatus
transitions created = validated ∷ []
transitions validated = registered ∷ []
transitions registered = eligible ∷ paused ∷ cancelled ∷ []
transitions eligible = scheduled ∷ paused ∷ cancelled ∷ retired ∷ []
transitions scheduled = executing ∷ paused ∷ cancelled ∷ []
transitions executing = completed ∷ failed ∷ []
transitions completed = rescheduled ∷ retired ∷ []
transitions failed = rescheduled ∷ retired ∷ []
transitions rescheduled = eligible ∷ []
transitions paused = eligible ∷ cancelled ∷ []
transitions cancelled = []
transitions retired = []

unfoldable pub may_become : ScheduleStatus → ScheduleStatus → Bool
unfolding transitions ScheduleStatus-discrete
may_become from to = any (λ s. decided (ScheduleStatus-discrete s to)) (transitions from)

unfoldable pub assert_schedule_transition :
    ScheduleStatus → ScheduleStatus → Result SchedulingError (Unit {0})
unfolding may_become
assert_schedule_transition from to =
    if may_become from to then ok tt else err (invalid_transition from to)
