-- ===== src/Scheduling/Registry.antt =====
-- core/scheduling_authority/src/registry.ts.
use imip.Base.{String, List, filter, ◌===◌, Result, ok, or_throw, ◌>>=◌, ◌>>◌, throw_if}
use imip.Base.Dict.{Dict, get, has, put, delete, values}
use imip.Scheduling.Types.{
  ScheduleDefinition, SchedulingError, duplicate_schedule, schedule_not_found,
}

abbrev pub Schedules : Type 0
Schedules = Dict ScheduleDefinition

unfoldable pub require : String → Schedules → Result SchedulingError ScheduleDefinition
require schedule_id schedules =
    or_throw (get schedule_id schedules) (schedule_not_found schedule_id)

unfoldable pub register : ScheduleDefinition → Schedules → Result SchedulingError Schedules
unfolding has
register schedule schedules = do
  throw_if (has schedule.schedule_id schedules) (duplicate_schedule schedule.schedule_id)
  ok (put schedule.schedule_id schedule schedules)

unfoldable pub update : ScheduleDefinition → Schedules → Result SchedulingError Schedules
unfolding require
update schedule schedules = do
  known ← require schedule.schedule_id schedules
  ok (put schedule.schedule_id schedule schedules)

unfoldable pub remove : String → Schedules → Result SchedulingError Schedules
unfolding require
remove schedule_id schedules = do
  known ← require schedule_id schedules
  ok (delete schedule_id schedules)

unfoldable pub by_owner : String → Schedules → List ScheduleDefinition
by_owner owner_authority schedules =
    filter (λ s. s.owner_authority === owner_authority) (values schedules)
