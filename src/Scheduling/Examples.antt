-- ===== src/Scheduling/Examples.antt =====
-- Runs of the scheduling authority: a job that is due every minute and fails.
use imip.Base.{
  ℕ, ◌+◌, ◌*◌, ◌%◌, ◌≡◌, refl, true, String, List, [], ◌∷◌, Option, none, some, ok, err, ◌⊎◌, All,
  includes, map, ◌<◌, arith, str_discrete,
}
use imip.Base.Dict.{get, put, delete, keys, values}
use imip.Base.Keyed.{IsKeyed}
use imip.EventBus.Types.{EventPriority}
use imip.Scheduling.Types.{
  ScheduleDefinition, ScheduleInput, ScheduleStatus, ScheduleType, ScheduleTrigger, TimeOfWeek,
  RetryPolicy, RetryStrategy, ScheduleExecutionHandler, circular_dependency, invalid_time,
}
use imip.Scheduling.TimeEvaluator.{next_weekly_occurrence, day_of}
use imip.Scheduling.TimeEvaluator.Occurrence.{IsFirstAfter, AtTime, next_weekly-IsFirstAfter}
use imip.Scheduling.DependencyGraph.{Dependencies}
use imip.Scheduling.DependencyGraph
use imip.Scheduling.DependencyGraph.Cycles.{IsOrdered, IsClosed, register_lem}
use imip.Scheduling.Retry.{compute_retry_delay_ms, delay_of}
use imip.Scheduling.Evaluators.{permissive_policy_evaluator, permissive_resource_evaluator}
use imip.Scheduling.Authority.{
  Scheduler, SchedulingAuthorityOptions, new_scheduler, publish, assert_transition,
}
use imip.Base.Actions.{continue, lift}
use imip.Scheduling.Lifecycle.{assert_schedule_transition}
use imip.Scheduling.Registry
use imip.Scheduling.Execution.{now, compute_next_execution_and_transition}
use imip.Scheduling.Calls.{register_schedule, register_dependencies, enter_schedule}
use imip.Scheduling.Tick.{after_calls, registering, ticking, triggering, resuming}
use imip.Scheduling.Staying.Final.{after_calls-final}
use imip.Scheduling.Resting.{IsResting}
use imip.Scheduling.Resting.Methods.{calls-IsResting}
use imip.Scheduling.Retrying.{IsDue, HasFailed, StaysInDates, rounds, retries-end}

-- The world is its clock.
abbrev options : SchedulingAuthorityOptions ℕ
options = record {
  policy_evaluator = permissive_policy_evaluator;
  resource_evaluator = permissive_resource_evaluator;
  runtime_state = none;
  clock = λ w. w;
}

abbrev breaks : ScheduleExecutionHandler ℕ
breaks context w = (w + 5, err "no")

abbrev twice : RetryPolicy
twice = record {
  strategy = RetryStrategy.exponential_backoff;
  max_attempts = some 2;
  interval_ms = none;
  backoff_multiplier = none;
}

abbrev minutely : ScheduleInput
minutely = record {
  name = "probe";
  description = none;
  owner_authority = "Miner";
  schedule_type = ScheduleType.time;
  trigger =
      ScheduleTrigger.time
        (record { interval_ms = some 60000; daily_at = none; weekly_at = none; at = none });
  dependencies = none;
  required_runtime_state = none;
  required_devices = none;
  required_policies = none;
  priority = none;
  retry_policy = some twice;
  timeout_ms = none;
}

abbrev probe : ScheduleStatus → Option ℕ → Option ℕ → ScheduleDefinition
probe status last next = record {
  schedule_id = "s1";
  name = "probe";
  description = "";
  owner_authority = "Miner";
  schedule_type = ScheduleType.time;
  trigger = minutely.trigger;
  dependencies = [];
  required_runtime_state = none;
  required_devices = none;
  required_policies = none;
  priority = EventPriority.normal;
  retry_policy = some twice;
  timeout_ms = none;
  status = status;
  created_at = 100;
  last_execution_at = last;
  next_execution_at = next;
}

abbrev registered : Scheduler ℕ
registered = record {
  registry = ("s1", probe ScheduleStatus.eligible none (some 60100)) ∷ [];
  dependencies = ("s1", []) ∷ [];
  windows = [];
  handlers = ("s1", breaks) ∷ [];
  history = ("s1", []) ∷ [];
  attempt_counts = [];
  scheduled_jobs = 1;
  successful_executions = 0;
  failed_executions = 0;
  delayed_executions = 0;
  retry_count = 0;
  events = [];
  world = 100;
}

abbrev broken : Scheduler ℕ
broken = record registered {
  registry = ("s1", probe ScheduleStatus.failed (some 60100) (some 60100)) ∷ [];
}

calls-IsResting_example : IsResting options (
    after_calls options (registering "s1" minutely breaks ∷ ticking 60100 ∷ []) (new_scheduler 100))
calls-IsResting_example =
    calls-IsResting options (registering "s1" minutely breaks ∷ ticking 60100 ∷ []) 100

broken-IsKeyed : IsKeyed (λ e. e.schedule_id) broken.registry
unfolding get
broken-IsKeyed = (refl, refl, tt)

broken-get : get "s1" broken.registry ≡ some (probe ScheduleStatus.failed (some 60100) (some 60100))
unfolding get str_discrete
broken-get = refl

after_calls-final_example :
    get "s1"
      (after_calls options (resuming "s1" ∷ triggering "s1" ∷ ticking 99999 ∷ []) broken).registry
    ≡ some (probe ScheduleStatus.failed (some 60100) (some 60100))
after_calls-final_example =
    after_calls-final options "s1" (probe ScheduleStatus.failed (some 60100) (some 60100))
      (resuming "s1" ∷ triggering "s1" ∷ ticking 99999 ∷ []) broken refl broken-IsKeyed broken-get

registered-IsDue : IsDue "s1" breaks twice 1 registered
unfolding get str_discrete
registered-IsDue = record {
  schedule = probe ScheduleStatus.eligible none (some 60100);
  named = refl;
  status = refl;
  policy = refl;
  entry = refl;
  handler = refl;
  count = refl;
}

-- An interval of nine million billion milliseconds: the call throws, and the schedule stays registered.
abbrev endless : ScheduleInput
endless = record minutely {
  trigger = ScheduleTrigger.time (record {
    interval_ms = some 9000000000000000;
    daily_at = none;
    weekly_at = none;
    at = none;
  });
}

endless-stranded :
    let after = register_schedule options "s2" endless breaks (new_scheduler 100) in
    (after.1 ≡ err invalid_time)
    × (map (λ d. d.status) (values after.0.registry) ≡ ScheduleStatus.registered ∷ [])
unfolding register_schedule continue str_discrete now publish assert_transition lift
    assert_schedule_transition register_dependencies DependencyGraph.register put new_scheduler get
    enter_schedule Registry.register compute_next_execution_and_transition
endless-stranded = (refl, refl)

-- A clock that goes round.
abbrev round_options : SchedulingAuthorityOptions ℕ
round_options = record options { clock = λ w. w % 1000000000 }

twice-StaysInDates : StaysInDates "s1" breaks round_options twice
unfolding compute_retry_delay_ms delay_of
twice-StaysInDates k ms e w = ground (arith, e)

retries-end_example :
    ((rounds "s1" breaks round_options ScheduleType.time (60100 ∷ 61200 ∷ []) registered).1 ≡ ok tt)
    × (2 < 2
        → IsDue "s1" breaks twice
            (1 + 2)
            (rounds "s1" breaks round_options ScheduleType.time (60100 ∷ 61200 ∷ []) registered).0)
    × (◌≡◌ {A = ℕ} 2 2
        → HasFailed "s1"
            (rounds "s1" breaks round_options ScheduleType.time (60100 ∷ 61200 ∷ []) registered).0)
retries-end_example =
    retries-end round_options "s1" breaks twice 2 ScheduleType.time (60100 ∷ 61200 ∷ []) registered
      (λ c w. refl) refl (λ e. cc) twice-StaysInDates registered-IsDue (omega arith) (omega arith)

-- Thursday, 1 January 1970, 01:00; the next Monday at 06:30.
abbrev monday : TimeOfWeek
monday = record { day_of_week = 1; hour = 6; minute = 30 }

next_weekly-IsFirstAfter_example :
    IsFirstAfter 3600000
      (λ at. AtTime 6 30 at × (day_of at ≡ 1))
      (next_weekly_occurrence monday 3600000)
next_weekly-IsFirstAfter_example =
    next_weekly-IsFirstAfter monday 3600000 (omega arith) (omega arith) (omega arith)

monday_runs : next_weekly_occurrence monday 3600000 ≡ 4 * 86400000 + 6 * 3600000 + 30 * 60000
unfolding next_weekly_occurrence
monday_runs = refl

abbrev chain : Dependencies
chain = ("b", "a" ∷ []) ∷ ("c", "b" ∷ []) ∷ []

register_lem_example :
    let more = put "a" ("c" ∷ []) chain in
    ((DependencyGraph.register "a" ("c" ∷ []) chain ≡ (more, ok tt))
      × (seen : List String) × IsOrdered more seen
      × All (λ d. includes seen d ≡ true) (keys more))
    ⊎ ((nodes : List String) × (DependencyGraph.register "a" ("c" ∷ []) chain
          ≡ (delete "a" more, err (circular_dependency nodes)))
        × IsClosed more nodes)
register_lem_example = register_lem "a" ("c" ∷ []) chain

chain_closed :
    DependencyGraph.register "a" ("c" ∷ []) chain
    ≡ (chain, err (circular_dependency ("b" ∷ "a" ∷ "c" ∷ "b" ∷ [])))
unfolding DependencyGraph.register DependencyGraph.find_cycle DependencyGraph.search
    DependencyGraph.visit_each DependencyGraph.visit DependencyGraph.dependencies_of get put delete
    str_discrete
chain_closed = refl
