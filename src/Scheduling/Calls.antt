-- ===== src/Scheduling/Calls.antt =====
-- core/scheduling_authority/src/SchedulingAuthority.ts: the methods that others call. A call runs to its
-- end before the next begins. Reasons and authorities that are only logged are left out.
use imip.Base.{
  ℕ, ◌+◌, Bool, true, false, not, ◌&&◌, ◌||◌, String, List, [], ◌∷◌, ◌++◌, Option, none, some,
  length, ltb, ◌===◌, filter, includes, if◌then◌else◌,
}
use imip.Base.Dict.{get, put, delete, values}
use imip.Base.Actions.{◌>>=◌, ◌>>◌, return, throw, change, gets, lift, for_each}
use imip.EventBus.Types.{EventPriority}
use imip.Scheduling.Types.{
  ScheduleDefinition, ScheduleInput, ScheduleStatus, ScheduleType, ScheduleTrigger,
  ScheduleExecutionHandler, ExecutionOutcome, ExecutionRecord, ExecutionResult, DelayReason,
  waiting_on, runtime_state, name_and_owner_required, not_triggerable, no_recommendation_trigger,
  schedule_created, schedule_validated, schedule_registered, schedule_delayed, schedule_cancelled,
}
use imip.Scheduling.Retry.{or_else}
use imip.Scheduling.DependencyGraph
use imip.Scheduling.TimeGraph.{last, is_blocked_at}
use imip.Scheduling.Registry
use imip.Scheduling.Authority.{
  Scheduler, SchedulingAuthorityOptions, Method, require_schedule, update_schedule,
  assert_transition, publish, push_history, forget_attempts, or_none,
}
use imip.Scheduling.Execution.{compute_next_execution_and_transition, now, execute_one}

abbrev pub is_eligible : ScheduleStatus → Bool
is_eligible ScheduleStatus.eligible = true
is_eligible _ = false

abbrev pub is_registered : ScheduleStatus → Bool
is_registered ScheduleStatus.registered = true
is_registered _ = false

abbrev or_text : Option String → String → String
or_text none text = text
or_text (some text) _ = text

abbrev or_normal : Option EventPriority → EventPriority
or_normal none = EventPriority.normal
or_normal (some priority) = priority

abbrev pub of_input : String → ScheduleInput → ℕ → ScheduleDefinition
of_input schedule_id input created_at = record {
  schedule_id = schedule_id;
  name = input.name;
  description = or_text input.description "";
  owner_authority = input.owner_authority;
  schedule_type = input.schedule_type;
  trigger = input.trigger;
  dependencies = or_none input.dependencies;
  required_runtime_state = input.required_runtime_state;
  required_devices = input.required_devices;
  required_policies = input.required_policies;
  priority = or_normal input.priority;
  retry_policy = input.retry_policy;
  timeout_ms = input.timeout_ms;
  status = ScheduleStatus.created;
  created_at = created_at;
  last_execution_at = none;
  next_execution_at = none;
}

abbrev is_success : Option ExecutionRecord → Bool
is_success none = false
is_success (some r) = elim r.result [ ExecutionResult.success ↦ true | _ ↦ false ]

abbrev reasons_if : Bool → List DelayReason → List DelayReason
reasons_if test reasons = if test then reasons else []

abbrev waits_on : List String → List DelayReason
waits_on unmet = reasons_if (ltb 0 (length unmet)) (waiting_on unmet ∷ [])

module _ {W : Type 0} where
  -- The dependencies that have no last record, or whose last record is no success.
  unfoldable pub unmet_dependencies : ScheduleDefinition → Scheduler W → List String
  unmet_dependencies schedule s =
      filter (λ id. not (is_success (last (or_none (get id s.history))))) schedule.dependencies

  abbrev in_state : Option (List String) → Option (W → String) → W → List DelayReason
  in_state (some states) (some read) w =
      reasons_if (not (includes states (read w))) (runtime_state states (read w) ∷ [])
  in_state _ _ w = []

  -- The graph takes back the entry if it throws.
  unfoldable pub register_dependencies : String → List String → Method W (Unit {0})
  register_dependencies schedule_id depends_on = λ s.
      let (graph, result) = DependencyGraph.register schedule_id depends_on s.dependencies in
      (record s { dependencies = graph }, result)

  unfoldable pub enter_schedule : ScheduleDefinition → Method W (Unit {0})
  enter_schedule schedule = λ s.
      (lift (Registry.register schedule s.registry) >>= λ more.
      change (λ s'. record s' { registry = more }))
        s

  unfoldable pub record_skipped_attempt : String → List DelayReason → ℕ → Method W (Unit {0})
  unfolding push_history
  record_skipped_attempt schedule_id reasons at = push_history schedule_id (record {
    schedule_id = schedule_id;
    attempt = 0;
    started_at = at;
    completed_at = at;
    result = ExecutionResult.skipped;
    delay_reasons = reasons;
    error = none;
  })

  unfoldable pub delay : Method W (Unit {0})
  delay = change (λ s. record s { delayed_executions = s.delayed_executions + 1 })

  unfoldable pub pause : String → Method W ScheduleDefinition
  pause schedule_id = do
    schedule ← require_schedule schedule_id
    assert_transition schedule.status ScheduleStatus.paused
    let updated = record schedule { status = ScheduleStatus.paused }
    update_schedule updated
    return updated

  unfoldable pub resume : String → Method W ScheduleDefinition
  resume schedule_id = do
    schedule ← require_schedule schedule_id
    assert_transition schedule.status ScheduleStatus.eligible
    let updated = record schedule { status = ScheduleStatus.eligible }
    update_schedule updated
    return updated

  unfoldable pub cancel : String → Method W ScheduleDefinition
  cancel schedule_id = do
    schedule ← require_schedule schedule_id
    assert_transition schedule.status ScheduleStatus.cancelled
    let updated = record schedule { status = ScheduleStatus.cancelled }
    update_schedule updated
    change (λ s. record s { dependencies = delete schedule_id s.dependencies })
    forget_attempts schedule_id
    publish (schedule_cancelled schedule_id)
    return updated

  module _ (options : SchedulingAuthorityOptions W) where
    unfoldable pub register_schedule :
        String → ScheduleInput → ScheduleExecutionHandler W → Method W ScheduleDefinition
    register_schedule fresh input handler = do
      if input.name === "" || input.owner_authority === ""
          then throw name_and_owner_required
          else return tt
      created_at ← now options
      let schedule = of_input fresh input created_at
      publish (schedule_created fresh)
      assert_transition ScheduleStatus.created ScheduleStatus.validated
      publish (schedule_validated fresh)
      register_dependencies fresh schedule.dependencies
      assert_transition ScheduleStatus.validated ScheduleStatus.registered
      enter_schedule (record schedule { status = ScheduleStatus.registered })
      change (λ s. record s {
        handlers = put fresh handler s.handlers;
        history = put fresh [] s.history;
        scheduled_jobs = s.scheduled_jobs + 1;
      })
      assert_transition ScheduleStatus.registered ScheduleStatus.eligible
      at ← now options
      entered ← lift (
          compute_next_execution_and_transition
            (record schedule { status = ScheduleStatus.eligible }) at)
      update_schedule entered
      publish (schedule_registered fresh)
      return entered

    unfoldable pub check_eligibility : ScheduleDefinition → ℕ → Scheduler W → List DelayReason
    unfolding unmet_dependencies
    check_eligibility schedule at s =
        let policy = options.policy_evaluator schedule at in
        let resource = options.resource_evaluator schedule at in
        waits_on (unmet_dependencies schedule s)
        ++ in_state schedule.required_runtime_state options.runtime_state s.world
        ++ is_blocked_at at s.windows
        ++ reasons_if (not policy.approved) policy.reasons
        ++ reasons_if (not resource.approved) resource.reasons

    unfoldable pub trigger_manually : String → Method W ExecutionOutcome
    trigger_manually schedule_id = do
      schedule ← require_schedule schedule_id
      if not (is_eligible schedule.status) && not (is_registered schedule.status)
          then throw (not_triggerable schedule_id schedule.status)
          else return tt
      let current = record schedule { status = ScheduleStatus.eligible }
      if is_eligible schedule.status then return tt else (do
        assert_transition schedule.status ScheduleStatus.eligible
        update_schedule current)
      forget_attempts schedule_id
      at ← now options
      execute_one options current ScheduleType.manual at

    unfoldable pub attempt_or_delay :
        ScheduleDefinition → ScheduleType → ℕ → Method W (Option ExecutionOutcome)
    attempt_or_delay schedule triggered_by at = do
      reasons ← gets (check_eligibility schedule at)
      if ltb 0 (length reasons)
          then (do
            delay
            publish (schedule_delayed schedule.schedule_id)
            record_skipped_attempt schedule.schedule_id reasons at
            return none)
          else (do outcome ← execute_one options schedule triggered_by at; return (some outcome))

    abbrev pub listens_to : String → ScheduleTrigger → Bool
    listens_to event_name (ScheduleTrigger.event name) = name === event_name
    listens_to event_name _ = false

    abbrev pub hears : String → ScheduleDefinition → Bool
    hears event_name schedule =
        is_eligible schedule.status && listens_to event_name schedule.trigger

    unfoldable pub notified : String → ℕ → ScheduleDefinition → Method W (Unit {0})
    notified event_name at schedule =
        if hears event_name schedule
        then (do outcome ← attempt_or_delay schedule ScheduleType.event at; return tt)
        else return tt

    unfoldable pub notify_event : String → Method W (Unit {0})
    notify_event event_name = do
      at ← now options
      schedules ← gets (λ s. values s.registry)
      for_each schedules (notified event_name at)

    unfoldable pub recommended :
        ScheduleDefinition → ℕ → ScheduleTrigger → Method W (Option ExecutionOutcome)
    recommended schedule confidence (ScheduleTrigger.ai_recommendation least) =
        if not (is_eligible schedule.status)
        then return none
        else if ltb confidence (or_else least 0)
        then return none
        else (do at ← now options; attempt_or_delay schedule ScheduleType.ai_recommendation at)
    recommended schedule confidence _ = throw (no_recommendation_trigger schedule.schedule_id)

    unfoldable pub notify_recommendation : String → ℕ → Method W (Option ExecutionOutcome)
    notify_recommendation schedule_id confidence = do
      schedule ← require_schedule schedule_id
      recommended schedule confidence schedule.trigger
