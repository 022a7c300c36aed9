-- ===== src/RuntimeKernel/StateMachine.antt =====
-- `RuntimeStateMachine` of crates/runtime_kernel/src/lib.rs. A method on `&mut self` returns the new
-- machine; one that can fail returns it with the result.
use tv_bot_core.Base.{
  Bool, true, false, Option, none, some, String, Result, ok, err, ◌&&◌, not, if◌then◌else◌, trim,
}
use tv_bot_core.Base.Text
use tv_bot_core.External.{Externals}
use tv_bot_core.CoreTypes.{
  RuntimeMode, ActiveRuntimeMode, ArmState, WarmupStatus, ArmReadinessReport, mode_eq, is_ready,
  is_armed, has_blocking_issues,
}

pub record RuntimeStateMachine : Type 0 where
  pub current_mode : RuntimeMode
  pub last_active_mode : Option ActiveRuntimeMode
  pub arm_state : ArmState
  pub warmup_status : WarmupStatus
  pub strategy_loaded : Bool
  pub hard_override_active : Bool
  pub new_entries_enabled : Bool
  pub new_entries_reason : Option String

pub data RuntimeKernelError : Type 0 where
  resume_target_unknown strategy_not_loaded warmup_not_ready : RuntimeKernelError
  cannot_arm_in_mode : (mode : RuntimeMode) → RuntimeKernelError
  report_mode_mismatch readiness_blocked override_required : RuntimeKernelError

abbrev pub Outcome : Type 0
Outcome = RuntimeStateMachine × Result RuntimeKernelError (Unit {0})

abbrev pub active_mode_for : RuntimeMode → Option ActiveRuntimeMode
active_mode_for RuntimeMode.paper = some ActiveRuntimeMode.paper
active_mode_for RuntimeMode.live = some ActiveRuntimeMode.live
active_mode_for RuntimeMode.observation = some ActiveRuntimeMode.observation
active_mode_for RuntimeMode.paused = none

abbrev pub mode_of_active : ActiveRuntimeMode → RuntimeMode
mode_of_active ActiveRuntimeMode.paper = RuntimeMode.paper
mode_of_active ActiveRuntimeMode.live = RuntimeMode.live
mode_of_active ActiveRuntimeMode.observation = RuntimeMode.observation

-- `matches!(mode, RuntimeMode::Paper | RuntimeMode::Live)`
abbrev pub is_trading : RuntimeMode → Bool
is_trading RuntimeMode.paper = true
is_trading RuntimeMode.live = true
is_trading _ = false

abbrev is_active : RuntimeMode → Bool
is_active RuntimeMode.paused = false
is_active _ = true

abbrev is_observation : RuntimeMode → Bool
is_observation RuntimeMode.observation = true
is_observation _ = false

abbrev or_else : Option ActiveRuntimeMode → Option ActiveRuntimeMode → Option ActiveRuntimeMode
or_else none old = old
or_else (some mode) old = some mode

abbrev disarmed : RuntimeStateMachine → RuntimeStateMachine
disarmed s = record s { arm_state = ArmState.disarmed; hard_override_active = false }

unfoldable pub new : RuntimeMode → RuntimeStateMachine
new startup_mode = record {
  current_mode = startup_mode;
  last_active_mode = active_mode_for startup_mode;
  arm_state = ArmState.disarmed;
  warmup_status = WarmupStatus.not_loaded;
  strategy_loaded = false;
  hard_override_active = false;
  new_entries_enabled = true;
  new_entries_reason = none;
}

unfoldable pub switch_mode : RuntimeStateMachine → RuntimeMode → RuntimeStateMachine
switch_mode s mode =
    let left = if not (mode_eq s.current_mode mode) && is_active mode then disarmed s else s in
    let kept = record left {
      last_active_mode = or_else (active_mode_for mode) left.last_active_mode;
    } in
    let safe = if is_observation mode then disarmed kept else kept in
    record safe { current_mode = mode }

unfoldable pub pause : RuntimeStateMachine → RuntimeStateMachine
pause s = record s {
  last_active_mode = or_else (active_mode_for s.current_mode) s.last_active_mode;
  current_mode = RuntimeMode.paused;
}

abbrev resume_at : Option ActiveRuntimeMode → RuntimeStateMachine → Outcome
resume_at none s = (s, err RuntimeKernelError.resume_target_unknown)
resume_at (some mode) s = (record s { current_mode = mode_of_active mode }, ok tt)

unfoldable pub resume : RuntimeStateMachine → Outcome
resume s = resume_at s.last_active_mode s

unfoldable pub mark_strategy_loaded : RuntimeStateMachine → RuntimeStateMachine
mark_strategy_loaded s = record s {
  strategy_loaded = true;
  warmup_status = WarmupStatus.loaded;
  arm_state = ArmState.disarmed;
  hard_override_active = false;
}

unfoldable pub unload_strategy : RuntimeStateMachine → RuntimeStateMachine
unload_strategy s = record s {
  strategy_loaded = false;
  warmup_status = WarmupStatus.not_loaded;
  arm_state = ArmState.disarmed;
  hard_override_active = false;
}

unfoldable pub start_warmup : RuntimeStateMachine → Outcome
start_warmup s =
    if s.strategy_loaded
    then (record s { warmup_status = WarmupStatus.warming }, ok tt)
    else (s, err RuntimeKernelError.strategy_not_loaded)

unfoldable pub mark_warmup_ready : RuntimeStateMachine → Outcome
mark_warmup_ready s =
    if s.strategy_loaded
    then (record s { warmup_status = WarmupStatus.ready }, ok tt)
    else (s, err RuntimeKernelError.strategy_not_loaded)

unfoldable pub mark_warmup_failed : RuntimeStateMachine → Outcome
mark_warmup_failed s =
    if s.strategy_loaded
    then (disarmed (record s { warmup_status = WarmupStatus.failed }), ok tt)
    else (s, err RuntimeKernelError.strategy_not_loaded)

abbrev is_failed : WarmupStatus → Bool
is_failed WarmupStatus.failed = true
is_failed _ = false

-- The progress enters by its status, the one field that the method reads.
unfoldable pub sync_warmup_progress : RuntimeStateMachine → WarmupStatus → Outcome
sync_warmup_progress s status =
    if s.strategy_loaded
    then (let moved = record s { warmup_status = status } in
        (if is_failed status then disarmed moved else moved, ok tt))
    else (s, err RuntimeKernelError.strategy_not_loaded)

module _ {X : Externals} where
  -- The early returns of `arm`.
  unfoldable pub arm_error :
      RuntimeStateMachine → ArmReadinessReport X → Bool → Option RuntimeKernelError
  unfolding has_blocking_issues
  arm_error s readiness allow_override =
      if not (is_trading s.current_mode)
      then some (RuntimeKernelError.cannot_arm_in_mode s.current_mode)
      else if not (mode_eq readiness.mode s.current_mode)
      then some RuntimeKernelError.report_mode_mismatch
      else if not s.strategy_loaded
      then some RuntimeKernelError.strategy_not_loaded
      else if not (is_ready s.warmup_status)
      then some RuntimeKernelError.warmup_not_ready
      else if has_blocking_issues readiness
      then some RuntimeKernelError.readiness_blocked
      else if readiness.hard_override_required && not allow_override
      then some RuntimeKernelError.override_required
      else none

  abbrev finish_arm :
      Option RuntimeKernelError → RuntimeStateMachine → ArmReadinessReport X → Bool → Outcome
  finish_arm (some e) s readiness allow_override = (s, err e)
  finish_arm none s readiness allow_override = (
    record s {
      arm_state = ArmState.armed;
      hard_override_active = readiness.hard_override_required && allow_override;
    },
    ok tt,
  )

  unfoldable pub arm : RuntimeStateMachine → ArmReadinessReport X → Bool → Outcome
  unfolding arm_error
  arm s readiness allow_override =
      finish_arm (arm_error s readiness allow_override) s readiness allow_override

unfoldable pub disarm : RuntimeStateMachine → RuntimeStateMachine
disarm s = disarmed s

abbrev given_reason : Option String → Option String
given_reason none = none
given_reason (some value) =
    let trimmed = trim value in if Text.is_empty trimmed then none else some trimmed

unfoldable pub set_new_entries_enabled :
    RuntimeStateMachine → Bool → Option String → RuntimeStateMachine
set_new_entries_enabled s enabled reason = record s {
  new_entries_enabled = enabled;
  new_entries_reason = if enabled then none else given_reason reason;
}

unfoldable pub can_submit_orders : RuntimeStateMachine → Bool
can_submit_orders s =
    is_trading s.current_mode
    && is_armed s.arm_state
    && s.strategy_loaded
    && is_ready s.warmup_status
