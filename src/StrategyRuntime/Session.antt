-- ===== src/StrategyRuntime/Session.antt =====
-- crates/strategy_runtime/src/lib.rs: the session of a strategy, and the warmup of its buffers.
use tv_bot_core.Base.{
  ℕ, leb, ◌==◌, Bool, true, false, Option, none, some, List, [], ◌∷◌, ◌++◌, String, not, ◌&&◌, ◌||◌,
  any, length, is_empty, is_some, format, if◌then◌else◌,
}
use tv_bot_core.External.{Externals, Weekday, time_lt}
use tv_bot_core.CoreTypes.{Timeframe, SessionMode, FlattenRuleMode, BrokerSyncState}
use tv_bot_core.RuleEngine.Evaluate.{get_bars}
use tv_bot_core.StrategyRuntime.Definition.{
  RuntimeTradeWindow, RuntimeFlattenRule, RuntimeStrategyDefinition, StrategyMarketSnapshot,
}

abbrev weekday_name : Weekday → String
weekday_name Weekday.mon = "Monday"
weekday_name Weekday.tue = "Tuesday"
weekday_name Weekday.wed = "Wednesday"
weekday_name Weekday.thu = "Thursday"
weekday_name Weekday.fri = "Friday"
weekday_name Weekday.sat = "Saturday"
weekday_name Weekday.sun = "Sunday"

-- The derived `PartialEq` of a weekday, by its number.
abbrev weekday_number : Weekday → ℕ
weekday_number Weekday.mon = 0
weekday_number Weekday.tue = 1
weekday_number Weekday.wed = 2
weekday_number Weekday.thu = 3
weekday_number Weekday.fri = 4
weekday_number Weekday.sat = 5
weekday_number Weekday.sun = 6

-- The derived `Debug` of the state of the broker sync.
abbrev pub debug_sync_state : BrokerSyncState → String
debug_sync_state BrokerSyncState.pending = "Pending"
debug_sync_state BrokerSyncState.synchronized = "Synchronized"
debug_sync_state BrokerSyncState.stale = "Stale"
debug_sync_state BrokerSyncState.mismatch = "Mismatch"
debug_sync_state BrokerSyncState.review_required = "ReviewRequired"
debug_sync_state BrokerSyncState.disconnected = "Disconnected"
debug_sync_state BrokerSyncState.failed = "Failed"

abbrev pub blocker : Bool → String → List String
blocker test reason = if test then reason ∷ [] else []

abbrev pub enough : {A : Type 0} → Option (List A) → ℕ → Bool
enough none required = false
enough (some bars) required = leb required (length bars)

module _ (X : Externals) where
  open X use {NaiveTime, time_le}

  abbrev reached : Option NaiveTime → NaiveTime → Bool
  reached none local_time = false
  reached (some time) local_time = time_le time local_time

  abbrev due_by_mode : FlattenRuleMode → Bool → Option NaiveTime → NaiveTime → Bool
  due_by_mode FlattenRuleMode.no_rule ended time local_time = false
  due_by_mode FlattenRuleMode.session_end ended time local_time = ended
  due_by_mode FlattenRuleMode.by_time ended time local_time = reached time local_time

module _ {X : Externals} where
  open X use {NaiveTime, time_le}

  unfoldable pub trade_window_wraps_midnight : RuntimeTradeWindow X → Bool
  trade_window_wraps_midnight window = time_le window.end window.start

  unfoldable pub trade_window_contains : RuntimeTradeWindow X → NaiveTime → Bool
  unfolding trade_window_wraps_midnight
  trade_window_contains window local_time =
      if trade_window_wraps_midnight window
      then time_le window.start local_time || time_lt X local_time window.end
      else time_le window.start local_time && time_lt X local_time window.end

  unfoldable pub trade_window_session_end_reached : RuntimeTradeWindow X → NaiveTime → Bool
  unfolding trade_window_wraps_midnight
  trade_window_session_end_reached window local_time =
      if trade_window_wraps_midnight window
      then time_le window.end local_time && time_lt X local_time window.start
      else time_le window.end local_time

  abbrev pub local_now : RuntimeStrategyDefinition X → StrategyMarketSnapshot X → NaiveTime
  local_now definition snapshot = X.local_time definition.timezone snapshot.now

  abbrev pub weekday_now : RuntimeStrategyDefinition X → StrategyMarketSnapshot X → Weekday
  weekday_now definition snapshot = X.local_weekday definition.timezone snapshot.now

  abbrev pub day_allowed : RuntimeStrategyDefinition X → Weekday → Bool
  day_allowed definition weekday =
      is_empty definition.allowed_days
      || any (λ day. weekday_number day == weekday_number weekday) definition.allowed_days

  abbrev in_window : Option (RuntimeTradeWindow X) → NaiveTime → Bool
  in_window none local_time = false
  in_window (some window) local_time = trade_window_contains window local_time

  abbrev within_mode : SessionMode → Option (RuntimeTradeWindow X) → NaiveTime → Bool
  within_mode SessionMode.always window local_time = true
  within_mode SessionMode.fixed_window window local_time = in_window window local_time

  abbrev pub within_window : RuntimeStrategyDefinition X → NaiveTime → Bool
  within_window definition local_time =
      within_mode definition.strategy.session.mode definition.trade_window local_time

  abbrev pub after_entry_cutoff : RuntimeStrategyDefinition X → NaiveTime → Bool
  after_entry_cutoff definition local_time = reached X definition.no_new_entries_after local_time

  abbrev ended_in_window : Bool → Option (RuntimeTradeWindow X) → NaiveTime → Bool
  ended_in_window allowed none local_time = false
  ended_in_window allowed (some window) local_time =
      trade_window_session_end_reached window local_time || not allowed

  abbrev ended_in_mode : Bool → SessionMode → Option (RuntimeTradeWindow X) → NaiveTime → Bool
  ended_in_mode allowed SessionMode.always window local_time = false
  ended_in_mode allowed SessionMode.fixed_window window local_time =
      ended_in_window allowed window local_time

  abbrev pub session_end_reached : RuntimeStrategyDefinition X → Bool → NaiveTime → Bool
  session_end_reached definition allowed local_time =
      ended_in_mode allowed definition.strategy.session.mode definition.trade_window local_time

  abbrev pub flatten_due_to_rule : Option (RuntimeFlattenRule X) → Bool → NaiveTime → Bool
  flatten_due_to_rule none ended local_time = false
  flatten_due_to_rule (some rule) ended local_time =
      due_by_mode X rule.mode ended rule.time local_time

  -- The blockers of `session_state`.
  abbrev pub session_blockers :
      RuntimeStrategyDefinition X → StrategyMarketSnapshot X → Bool → List String
  session_blockers definition snapshot sync_degraded =
      let local_time = local_now definition snapshot in
      let weekday = weekday_now definition snapshot in
      blocker (not (day_allowed definition weekday))
        (format (weekday_name weekday ∷ " is not an allowed trading day" ∷ []))
      ++ blocker (not (within_window definition local_time))
          "current time is outside the configured trade window"
      ++ blocker (after_entry_cutoff definition local_time) "no-new-entry cutoff has been reached"
      ++ blocker
          (snapshot.market_data_degraded
            && definition.strategy.failsafes.no_new_entries_on_data_degrade)
          "market data is degraded"
      ++ blocker sync_degraded (
          format (
            "broker sync is not healthy enough for new entries ("
            ∷ debug_sync_state snapshot.broker_sync_state
            ∷ ")"
            ∷ []))

  -- Whether entries are allowed, what blocks them, and whether the position is to be flattened.
  unfoldable pub session_state :
      RuntimeStrategyDefinition X → StrategyMarketSnapshot X → Bool → Bool × List String × Bool
  unfolding trade_window_contains trade_window_session_end_reached
  session_state definition snapshot sync_degraded =
      let local_time = local_now definition snapshot in
      let allowed = day_allowed definition (weekday_now definition snapshot) in
      let blockers = session_blockers definition snapshot sync_degraded in
      let ended = session_end_reached definition allowed local_time in
      let flatten_due =
        is_some snapshot.position
        && (definition.strategy.exit_rules.flatten_on_session_end && ended
            || flatten_due_to_rule definition.flatten_rule ended local_time) in
      (is_empty blockers, blockers, flatten_due)

  abbrev pub buffer_ready : StrategyMarketSnapshot X → Timeframe × ℕ → Bool
  buffer_ready snapshot (timeframe, required) =
      enough (get_bars snapshot.bars_by_timeframe timeframe) required

  unfoldable pub warmup_buffers_ready :
      RuntimeStrategyDefinition X → StrategyMarketSnapshot X → Bool
  unfolding get_bars
  warmup_buffers_ready definition snapshot =
      if definition.strategy.warmup.ready_requires_all
      then not (
          any (λ entry. not (buffer_ready snapshot entry)) definition.strategy.warmup.bars_required)
      else any (buffer_ready snapshot) definition.strategy.warmup.bars_required
