-- ===== src/Sample.antt =====
-- Concrete data for the tests: amounts are integers of cents, times are seconds, and a strategy
-- that is fixed in size and wants a stop and a profit target of the broker.
use tv_bot_core.Base.{
  ℕ, suc, ◌*◌, ◌/◌, ◌^◌, ℤ, pos, negsuc, ◌+ℤ◌, ◌-ℤ◌, leb_ℤ, unsigned_abs, pos_part, eqb_ℤ,
  parse_i64, leb, ◌%◌, Bool, true, false, Option, none, some, List, [], ◌∷◌, String, show_i64, ltb,
  if◌then◌else◌, sub_ℕ,
}
use tv_bot_core.External.{Externals, Weekday}
use tv_bot_core.Indicators.{BarInput}
use tv_bot_core.CoreTypes.{
  Timeframe, CompiledStrategy, ContractMode, SessionMode, SignalCombinationMode, EntryOrderType,
  PositionSizingMode, ReversalMode, BrokerPreference, BrokerPositionSnapshot,
}

abbrev divide : ℤ → ℤ → ℤ
divide (pos m) (pos n) = pos (m / n)
divide _ _ = pos 0

abbrev multiply : ℤ → ℤ → ℤ
multiply (pos m) (pos n) = pos (m * n)
multiply (pos m) (negsuc n) = sub_ℕ 0 (m * suc n)
multiply (negsuc m) (pos n) = sub_ℕ 0 (suc m * n)
multiply (negsuc m) (negsuc n) = pos (suc m * suc n)

abbrev to_u32 : ℤ → Option ℕ
to_u32 (pos n) = if ltb n (2 ^ 32) then some n else none
to_u32 (negsuc n) = none

abbrev is_negative : ℤ → Bool
is_negative (pos n) = false
is_negative (negsuc n) = true

abbrev seconds : Option ℤ → Option ℕ
seconds none = none
seconds (some z) = some (pos_part z)

abbrev pub cents : Externals
cents = record {
  Decimal = ℤ;
  decimal_zero = pos 0;
  decimal_of_unsigned = pos;
  decimal_le = leb_ℤ;
  decimal_add = ◌+ℤ◌;
  decimal_sub = ◌-ℤ◌;
  decimal_mul = multiply;
  decimal_div = divide;
  decimal_abs = λ z. pos (unsigned_abs z);
  decimal_is_sign_negative = is_negative;
  decimal_floor = λ z. z;
  decimal_to_u32 = to_u32;
  decimal_display = show_i64;
  decimal_one = pos 1;
  decimal_new = λ n scale. pos (n / 10 ^ scale);
  decimal_is_zero = λ z. eqb_ℤ z (pos 0);
  decimal_from_str = parse_i64;
  DateTime = ℤ;
  Duration = ℤ;
  duration_since = ◌-ℤ◌;
  duration_le = leb_ℤ;
  duration_zero = pos 0;
  duration_minutes = λ n. pos (60 * n);
  duration_seconds = pos;
  NaiveTime = ℕ;
  time_le = leb;
  time_from_str = λ s. seconds (parse_i64 s);
  Tz = String;
  tz_from_str = some;
  local_time = λ _ t. pos_part t % 86400;
  local_weekday = λ _ _. Weekday.wed;
  NaiveDate = ℤ;
  date_le = leb_ℤ;
  date_of = λ t. t;
  Json = String;
  json_as_object = λ _. none;
  json_as_array = λ _. none;
  json_as_string = some;
  json_object = λ _. "object";
  json_array = λ _. "array";
  json_string = λ s. s;
  json_unsigned = λ _. "number";
  json_null = "null";
  timestamp_nanos = some;
  Secret = String;
  expose_secret = λ s. s;
}

abbrev pub gold : CompiledStrategy cents
gold = record {
  metadata = record {
    schema_version = 1;
    strategy_id = "gc_momentum_v1";
    name = "GC Momentum";
    version = "1.0.0";
    author = "tests";
    description = "sample";
    tags = [];
    source = none;
    notes = none;
  };
  market = record {
    market = "gold";
    selection = record { contract_mode = ContractMode.front_month_auto };
  };
  session = record {
    mode = SessionMode.always;
    timezone = "America/New_York";
    trade_window = none;
    no_new_entries_after = none;
    flatten_rule = none;
    allowed_days = [];
  };
  data_requirements = record {
    feeds = [];
    timeframes = [];
    multi_timeframe = false;
    requires = none;
  };
  warmup = record { bars_required = []; ready_requires_all = true };
  signal_confirmation = record {
    mode = SignalCombinationMode.all;
    primary_conditions = "trend" ∷ [];
    n_required = none;
    secondary_conditions = [];
    score_threshold = none;
    regime_filter = none;
    sequence = [];
  };
  entry_rules = record {
    long_enabled = true;
    short_enabled = true;
    entry_order_type = EntryOrderType.market;
    entry_conditions = none;
    max_entry_distance_ticks = none;
    entry_timeout_seconds = none;
    allow_reentry_same_bar = none;
    entry_filters = none;
  };
  exit_rules = record {
    exit_on_opposite_signal = false;
    flatten_on_session_end = true;
    exit_conditions = [];
    timeout_exit = none;
    max_hold_seconds = none;
    emergency_exit_rules = none;
  };
  position_sizing = record {
    mode = PositionSizingMode.risk_based;
    contracts = some 2;
    max_risk_usd = some (pos 50000);
    min_contracts = some 1;
    max_contracts = some 3;
    fallback_fixed_contracts = some 1;
    rounding_mode = none;
  };
  execution = record {
    reversal_mode = ReversalMode.flatten_first;
    scaling = record { allow_scale_in = true; allow_scale_out = false; max_legs = 4 };
    broker_preferences = record {
      stop_loss = BrokerPreference.broker_required;
      take_profit = BrokerPreference.broker_preferred;
      trailing_stop = BrokerPreference.bot_allowed;
    };
  };
  trade_management = record {
    initial_stop_ticks = 20;
    take_profit_ticks = 40;
    break_even = none;
    trailing = none;
    partial_take_profit = none;
    post_entry_rules = none;
    time_based_adjustments = none;
  };
  risk = record {
    daily_loss = record { broker_side_required = false; local_backup_enabled = true };
    max_trades_per_day = 5;
    max_consecutive_losses = 3;
    max_open_positions = none;
    max_unrealized_drawdown_usd = some (pos 100000);
    cooldown_after_daily_stop = none;
    max_notional_exposure = none;
  };
  failsafes = record {
    no_new_entries_on_data_degrade = true;
    pause_on_broker_sync_mismatch = true;
    pause_on_reconnect_until_reviewed = some true;
    kill_on_repeated_order_rejects = none;
    abnormal_spread_guard = none;
    clock_sanity_required = none;
    storage_health_required = none;
  };
  state_behavior = record {
    cooldown_after_loss_s = 0;
    max_reentries_per_side = 1;
    regime_mode = none;
    memory_reset_rules = none;
    post_win_cooldown_s = none;
    failed_setup_decay = none;
    reentry_logic = none;
  };
  dashboard_display = record {
    show = [];
    default_overlay = "none";
    debug_panels = [];
    custom_labels = none;
    preferred_chart_timeframe = none;
  };
}

-- An open position of `quantity` contracts.
abbrev pub holding : ℤ → BrokerPositionSnapshot cents
holding quantity = record {
  account_id = none;
  symbol = "contract:4711";
  quantity = quantity;
  average_price = some (pos 235000);
  realized_pnl = none;
  unrealized_pnl = none;
  protective_orders_present = true;
  captured_at = pos 1000;
}

-- A bar of one minute.
abbrev pub candle : ℤ → ℤ → ℤ → ℕ → BarInput cents
candle high low close volume = record {
  symbol = "GCM2026";
  timeframe = Timeframe.one_minute;
  open_price = low;
  high = high;
  low = low;
  close = close;
  volume = volume;
  closed_at = pos 0;
}

abbrev pub rising : List (BarInput cents)
rising =
    candle (pos 12) (pos 8) (pos 10) 5
    ∷ candle (pos 15) (pos 9) (pos 14) 7
    ∷ candle (pos 21) (pos 13) (pos 20) 9
    ∷ []
