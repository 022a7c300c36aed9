-- ===== src/StrategyRuntime/Windows.antt =====
-- When the session of crates/strategy_runtime/src/lib.rs allows entries, and when it has ended.
use tv_bot_core.Base.{String, Bool, true, false, ◌++◌, ◌≡◌, ◌↔◌, not, ◌&&◌, ◌||◌, is_empty, arith}
use tv_bot_core.External.{Externals}
use tv_bot_core.StrategyRuntime.Definition.{
  RuntimeTradeWindow, RuntimeStrategyDefinition, StrategyMarketSnapshot,
}
use tv_bot_core.StrategyRuntime.Session.{
  trade_window_wraps_midnight, trade_window_contains, trade_window_session_end_reached, local_now,
  weekday_now, day_allowed, within_window, after_entry_cutoff, session_end_reached, session_state,
  blocker,
}

blockers_iff :
    (day window cutoff feed sync : Bool) (a b c d e : String)
    → (is_empty (
          blocker (not day) a
          ++ blocker (not window) b
          ++ blocker cutoff c
          ++ blocker feed d
          ++ blocker sync e)
        ≡ true)
      ↔ ((day ≡ true) × (window ≡ true) × (cutoff ≡ false) × (feed ≡ false) × (sync ≡ false))
blockers_iff day window cutoff feed sync a b c d e = ground arith

module _ {X : Externals} where
  -- A time is in a trade window exactly when the window's session has not ended by it and, unless
  -- the window wraps around midnight, its start has been reached.
  pub trade_window_contains-session_end :
      (window : RuntimeTradeWindow X) (local_time : X.NaiveTime)
      → trade_window_contains window local_time ≡ (
          not (trade_window_session_end_reached window local_time)
          && (trade_window_wraps_midnight window || X.time_le window.start local_time))
  unfolding trade_window_contains trade_window_session_end_reached trade_window_wraps_midnight
  trade_window_contains-session_end window local_time = ground arith

module _ {X : Externals} (definition : RuntimeStrategyDefinition X)
    (snapshot : StrategyMarketSnapshot X) where
  -- What a session wants of an entry.
  abbrev pub EntriesOpen : Bool → Type 0
  EntriesOpen sync_degraded =
      (day_allowed definition (weekday_now definition snapshot) ≡ true)
      × (within_window definition (local_now definition snapshot) ≡ true)
      × (after_entry_cutoff definition (local_now definition snapshot) ≡ false)
      × ((snapshot.market_data_degraded
            && definition.strategy.failsafes.no_new_entries_on_data_degrade)
          ≡ false)
      × (sync_degraded ≡ false)

  within-ended :
      (allowed : Bool) (local_time : X.NaiveTime)
      → allowed ≡ true
      → within_window definition local_time ≡ true
      → session_end_reached definition allowed local_time ≡ false
  unfolding trade_window_contains trade_window_session_end_reached trade_window_wraps_midnight
  within-ended allowed local_time a w = ground arith

  -- Entries are allowed exactly when the day is a trading day, the time is in the trade window and
  -- before the cutoff, no guarded feed is degraded and the broker is in sync; the session has not
  -- ended then.
  pub session_state-EntriesOpen :
      (sync_degraded : Bool)
      → (((session_state definition snapshot sync_degraded).0 ≡ true) ↔ EntriesOpen sync_degraded)
        × (EntriesOpen sync_degraded
            → session_end_reached definition
                (day_allowed definition (weekday_now definition snapshot))
                (local_now definition snapshot)
              ≡ false)
  unfolding session_state
  session_state-EntriesOpen sync_degraded = (
    blockers_iff (day_allowed definition (weekday_now definition snapshot))
        (within_window definition (local_now definition snapshot))
        (after_entry_cutoff definition (local_now definition snapshot)) _ sync_degraded _ _ _ _ _,
    λ open_entries. within-ended _ _ open_entries.0 open_entries.1,
  )
